-- ===== src/Net.antt =====
-- The reactor of Net/: channels, the epoll poller, connections, the event loop.
pub mod Channel
pub mod Poller
pub mod Connection
pub mod Loop
pub mod Acceptor
pub mod Server
pub mod Client
