-- ===== src/Net/Acceptor.antt =====
-- `Acceptor` of Net/Acceptor.h and Net/Acceptor.cpp, with the poller that its loop keeps; every call
-- comes from the loop's thread. What the system calls return is an argument.
pub mod Watched
use turbo_core_dist_ai_clush.Prelude.{
  ℕ, Bool, true, false, List, [], ◌∷◌, Option, none, some, if◌then◌else◌,
}
use turbo_core_dist_ai_clush.Net.Channel.{Channel, new_channel, with_reading, with_nothing}
use turbo_core_dist_ai_clush.Net.Poller.{EpollPoller, close_fd, remove_channel, update_channel}

-- `m_address` is the channel's. `has_callback` tells whether a callback for new connections is set.
pub record Acceptor : Type 0 where
  pub m_poller : EpollPoller
  pub m_address : ℕ
  pub m_listen_channel : Channel
  pub has_callback : Bool
  pub m_is_listening : Bool

-- What becomes of an accepted descriptor.
pub data Accepted : Type 0 where
  hands_over closes : ℕ → Accepted

-- `fd` is the socket's that `CreateNonBlocking` made.
abbrev pub new_acceptor : EpollPoller → ℕ → ℕ → Acceptor
new_acceptor poller address fd = record {
  m_poller = poller;
  m_address = address;
  m_listen_channel = new_channel fd;
  has_callback = false;
  m_is_listening = false;
}

abbrev pub update_listen : Channel → Acceptor → Acceptor
update_listen channel a = record a {
  m_poller = (update_channel a.m_poller a.m_address channel).0;
  m_listen_channel = (update_channel a.m_poller a.m_address channel).1;
}

abbrev pub set_new_connection_callback : Acceptor → Acceptor
set_new_connection_callback a = record a { has_callback = true }

-- What `Socket::Listen` returns is not looked at.
unfoldable pub listen : Acceptor → Acceptor
listen a = record (update_listen (with_reading true a.m_listen_channel) a) { m_is_listening = true }

-- `accepted` is the descriptor that `Socket::Accept` returned, if any.
unfoldable pub handle_accept : Acceptor → Option ℕ → List Accepted
handle_accept a none = []
handle_accept a (some fd) = if a.has_callback then hands_over fd ∷ [] else closes fd ∷ []

-- The destructor, and then that of `m_listen_socket`, which closes it: what the poller is then.
unfoldable pub destroy : Acceptor → EpollPoller
destroy a =
    let silent = update_listen (with_nothing a.m_listen_channel) a in
    let removed = remove_channel silent.m_poller silent.m_listen_channel in
    close_fd removed.0 a.m_listen_channel.m_fd
