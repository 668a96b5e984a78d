-- ===== src/Tests.antt =====
-- The theorems at concrete inputs, and runs of the definitions that can be followed in the source.
mod JsonText
mod Protocol
mod Parser
mod Buffer
mod JobManager
mod Registry
mod Server
mod Gateway
mod Connection
mod Loop
mod Net
mod Config
mod Worker
