-- ===== src/Net/Channel.antt =====
-- `Channel` of Net/Channel.h and Net/Chanenel.cpp. The masks hold no bits but the named ones, so they
-- are records of Booleans. A callback that is called is an entry of a list; all four are set.
use turbo_core_dist_ai_clush.Prelude.{
  ℕ, Bool, true, false, not, ◌||◌, List, [], ◌∷◌, if◌then◌else◌, ◌++◌,
}

-- `m_events`: `kReadEvent` is POLLIN, `kWriteEvent` is POLLOUT.
pub record Interest : Type 0 where
  pub reads : Bool
  pub writes : Bool

-- `m_revents`, and the events of epoll: POLLIN, POLLOUT, POLLERR, POLLHUP.
pub record Revents : Type 0 where
  pub readable : Bool
  pub writable : Bool
  pub broken : Bool
  pub hung_up : Bool

pub record Channel : Type 0 where
  pub m_fd : ℕ
  pub m_events : Interest
  pub m_revents : Revents
  pub m_added : Bool

-- `kNoneEvent`
abbrev pub none_event : Interest
none_event = record { reads = false; writes = false }

abbrev pub no_revents : Revents
no_revents = record { readable = false; writable = false; broken = false; hung_up = false }

abbrev pub new_channel : ℕ → Channel
new_channel fd = record {
  m_fd = fd;
  m_events = none_event;
  m_revents = no_revents;
  m_added = false;
}

-- The changes of the mask; each is followed by `UpdateChannel`.
abbrev pub with_reading : Bool → Channel → Channel
with_reading b c = record c { m_events = record c.m_events { reads = b } }

abbrev pub with_writing : Bool → Channel → Channel
with_writing b c = record c { m_events = record c.m_events { writes = b } }

abbrev pub with_nothing : Channel → Channel
with_nothing c = record c { m_events = none_event }

abbrev pub has_no_events : Channel → Bool
has_no_events c = not (c.m_events.reads || c.m_events.writes)

abbrev pub is_writing : Channel → Bool
is_writing c = c.m_events.writes

abbrev pub is_reading : Channel → Bool
is_reading c = c.m_events.reads

abbrev pub set_revents : Revents → Channel → Channel
set_revents r c = record c { m_revents = r }

pub data Callback : Type 0 where
  on_error on_close on_read on_write : Callback

abbrev pub when {ℓ} : {A : Type ℓ} → Bool → A → List A
when true a = a ∷ []
when false a = []

unfoldable pub handle_event : Channel → List Callback
handle_event c =
    if c.m_revents.broken
    then on_error ∷ on_close ∷ []
    else if c.m_revents.hung_up
    then on_close ∷ []
    else when c.m_revents.readable on_read ++ when c.m_revents.writable on_write
