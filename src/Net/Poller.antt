-- ===== src/Net/Poller.antt =====
-- `EpollPoller` of Net/EPollPoller.h and Net/EPollPoller.cpp. A channel's address is a number. The set
-- that the kernel keeps for the epoll instance is part of the state, and `epoll_ctl` changes it as
-- documented: an addition of what is there, and a change or removal of what is not, fail.
pub mod Watches
use turbo_core_dist_ai_clush.Prelude.{
  ℕ, ◌*◌, Bool, true, false, ◌||◌, List, [], ◌∷◌, Option, none, some, if◌then◌else◌, ◌==◌, length,
  suc,
}
use turbo_core_dist_ai_clush.Prelude.NatMap
use turbo_core_dist_ai_clush.Prelude.Size.{Outcome, ok, assert_failed, ◌>>=◌}
use turbo_core_dist_ai_clush.Net.Channel.{Interest, Revents, Channel, has_no_events}

pub record EpollPoller : Type 0 where
  pub m_fd_to_channel : List (ℕ × ℕ)
  pub epoll_set : List (ℕ × Interest)
  -- `m_events.size()`
  pub m_events_size : ℕ

abbrev pub new_poller : EpollPoller
new_poller = record { m_fd_to_channel = []; epoll_set = []; m_events_size = 128 }

abbrev pub is_some {ℓ} : {A : Type ℓ} → Option A → Bool
is_some none = false
is_some (some a) = true

-- `epoll_ctl`; its error is only logged.
unfoldable pub epoll_ctl_add : List (ℕ × Interest) → ℕ → Interest → List (ℕ × Interest)
epoll_ctl_add set fd events =
    if is_some (NatMap.find set fd) then set else NatMap.assign set fd events

unfoldable pub epoll_ctl_mod : List (ℕ × Interest) → ℕ → Interest → List (ℕ × Interest)
epoll_ctl_mod set fd events =
    if is_some (NatMap.find set fd) then NatMap.assign set fd events else set

unfoldable pub epoll_ctl_del : List (ℕ × Interest) → ℕ → List (ℕ × Interest)
epoll_ctl_del set fd = NatMap.erase set fd

-- The kernel forgets a descriptor that is closed; the poller is not told.
unfoldable pub close_fd : EpollPoller → ℕ → EpollPoller
close_fd p fd = record p { epoll_set = NatMap.erase p.epoll_set fd }

unfoldable pub remove_channel : EpollPoller → Channel → EpollPoller × Channel
unfolding epoll_ctl_del
remove_channel p c =
    if is_some (NatMap.find p.m_fd_to_channel c.m_fd)
    then (
      record p {
        epoll_set = epoll_ctl_del p.epoll_set c.m_fd;
        m_fd_to_channel = NatMap.erase p.m_fd_to_channel c.m_fd;
      },
      record c { m_added = false },
    )
    else (p, c)

-- `address` is the channel's.
unfoldable pub update_channel : EpollPoller → ℕ → Channel → EpollPoller × Channel
unfolding remove_channel epoll_ctl_add epoll_ctl_mod
update_channel p address c =
    let known = is_some (NatMap.find p.m_fd_to_channel c.m_fd) in
    if has_no_events c
    then (if known then remove_channel p c else (p, c))
    else if known
    then (record p { epoll_set = epoll_ctl_mod p.epoll_set c.m_fd c.m_events }, c)
    else (
      record p {
        m_fd_to_channel = NatMap.assign p.m_fd_to_channel c.m_fd address;
        epoll_set = epoll_ctl_add p.epoll_set c.m_fd c.m_events;
      },
      record c { m_added = true },
    )

-- The events that the kernel reports, with EPOLLRDHUP beside those of `Revents`.
pub record EpollEvents : Type 0 where
  pub epoll_in : Bool
  pub epoll_out : Bool
  pub epoll_err : Bool
  pub epoll_hup : Bool
  pub epoll_rdhup : Bool

unfoldable pub trans_revents : EpollEvents → Revents
trans_revents e = record {
  readable = e.epoll_in;
  writable = e.epoll_out;
  broken = e.epoll_err;
  hung_up = e.epoll_hup || e.epoll_rdhup;
}

-- What `epoll_wait` returns: it was interrupted, it failed, or it gives descriptors with events.
pub data Waited : Type 0 where
  interrupted wait_failed : Waited
  ready : List (ℕ × EpollEvents) → Waited

-- The loop of `Poll` over the ready descriptors: the addresses of the channels, with their events.
unfoldable pub activate : List (ℕ × ℕ) → List (ℕ × EpollEvents) → Outcome (List (ℕ × Revents))
unfolding trans_revents
activate table [] = ok []
activate table ((fd, events) ∷ rest) = elim (NatMap.find table fd) [
  | none ↦ assert_failed
  | some address ↦ do more ← activate table rest; ok ((address, trans_revents events) ∷ more)
]

-- `Poll`, without the count that it returns; a full buffer is doubled.
unfoldable pub poll : EpollPoller → Waited → Outcome (List (ℕ × Revents) × EpollPoller)
unfolding activate
poll p interrupted = ok ([], p)
poll p wait_failed = ok ([], p)
poll p (ready []) = ok ([], p)
poll p (ready (event ∷ events)) = do
  active ← activate p.m_fd_to_channel (event ∷ events)
  ok (
    active,
    if suc (length events) == p.m_events_size
        then record p { m_events_size = p.m_events_size * 2 }
        else p,
  )
