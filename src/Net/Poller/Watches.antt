-- ===== src/Net/Poller/Watches.antt =====
-- What the kernel watches is what the channels ask for, as long as no descriptor is closed behind
-- the poller's back.
use turbo_core_dist_ai_clush.Prelude.{ℕ, ◌≡◌, false, none, some, if◌then◌else◌, ◌==◌, arith}
use turbo_core_dist_ai_clush.Prelude.NatMap
use turbo_core_dist_ai_clush.Net.Channel.{Channel, has_no_events}
use turbo_core_dist_ai_clush.Net.Poller.{
  EpollPoller, is_some, epoll_ctl_add, epoll_ctl_mod, epoll_ctl_del, close_fd, remove_channel,
  update_channel,
}

-- The kernel watches exactly the descriptors that the table has.
abbrev pub IsInStep : EpollPoller → Type 0
IsInStep p =
    (fd : ℕ) → is_some (NatMap.find p.epoll_set fd) ≡ is_some (NatMap.find p.m_fd_to_channel fd)

-- Where the kernel watches exactly the descriptors of the table, `UpdateChannel` keeps it so, and
-- after it the kernel watches the channel's descriptor for exactly the events that the channel asks
-- for, not at all where it asks for none, and every other descriptor as before.
pub update_channel_lem :
    (p : EpollPoller) (address : ℕ) (c : Channel) (fd : ℕ)
    → IsInStep p
    → (NatMap.find (update_channel p address c).0.epoll_set fd ≡ (
        if c.m_fd == fd
        then (if has_no_events c then none else some c.m_events)
        else NatMap.find p.epoll_set fd))
      × (is_some (NatMap.find (update_channel p address c).0.epoll_set fd)
          ≡ is_some (NatMap.find (update_channel p address c).0.m_fd_to_channel fd))
unfolding update_channel remove_channel epoll_ctl_add epoll_ctl_mod epoll_ctl_del
update_channel_lem p address c fd v = ground (
  arith,
  v fd,
  v c.m_fd,
  NatMap.find-assign p.epoll_set c.m_fd c.m_events fd,
  NatMap.find-erase p.epoll_set c.m_fd fd,
  NatMap.find-assign p.m_fd_to_channel c.m_fd address fd,
  NatMap.find-erase p.m_fd_to_channel c.m_fd fd,
)

-- Where a closed descriptor is still in the table, `UpdateChannel` of any channel that gets the same
-- descriptor and asks for events leaves it unwatched: the table keeps the old channel, and the
-- kernel is asked to change an entry that it does not have.
pub update_channel-close_fd :
    (p : EpollPoller) (address old : ℕ) (c : Channel)
    → NatMap.find p.m_fd_to_channel c.m_fd ≡ some old
    → has_no_events c ≡ false
    → (NatMap.find (update_channel (close_fd p c.m_fd) address c).0.epoll_set c.m_fd ≡ none)
      × (NatMap.find (update_channel (close_fd p c.m_fd) address c).0.m_fd_to_channel c.m_fd
          ≡ some old)
unfolding update_channel close_fd epoll_ctl_mod
update_channel-close_fd p address old c there asks =
    ground (arith, there, asks, NatMap.find-erase p.epoll_set c.m_fd c.m_fd)
