-- ===== src/Net/Acceptor/Watched.antt =====
-- While an acceptor listens its poller watches its descriptor, and it leaves nothing behind.
use turbo_core_dist_ai_clush.Prelude.{ℕ, ◌≡◌, ◌∙◌, true, none, some, if◌then◌else◌, ◌==◌}
use turbo_core_dist_ai_clush.Prelude.NatMap
use turbo_core_dist_ai_clush.Net.Channel.{with_reading}
use turbo_core_dist_ai_clush.Net.Poller.{
  EpollPoller, close_fd, remove_channel, update_channel, epoll_ctl_add, epoll_ctl_mod,
  epoll_ctl_del,
}
use turbo_core_dist_ai_clush.Net.Poller.Watches.{IsInStep, update_channel_lem}
use turbo_core_dist_ai_clush.Net.Acceptor.{Acceptor, new_acceptor, listen, destroy}

-- Where the kernel watches exactly the descriptors of the table, an acceptor that starts to listen
-- has its descriptor watched for reading, beside what its channel asked for, and every other
-- descriptor is watched as before.
listen-find :
    (a : Acceptor) (fd : ℕ)
    → IsInStep a.m_poller
    → NatMap.find (listen a).m_poller.epoll_set fd ≡ (
        if a.m_listen_channel.m_fd == fd
        then some (with_reading true a.m_listen_channel).m_events
        else NatMap.find a.m_poller.epoll_set fd)
unfolding listen
listen-find a fd v =
    (update_channel_lem a.m_poller a.m_address (with_reading true a.m_listen_channel) fd v).0

-- An acceptor over a descriptor that neither the kernel nor the table has, which listens and is
-- destroyed, leaves the table and what the kernel watches as they were.
destroy-listen :
    (p : EpollPoller) (address fd other : ℕ)
    → NatMap.find p.m_fd_to_channel fd ≡ none
    → NatMap.find p.epoll_set fd ≡ none
    → (NatMap.find (destroy (listen (new_acceptor p address fd))).epoll_set other
        ≡ NatMap.find p.epoll_set other)
      × (NatMap.find (destroy (listen (new_acceptor p address fd))).m_fd_to_channel other
          ≡ NatMap.find p.m_fd_to_channel other)
unfolding listen destroy update_channel remove_channel close_fd epoll_ctl_add epoll_ctl_mod
    epoll_ctl_del
destroy-listen p address fd other free unwatched =
    rw
      (
        free,
        unwatched,
        NatMap.find-assign_same p.m_fd_to_channel fd address,
        NatMap.find-erase_same (NatMap.assign p.m_fd_to_channel fd address) fd,
      )
      (
        NatMap.find-erase-erase _ fd other
            ∙ NatMap.find-erase-assign p.epoll_set fd _ other unwatched,
        NatMap.find-erase-assign p.m_fd_to_channel fd address other free,
      )
