-- ===== src/Net/Connection/Promises.antt =====
-- The bytes that a connection was asked to send, by its loop's thread and by others, told without its
-- queue of functors: each promise keeps the bytes that its send was given.
use turbo_core_dist_ai_clush.Prelude.{
  ℕ, ◌≡◌, refl, ap, ◌∙◌, sym, subst, true, false, List, [], ◌∷◌, ◌++◌, Option, none, some, length,
  take, if◌then◌else◌, arith, ap₂,
}
use turbo_core_dist_ai_clush.Buffer.Valid.{contents}
use turbo_core_dist_ai_clush.Net.Poller.{EpollPoller}
use turbo_core_dist_ai_clush.Net.Connection.{
  TcpConnection, Functor, later_send, later_shutdown, later_force_close, is_connected,
  new_connection,
}
use turbo_core_dist_ai_clush.Net.Connection.Steps.{
  Event, established, destroyed, hung_up, failed, readable, writable, sends, shuts_down,
  forces_close, runs_next, consumes, Run, stop, go, AllPossible, late, tail, queue_after,
  accepted_next, offered, all_offered, all_written,
}
use turbo_core_dist_ai_clush.Net.Connection.Sound.{IsSound}
use turbo_core_dist_ai_clush.Net.Connection.Lifetime.{step-Goes, new_connection-IsSound}
use turbo_core_dist_ai_clush.Net.Connection.Stream.{Run-offered}

-- What another thread asked for and the loop has not run yet: a send with its bytes, or another call.
abbrev pub Promise : Type 0
Promise = Option (List ℕ)

abbrev pub later : List Promise → List Promise
later [] = []
later (q ∷ qs) = qs

unfoldable pub promises_after : Event → List Promise → List Promise
promises_after (sends true bytes len) qs = qs
promises_after (sends false bytes len) qs = qs ++ (some (take len bytes) ∷ [])
promises_after (shuts_down true) qs = qs
promises_after (shuts_down false) qs = qs ++ (none ∷ [])
promises_after (forces_close true) qs = qs
promises_after (forces_close false) qs = qs ++ (none ∷ [])
promises_after (runs_next memory) qs = later qs
promises_after established qs = qs
promises_after destroyed qs = qs
promises_after hung_up qs = qs
promises_after failed qs = qs
promises_after (readable stack r) qs = qs
promises_after (writable r) qs = qs
promises_after (consumes n) qs = qs

-- The bytes that are due now: those of a send in the loop's thread, or of the first promise, where the
-- connection is connected.
abbrev pub kept : TcpConnection → List Promise → List ℕ
kept c [] = []
kept c (none ∷ qs) = []
kept c (some bytes ∷ qs) = if is_connected c.m_state then bytes else []

unfoldable pub promised : TcpConnection → Event → List Promise → List ℕ
promised c (sends true bytes len) qs = if is_connected c.m_state then take len bytes else []
promised c (sends false bytes len) qs = []
promised c (shuts_down true) qs = []
promised c (shuts_down false) qs = []
promised c (forces_close true) qs = []
promised c (forces_close false) qs = []
promised c (runs_next memory) qs = kept c qs
promised c established qs = []
promised c destroyed qs = []
promised c hung_up qs = []
promised c failed qs = []
promised c (readable stack r) qs = []
promised c (writable r) qs = []
promised c (consumes n) qs = []

-- A send of another thread is given the bytes that it says, and they still stand at its pointer when
-- the loop runs it.
abbrev pub IsUnchanged : List Promise → List ℕ → Type 0
IsUnchanged [] memory = Unit {0}
IsUnchanged (none ∷ qs) memory = Unit {0}
IsUnchanged (some bytes ∷ qs) memory = take (length bytes) memory ≡ bytes

unfoldable pub IsIntact : Event → List Promise → Type 0
IsIntact (sends true bytes len) qs = Unit {0}
IsIntact (sends false bytes len) qs = length (take len bytes) ≡ len
IsIntact (shuts_down true) qs = Unit {0}
IsIntact (shuts_down false) qs = Unit {0}
IsIntact (forces_close true) qs = Unit {0}
IsIntact (forces_close false) qs = Unit {0}
IsIntact (runs_next memory) qs = IsUnchanged qs memory
IsIntact established qs = Unit {0}
IsIntact destroyed qs = Unit {0}
IsIntact hung_up qs = Unit {0}
IsIntact failed qs = Unit {0}
IsIntact (readable stack r) qs = Unit {0}
IsIntact (writable r) qs = Unit {0}
IsIntact (consumes n) qs = Unit {0}

unfoldable pub all_promised : {c c' : TcpConnection} → Run c c' → List Promise → List ℕ
all_promised stop qs = []
all_promised {c = c} (go e c₁ same more) qs =
    promised c e qs ++ all_promised more (promises_after e qs)

unfoldable pub AllIntact : {c c' : TcpConnection} → Run c c' → List Promise → Type 0
AllIntact stop qs = Unit {0}
AllIntact {c = c} (go e c₁ same more) qs = IsIntact e qs × AllIntact more (promises_after e qs)

-- The functor is that of the promise.
abbrev IsFor : Promise → Functor → Type 0
IsFor (some bytes) (later_send len) = length bytes ≡ len
IsFor (some bytes) later_shutdown = true ≡ false
IsFor (some bytes) later_force_close = true ≡ false
IsFor none (later_send len) = true ≡ false
IsFor none later_shutdown = Unit {0}
IsFor none later_force_close = Unit {0}

abbrev Matches : List Promise → List Functor → Type 0
Matches [] [] = Unit {0}
Matches [] (f ∷ fs) = true ≡ false
Matches (q ∷ qs) [] = true ≡ false
Matches (q ∷ qs) (f ∷ fs) = IsFor q f × Matches qs fs

Matches-snoc :
    (qs : List Promise) (fs : List Functor) (q : Promise) (f : Functor)
    → Matches qs fs
    → IsFor q f
    → Matches (qs ++ (q ∷ [])) (fs ++ (f ∷ []))
Matches-snoc [] [] q f m h = (h, tt)
Matches-snoc [] (g ∷ fs) q f m h = absurd (ground (arith, m))
Matches-snoc (p ∷ qs) [] q f m h = absurd (ground (arith, m))
Matches-snoc (p ∷ qs) (g ∷ fs) q f (first, rest) h = (first, Matches-snoc qs fs q f rest h)

Matches-tail :
    (qs : List Promise) (fs : List Functor) → Matches qs fs → Matches (later qs) (tail fs)
Matches-tail [] [] m = tt
Matches-tail [] (g ∷ fs) m = absurd (ground (arith, m))
Matches-tail (p ∷ qs) [] m = absurd (ground (arith, m))
Matches-tail (p ∷ qs) (g ∷ fs) m = m.1

module _ (c : TcpConnection) (qs : List Promise) (m : Matches qs c.m_pending_functors) where
  step-Matches : (e : Event) → IsIntact e qs → Matches (promises_after e qs) (queue_after c e)
  unfolding promises_after queue_after IsIntact
  step-Matches (sends true bytes len) h = m
  step-Matches (sends false bytes len) h = Matches-snoc qs c.m_pending_functors _ _ m h
  step-Matches (shuts_down true) h = m
  step-Matches (shuts_down false) h = Matches-snoc qs c.m_pending_functors _ later_shutdown m tt
  step-Matches (forces_close true) h = m
  step-Matches (forces_close false) h =
      Matches-snoc qs c.m_pending_functors _ later_force_close m tt
  step-Matches (runs_next memory) h = Matches-tail qs c.m_pending_functors m
  step-Matches established h = m
  step-Matches destroyed h = m
  step-Matches hung_up h = m
  step-Matches failed h = m
  step-Matches (readable stack r) h = m
  step-Matches (writable r) h = m
  step-Matches (consumes n) h = m

accepted_next-kept :
    (c : TcpConnection) (qs : List Promise) (fs : List Functor) (memory : List ℕ)
    → Matches qs fs
    → IsUnchanged qs memory
    → accepted_next c fs memory ≡ kept c qs
accepted_next-kept c [] [] memory m h = refl
accepted_next-kept c [] (g ∷ fs) memory m h = absurd (ground (arith, m))
accepted_next-kept c (q ∷ qs) [] memory m h = absurd (ground (arith, m))
accepted_next-kept c (some bytes ∷ qs) (later_send len ∷ fs) memory m h =
    ap (λ x. if is_connected c.m_state then x else []) (ap (λ k. take k memory) (sym m.0) ∙ h)
accepted_next-kept c (some bytes ∷ qs) (later_shutdown ∷ fs) memory m h =
    absurd (ground (arith, m.0))
accepted_next-kept c (some bytes ∷ qs) (later_force_close ∷ fs) memory m h =
    absurd (ground (arith, m.0))
accepted_next-kept c (none ∷ qs) (later_send len ∷ fs) memory m h = absurd (ground (arith, m.0))
accepted_next-kept c (none ∷ qs) (later_shutdown ∷ fs) memory m h = refl
accepted_next-kept c (none ∷ qs) (later_force_close ∷ fs) memory m h = refl

offered-promised :
    (c : TcpConnection) (e : Event) (qs : List Promise)
    → Matches qs c.m_pending_functors
    → IsIntact e qs
    → offered c e ≡ promised c e qs
unfolding offered promised IsIntact
offered-promised c (sends true bytes len) qs m h = refl
offered-promised c (sends false bytes len) qs m h = refl
offered-promised c (shuts_down true) qs m h = refl
offered-promised c (shuts_down false) qs m h = refl
offered-promised c (forces_close true) qs m h = refl
offered-promised c (forces_close false) qs m h = refl
offered-promised c (runs_next memory) qs m h =
    accepted_next-kept c qs c.m_pending_functors memory m h
offered-promised c established qs m h = refl
offered-promised c destroyed qs m h = refl
offered-promised c hung_up qs m h = refl
offered-promised c failed qs m h = refl
offered-promised c (readable stack r) qs m h = refl
offered-promised c (writable r) qs m h = refl
offered-promised c (consumes n) qs m h = refl

Run-promised :
    {c c' : TcpConnection} (r : Run c c') (n : ℕ) (qs : List Promise)
    → IsSound n c
    → Matches qs c.m_pending_functors
    → AllIntact r qs
    → all_offered r ≡ all_promised r qs
unfolding all_offered all_promised AllIntact
Run-promised stop n qs v m h = refl
Run-promised {c = c} (go e c₁ same more) n qs v m (now, rest) =
    let next = step-Goes n c c₁ e v same in
    ap₂ ◌++◌ (offered-promised c e qs m now) (
      Run-promised more (late c e n) (promises_after e qs) next.sound
        (subst (Matches (promises_after e qs)) (sym next.queued) (step-Matches c qs m e now)) rest)

-- At every time of a connection's life, the bytes that it wrote and those that wait in the output
-- buffer are together, in order, the bytes of the sends, each as it was given: a send in the loop's
-- thread counts at once, one of another thread in the order in which the other threads' calls were
-- queued and when the loop runs it, and each where the connection is then connected. Nothing is lost,
-- doubled or reordered before the kernel takes it. The conditions are that the bytes fit into memory,
-- that the kernel takes no more than it is given, that a message callback retrieves no more than there
-- is, that `ConnectEstablished` finds a new connection, and that a send of another thread is given as
-- many bytes as it says, which still stand at its pointer when the loop runs it.
pub all_written-all_promised :
    (p : EpollPoller) (address fd : ℕ) (c : TcpConnection) (r : Run (new_connection p address fd) c)
    → AllPossible r
    → AllIntact r []
    → all_written r ++ contents c.m_output_buffer ≡ all_promised r []
unfolding new_connection
all_written-all_promised p address fd c r possible intact =
    Run-offered p address fd c r possible
    ∙ Run-promised r 0 [] (new_connection-IsSound p address fd) tt intact
