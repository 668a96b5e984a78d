-- ===== src/Net/Loop/Delayed.antt =====
-- The delayed tasks: `RunAfter` and `ProcessDelayedTasks`.
use turbo_core_dist_ai_clush.Prelude.{
  ℕ, ◌+◌, ◌*◌, ◌≤◌, ◌<◌, ◌≡◌, refl, ap, Bool, true, false, List, [], ◌∷◌, ◌++◌, map, arith, leb,
  if◌then◌else◌, All, leb-cases, inl, inr,
}
use turbo_core_dist_ai_clush.Net.Loop.{
  EventLoop, DelayedTask, Request, queues, delays, quits, queue_in_loop, run_after, quit, perform,
  perform_all, take_ready, call, call_all, do_pending_functors, process_delayed_tasks, loop_round,
  loop_rounds, loop, push, expiry,
}

module _ {T : Type 0} where
  -- The queue's tasks in the order of their expiry.
  unfoldable pub IsSorted : List (DelayedTask T) → Type 0
  IsSorted [] = Unit {0}
  IsSorted (t ∷ ts) = All (λ u. t.expire_time ≤ u.expire_time) ts × IsSorted ts

  -- The tasks that have expired, and the others.
  unfoldable pub due : ℕ → List (DelayedTask T) → List (DelayedTask T)
  due now [] = []
  due now (t ∷ ts) = if leb t.expire_time now then t ∷ due now ts else due now ts

  unfoldable pub waiting : ℕ → List (DelayedTask T) → List (DelayedTask T)
  waiting now [] = []
  waiting now (t ∷ ts) = if leb t.expire_time now then waiting now ts else t ∷ waiting now ts

  abbrev After : ℕ → List (DelayedTask T) → Type 0
  After time = All (λ u. time ≤ u.expire_time)

  After-le : (a b : ℕ) (ts : List (DelayedTask T)) → a ≤ b → After b ts → After a ts
  After-le a b [] h p = tt
  After-le a b (t ∷ ts) h (first, rest) = (omega arith, After-le a b ts h rest)

  After-push :
      (a : ℕ) (t : DelayedTask T) (ts : List (DelayedTask T))
      → a ≤ t.expire_time
      → After a ts
      → After a (push t ts)
  unfolding push
  After-push a t [] h p = (h, tt)
  After-push a t (u ∷ us) h (first, rest) = ground (arith, h, first, rest, After-push a t us h rest)

  push-IsSorted :
      (t : DelayedTask T) (ts : List (DelayedTask T)) → IsSorted ts → IsSorted (push t ts)
  unfolding push IsSorted
  push-IsSorted t [] s = (tt, tt)
  push-IsSorted t (u ∷ us) (first, rest) = elim (leb-cases u.expire_time t.expire_time) [
    | inl (test, le) ↦ rw test (After-push u.expire_time t us le first, push-IsSorted t us rest)
    | inr (test, gt) ↦
        let le : t.expire_time ≤ u.expire_time = omega (arith, gt) in
        rw test ((le, After-le t.expire_time u.expire_time us le first), (first, rest))
  ]

  waiting-After :
      (now time : ℕ) (ts : List (DelayedTask T))
      → now < time
      → After time ts
      → (due now ts ≡ []) × (waiting now ts ≡ ts)
  unfolding due waiting
  waiting-After now time [] h p = (refl, refl)
  waiting-After now time (t ∷ ts) h (first, rest) =
      ground (arith, h, first, waiting-After now time ts h rest)

  -- Of a sorted queue, exactly the expired tasks are taken out.
  take_ready_lem :
      (now : ℕ) (ts : List (DelayedTask T))
      → IsSorted ts
      → take_ready now ts ≡ (map (λ t. t.cb) (due now ts), waiting now ts)
  unfolding take_ready due waiting IsSorted
  take_ready_lem now [] s = refl
  take_ready_lem now (t ∷ ts) (first, rest) = elim (leb-cases t.expire_time now) [
    | inl (test, le) ↦ rw test (ap (λ r. (t.cb ∷ r.0, r.1)) (take_ready_lem now ts rest))
    | inr (test, gt) ↦
        let (nothing, all) = waiting-After now t.expire_time ts gt first in
        rw (test, nothing, all) refl
  ]

  -- A new task is due exactly from its expiry on, in its place, and the others are as before.
  due-push :
      (now : ℕ) (t : DelayedTask T) (ts : List (DelayedTask T))
      → IsSorted ts
      → (due now (push t ts) ≡ (if leb t.expire_time now then push t (due now ts) else due now ts))
        × (waiting now (push t ts)
            ≡ (if leb t.expire_time now then waiting now ts else push t (waiting now ts)))
  unfolding due waiting push IsSorted
  due-push now t [] s = ground arith
  due-push now t (u ∷ us) (first, rest) =
      let (d, w) = due-push now t us rest in
      elim (leb-cases u.expire_time t.expire_time) [
        | inl (test, le) ↦ ground (arith, test, le, d, w)
        | inr (test, gt) ↦ elim (leb-cases u.expire_time now) [
          | inl (early, le) ↦ ground (arith, test, gt, early, le)
          | inr (late, gu) ↦
              let (nothing, all) = waiting-After now u.expire_time us gu first in
              ground (arith, test, gt, late, gu, nothing, all)
        ]
      ]

  -- The queue stays in order, whatever the callbacks ask for.
  abbrev pub IsOrdered : EventLoop T → Type 0
  IsOrdered l = IsSorted l.m_delayed_tasks

  perform-IsOrdered :
      (now : ℕ) (l : EventLoop T) (r : Bool × Request T) → IsOrdered l → IsOrdered (perform now l r)
  unfolding perform queue_in_loop run_after quit
  perform-IsOrdered now l (in_loop, queues cb) s = ground (arith, s)
  perform-IsOrdered now l (in_loop, delays seconds cb) s = ground (
    arith,
    push-IsSorted (record { expire_time = expiry now seconds; cb = cb }) l.m_delayed_tasks s,
  )
  perform-IsOrdered now l (in_loop, quits) s = ground (arith, s)

  perform_all-IsOrdered :
      (now : ℕ) (rs : List (Bool × Request T)) (l : EventLoop T)
      → IsOrdered l
      → IsOrdered (perform_all now l rs)
  unfolding perform_all
  perform_all-IsOrdered now [] l s = s
  perform_all-IsOrdered now (r ∷ rs) l s =
      perform_all-IsOrdered now rs (perform now l r) (perform-IsOrdered now l r s)

  take_ready-IsSorted :
      (now : ℕ) (ts : List (DelayedTask T)) → IsSorted ts → IsSorted (take_ready now ts).1
  unfolding take_ready IsSorted
  take_ready-IsSorted now [] s = s
  take_ready-IsSorted now (t ∷ ts) (first, rest) =
      ground (arith, first, rest, take_ready-IsSorted now ts rest)

  module _ (does : T → List (Bool × Request T)) where
    call_all-IsOrdered :
        (now : ℕ) (cbs : List T) (l : EventLoop T)
        → IsOrdered l
        → IsOrdered (call_all does now cbs l)
    unfolding call_all call
    call_all-IsOrdered now [] l s = s
    call_all-IsOrdered now (cb ∷ cbs) l s =
        call_all-IsOrdered now cbs (call does now cb l)
          (perform_all-IsOrdered now (does cb) (record l { ran = l.ran ++ (cb ∷ []) }) s)

    loop_round-IsOrdered :
        (now : ℕ) (handlers : List T) (l : EventLoop T)
        → IsOrdered l
        → IsOrdered (loop_round does now handlers l)
    unfolding loop_round do_pending_functors process_delayed_tasks
    loop_round-IsOrdered now handlers l s =
        let handled = call_all does now handlers l in
        let swapped = record handled {
          m_calling_pending_functors = true;
          m_pending_functors = [];
        } in
        let first = call_all-IsOrdered now handlers l s in
        let emptied = call_all-IsOrdered now handled.m_pending_functors swapped first in
        let done = call_all does now handled.m_pending_functors swapped in
        call_all-IsOrdered now (take_ready now done.m_delayed_tasks).0
          (record done {
            m_calling_pending_functors = false;
            m_delayed_tasks = (take_ready now done.m_delayed_tasks).1;
          })
          (take_ready-IsSorted now done.m_delayed_tasks emptied)

    loop_rounds-IsOrdered :
        (rounds : List (ℕ × List T)) (l : EventLoop T)
        → IsOrdered l
        → IsOrdered (loop_rounds does rounds l)
    unfolding loop_rounds
    loop_rounds-IsOrdered [] l s = s
    loop_rounds-IsOrdered ((now, handlers) ∷ rounds) l s =
        let next = loop_round does now handlers l in
        ground (arith, s, loop_rounds-IsOrdered rounds next (loop_round-IsOrdered now handlers l s))

  -- `Loop` keeps the queue of delayed tasks in the order of expiry, whatever the handlers, functors
  -- and tasks, or other threads while they run, queue, delay or stop. In such a queue, a task that `RunAfter` puts in is taken out by
  -- `ProcessDelayedTasks` exactly where the time is at least the start and 1000 milliseconds for each
  -- unit of the delay; it is then taken in the order of expiry, and else it stays. What the call takes
  -- and leaves of the other tasks is the same as without it: it takes exactly those that expired.
  pub run_after-take_ready :
      (does : T → List (Bool × Request T)) (rounds : List (ℕ × List T)) (l : EventLoop T)
      (now later seconds : ℕ) (in_loop : Bool) (cb : T)
      → IsOrdered l
      → let looped = loop does rounds l in
        let task : DelayedTask T = record { expire_time = expiry now seconds; cb = cb } in
        let early = due later looped.m_delayed_tasks in
        let late = waiting later looped.m_delayed_tasks in
        IsOrdered looped
        × (take_ready later (run_after now in_loop seconds cb looped).m_delayed_tasks ≡ (
            if leb (now + seconds * 1000 * 1000000) later
            then (map (λ t. t.cb) (push task early), late)
            else (map (λ t. t.cb) early, push task late)))
  unfolding run_after loop
  run_after-take_ready does rounds l now later seconds in_loop cb s =
      let looped = loop does rounds l in
      let task : DelayedTask T = record { expire_time = expiry now seconds; cb = cb } in
      let ordered = loop_rounds-IsOrdered does rounds (record l { m_quit = false }) s in
      let (d, w) = due-push later task looped.m_delayed_tasks ordered in
      let taken =
        take_ready_lem later (push task looped.m_delayed_tasks)
          (push-IsSorted task looped.m_delayed_tasks ordered) in
      (ordered, ground (arith, d, w, taken))
