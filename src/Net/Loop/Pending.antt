-- ===== src/Net/Loop/Pending.antt =====
-- The queue of functors: `QueueInLoop`, `DoPendingFunctors`, and a round of `Loop`.
use turbo_core_dist_ai_clush.Prelude.{
  ℕ, ◌+◌, ◌≤◌, ◌<◌, ◌≡◌, refl, ap, ◌∙◌, sym, ap₂, true, List, [], ◌∷◌, ◌++◌, arith, length,
  append-nil, append_assoc, length-append, subst, Bool,
}
use turbo_core_dist_ai_clush.Net.Loop.{
  EventLoop, Request, queues, delays, quits, queue_in_loop, run_after, quit, perform, perform_all,
  take_ready, call, call_all, do_pending_functors, process_delayed_tasks, loop_round,
}

module _ {T : Type 0} where
  -- The callbacks that requests queue.
  unfoldable pub queued : List (Bool × Request T) → List T
  queued [] = []
  queued ((in_loop, queues cb) ∷ rs) = cb ∷ queued rs
  queued ((in_loop, delays seconds cb) ∷ rs) = queued rs
  queued ((in_loop, quits) ∷ rs) = queued rs

  -- What a stretch of the loop's work does: it runs `new` and queues `more`.
  record Extends (l l' : EventLoop T) (new more : List T) : Type 0 where
    runs : l'.ran ≡ l.ran ++ new
    same_calling : l'.m_calling_pending_functors ≡ l.m_calling_pending_functors
    appends : l'.m_pending_functors ≡ l.m_pending_functors ++ more
    -- Where functors are being run, each that is queued writes a wakeup.
    wakes : l.m_calling_pending_functors ≡ true → l.wakeup_count + length more ≤ l'.wakeup_count

  none-Extends : (l : EventLoop T) → Extends l l [] []
  none-Extends l = record {
    runs = sym (append-nil l.ran);
    same_calling = refl;
    appends = sym (append-nil l.m_pending_functors);
    wakes = λ h. omega arith;
  }

  then-Extends :
      {l l₁ l₂ : EventLoop T} {new more new' more' : List T}
      → Extends l l₁ new more
      → Extends l₁ l₂ new' more'
      → Extends l l₂ (new ++ new') (more ++ more')
  then-Extends {l} {new = new} {more} {new'} {more'} p q = record {
    runs = q.runs ∙ ap (λ x. x ++ new') p.runs ∙ append_assoc l.ran new new';
    same_calling = q.same_calling ∙ p.same_calling;
    appends =
        q.appends ∙ ap (λ x. x ++ more') p.appends ∙ append_assoc l.m_pending_functors more more';
    wakes = λ h. omega (arith, p.wakes h, q.wakes (p.same_calling ∙ h), length-append more more');
  }

  perform-Extends :
      (now : ℕ) (l : EventLoop T) (r : Bool × Request T)
      → Extends l (perform now l r) [] (queued (r ∷ []))
  unfolding perform queue_in_loop run_after quit queued
  perform-Extends now l (in_loop, queues cb) = record {
    runs = ground (arith, append-nil l.ran);
    same_calling = ground arith;
    appends = ground arith;
    wakes = ground arith;
  }
  perform-Extends now l (in_loop, delays seconds cb) = record {
    runs = ground (arith, append-nil l.ran);
    same_calling = ground arith;
    appends = ground (arith, append-nil l.m_pending_functors);
    wakes = ground arith;
  }
  perform-Extends now l (in_loop, quits) = record {
    runs = ground (arith, append-nil l.ran);
    same_calling = ground arith;
    appends = ground (arith, append-nil l.m_pending_functors);
    wakes = ground arith;
  }

  queued-cons :
      (r : Bool × Request T) (rs : List (Bool × Request T))
      → queued (r ∷ rs) ≡ queued (r ∷ []) ++ queued rs
  unfolding queued
  queued-cons (in_loop, queues cb) rs = refl
  queued-cons (in_loop, delays seconds cb) rs = refl
  queued-cons (in_loop, quits) rs = refl

  perform_all-Extends :
      (now : ℕ) (rs : List (Bool × Request T)) (l : EventLoop T)
      → Extends l (perform_all now l rs) [] (queued rs)
  unfolding perform_all queued
  perform_all-Extends now [] l = none-Extends l
  perform_all-Extends now (r ∷ rs) l =
      subst (Extends l (perform_all now (perform now l r) rs) []) (sym (queued-cons r rs))
        (then-Extends (perform-Extends now l r) (perform_all-Extends now rs (perform now l r)))

  module _ (does : T → List (Bool × Request T)) (now : ℕ) where
    unfoldable pub queued_all : List T → List T
    queued_all [] = []
    queued_all (cb ∷ cbs) = queued (does cb) ++ queued_all cbs

    call-Extends :
        (cb : T) (l : EventLoop T) → Extends l (call does now cb l) (cb ∷ []) (queued (does cb))
    unfolding call
    call-Extends cb l =
        then-Extends
          (record {
            runs = refl;
            same_calling = refl;
            appends = sym (append-nil l.m_pending_functors);
            wakes = λ h. omega arith;
          })
          (perform_all-Extends now (does cb) (record l { ran = l.ran ++ (cb ∷ []) }))

    call_all-Extends :
        (cbs : List T) (l : EventLoop T) → Extends l (call_all does now cbs l) cbs (queued_all cbs)
    unfolding call_all queued_all
    call_all-Extends [] l = none-Extends l
    call_all-Extends (cb ∷ cbs) l =
        then-Extends (call-Extends cb l) (call_all-Extends cbs (call does now cb l))

  module _ (does : T → List (Bool × Request T)) (now : ℕ) (l : EventLoop T) where
    -- `DoPendingFunctors` runs exactly the functors that were queued when it began, in order. Those
    -- that they queue stay, in order, for the next round, and then a wakeup is written.
    pub do_pending_functors_lem :
        ((do_pending_functors does now l).ran ≡ l.ran ++ l.m_pending_functors)
        × ((do_pending_functors does now l).m_pending_functors
            ≡ queued_all does now l.m_pending_functors)
        × (0 < length (do_pending_functors does now l).m_pending_functors
            → l.wakeup_count < (do_pending_functors does now l).wakeup_count)
    unfolding do_pending_functors
    do_pending_functors_lem =
        let all =
          call_all-Extends does now l.m_pending_functors
            (record l { m_calling_pending_functors = true; m_pending_functors = [] }) in
        (all.runs, all.appends, λ h. omega (arith, h, all.wakes refl, ap length all.appends))

  module _ (does : T → List (Bool × Request T)) (now : ℕ) (handlers : List T)
      (l : EventLoop T) where
    abbrev handled : EventLoop T
    handled = call_all does now handlers l

    abbrev emptied : EventLoop T
    emptied = do_pending_functors does now handled

    -- The callbacks of the delayed tasks that a round runs.
    abbrev pub ready : List T
    ready = (take_ready now emptied.m_delayed_tasks).0

    -- A round of `Loop` runs the handlers, then every functor that was queued before it or while the
    -- handlers ran, then the delayed tasks that are taken out, each in order and once. What is queued
    -- after it is exactly what was queued while these functors and tasks ran, in order. While a
    -- callback runs, until the next one starts, it and any other thread may queue functors.
    pub loop_round_lem :
        let run = l.m_pending_functors ++ queued_all does now handlers in
        ((loop_round does now handlers l).ran ≡ ((l.ran ++ handlers) ++ run) ++ ready)
        × ((loop_round does now handlers l).m_pending_functors
            ≡ queued_all does now run ++ queued_all does now ready)
    unfolding loop_round process_delayed_tasks
    loop_round_lem =
        let first = call_all-Extends does now handlers l in
        let (second, left, woken) = do_pending_functors_lem does now handled in
        let third =
          call_all-Extends does now ready
            (record emptied { m_delayed_tasks = (take_ready now emptied.m_delayed_tasks).1 }) in
        (
          third.runs ∙ ap (λ x. x ++ ready) (second ∙ ap₂ ◌++◌ first.runs first.appends),
          third.appends
              ∙ ap (λ x. x ++ queued_all does now ready)
                  (left ∙ ap (queued_all does now) first.appends),
        )
