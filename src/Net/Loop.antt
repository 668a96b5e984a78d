-- ===== src/Net/Loop.antt =====
-- `EventLoop` of Net/Eventloop.h and Net/Eventloop.cpp. A callback is a value of a type of the
-- caller's, which stands for one call of it; what it and the other threads ask of the loop in the
-- meantime is a list of calls. Times are nanoseconds of the steady clock.
pub mod Pending
pub mod Delayed
use turbo_core_dist_ai_clush.Prelude.{
  ℕ, ◌+◌, ◌*◌, Bool, true, false, not, ◌||◌, List, [], ◌∷◌, ◌++◌, leb, ltb, if◌then◌else◌, map,
}

-- `DelayedTask`, without `seconds`, which only the log reads.
pub record DelayedTask (T : Type 0) : Type 0 where
  pub expire_time : ℕ
  pub cb : T

-- The poller is left out, and the wakeup descriptor is the count that its eventfd holds.
pub record EventLoop (T : Type 0) : Type 0 where
  pub m_quit : Bool
  pub m_calling_pending_functors : Bool
  pub m_pending_functors : List T
  pub m_delayed_tasks : List (DelayedTask T)
  pub wakeup_count : ℕ
  -- The callbacks that ran, in order.
  pub ran : List T

-- What is asked of the loop.
pub data Request (T : Type 0) : Type 0 where
  queues : T → Request T
  delays : ℕ → T → Request T
  quits : Request T

-- `now + milliseconds(delay_seconds * 1000)`, for whole seconds
abbrev pub expiry : ℕ → ℕ → ℕ
expiry now delay_seconds = now + delay_seconds * 1000 * 1000000

module _ {T : Type 0} where
  abbrev pub new_loop : EventLoop T
  new_loop = record {
    m_quit = false;
    m_calling_pending_functors = false;
    m_pending_functors = [];
    m_delayed_tasks = [];
    wakeup_count = 0;
    ran = [];
  }

  abbrev pub wakeup : EventLoop T → EventLoop T
  wakeup l = record l { wakeup_count = l.wakeup_count + 1 }

  -- `read` of an eventfd takes the whole count; the next one would block.
  unfoldable pub handle_wakeup_read : EventLoop T → EventLoop T
  handle_wakeup_read l = record l { wakeup_count = 0 }

  -- `in_loop` is `IsInLoopThread()` of the caller.
  unfoldable pub quit : Bool → EventLoop T → EventLoop T
  quit in_loop l =
      if not in_loop then wakeup (record l { m_quit = true }) else record l { m_quit = true }

  abbrev pub must_wake : Bool → EventLoop T → Bool
  must_wake in_loop l = not in_loop || l.m_calling_pending_functors

  unfoldable pub queue_in_loop : Bool → T → EventLoop T → EventLoop T
  queue_in_loop in_loop cb l =
      let queued = record l { m_pending_functors = l.m_pending_functors ++ (cb ∷ []) } in
      if must_wake in_loop queued then wakeup queued else queued

  -- `push` of the priority queue: `top` is a task of the earliest expiry. Of tasks that expire
  -- together the order is not fixed; here they keep theirs.
  unfoldable pub push : DelayedTask T → List (DelayedTask T) → List (DelayedTask T)
  push t [] = t ∷ []
  push t (u ∷ us) = if leb u.expire_time t.expire_time then u ∷ push t us else t ∷ (u ∷ us)

  unfoldable pub run_after : ℕ → Bool → ℕ → T → EventLoop T → EventLoop T
  run_after now in_loop delay_seconds cb l =
      let task : DelayedTask T = record { expire_time = expiry now delay_seconds; cb = cb } in
      let pushed = record l { m_delayed_tasks = push task l.m_delayed_tasks } in
      if must_wake in_loop pushed then wakeup pushed else pushed

  -- `in_loop` tells whether the loop's thread asks, or another one.
  unfoldable pub perform : ℕ → EventLoop T → Bool × Request T → EventLoop T
  perform now l (in_loop, queues cb) = queue_in_loop in_loop cb l
  perform now l (in_loop, delays seconds cb) = run_after now in_loop seconds cb l
  perform now l (in_loop, quits) = quit in_loop l

  unfoldable pub perform_all : ℕ → EventLoop T → List (Bool × Request T) → EventLoop T
  perform_all now l [] = l
  perform_all now l (r ∷ rs) = perform_all now (perform now l r) rs

  -- `m_delayed_tasks.top()` as long as it has expired, and what the queue keeps.
  unfoldable pub take_ready : ℕ → List (DelayedTask T) → List T × List (DelayedTask T)
  take_ready now [] = ([], [])
  take_ready now (t ∷ ts) =
      let (ready, kept) = take_ready now ts in
      if leb t.expire_time now then (t.cb ∷ ready, kept) else ([], t ∷ ts)

  -- `does` tells what is asked of the loop from the time a callback starts until the next one does: by
  -- the callback, in the loop's thread, and by any other thread, in the order in which it comes.
  module _ (does : T → List (Bool × Request T)) where
    unfoldable pub call : ℕ → T → EventLoop T → EventLoop T
    call now cb l = perform_all now (record l { ran = l.ran ++ (cb ∷ []) }) (does cb)

    unfoldable pub call_all : ℕ → List T → EventLoop T → EventLoop T
    call_all now [] l = l
    call_all now (cb ∷ cbs) l = call_all now cbs (call now cb l)

    unfoldable pub run_in_loop : ℕ → Bool → T → EventLoop T → EventLoop T
    run_in_loop now in_loop cb l = if in_loop then call now cb l else queue_in_loop false cb l

    unfoldable pub do_pending_functors : ℕ → EventLoop T → EventLoop T
    do_pending_functors now l =
        let swapped = record l { m_calling_pending_functors = true; m_pending_functors = [] } in
        record (call_all now l.m_pending_functors swapped) { m_calling_pending_functors = false }

    unfoldable pub process_delayed_tasks : ℕ → EventLoop T → EventLoop T
    process_delayed_tasks now l =
        let (ready, kept) = take_ready now l.m_delayed_tasks in
        call_all now ready (record l { m_delayed_tasks = kept })

    -- A round of `Loop`: the handlers of the active channels, given as callbacks, come first.
    unfoldable pub loop_round : ℕ → List T → EventLoop T → EventLoop T
    loop_round now handlers l =
        process_delayed_tasks now (do_pending_functors now (call_all now handlers l))

    -- `Loop` behind its first assignment: the rounds, each with its time and handlers.
    unfoldable pub loop_rounds : List (ℕ × List T) → EventLoop T → EventLoop T
    loop_rounds [] l = l
    loop_rounds ((now, handlers) ∷ rounds) l =
        let rest = loop_rounds rounds (loop_round now handlers l) in
        if not l.m_quit then rest else l

    unfoldable pub loop : List (ℕ × List T) → EventLoop T → EventLoop T
    loop rounds l = loop_rounds rounds (record l { m_quit = false })
