-- ===== src/Tests/Loop.antt =====
-- Net/Eventloop.cpp at concrete inputs: a callback is a number; 1 queues 2, while
-- another thread queues 5, and 3 delays 1 by 5 units.
use turbo_core_dist_ai_clush.Prelude.{
  ℕ, ◌+◌, ◌*◌, ◌≡◌, refl, Bool, true, false, List, [], ◌∷◌, ◌++◌, map, leb, ◌==◌, if◌then◌else◌,
}
use turbo_core_dist_ai_clush.Net.Loop
use turbo_core_dist_ai_clush.Net.Loop.{
  DelayedTask, EventLoop, Request, queues, delays, new_loop, loop, loop_round, take_ready,
  run_after, push, expiry,
}
use turbo_core_dist_ai_clush.Net.Loop.Delayed.{
  IsSorted, IsOrdered, due, waiting, run_after-take_ready,
}
use turbo_core_dist_ai_clush.Net.Loop.Pending.{queued_all, ready, loop_round_lem}

abbrev does : ℕ → List (Bool × Request ℕ)
does n =
    if n == 1
    then (true, queues 2) ∷ (false, queues 5) ∷ []
    else if n == 3
    then (true, delays 5 1) ∷ []
    else []

abbrev busy_loop : EventLoop ℕ
busy_loop = record new_loop { m_pending_functors = 1 ∷ 4 ∷ [] }

loop_round_run : (loop_round does 0 (3 ∷ []) busy_loop).ran ≡ 3 ∷ 1 ∷ 4 ∷ []
unfolding loop_round Loop.call_all Loop.call Loop.perform_all Loop.perform Loop.run_after
    Loop.queue_in_loop Loop.push Loop.do_pending_functors Loop.process_delayed_tasks take_ready
loop_round_run = refl

loop_round_lem_example :
    let run = busy_loop.m_pending_functors ++ queued_all does 0 (3 ∷ []) in
    let taken = ready does 0 (3 ∷ []) busy_loop in
    ((loop_round does 0 (3 ∷ []) busy_loop).ran ≡ ((busy_loop.ran ++ (3 ∷ [])) ++ run) ++ taken)
    × ((loop_round does 0 (3 ∷ []) busy_loop).m_pending_functors
        ≡ queued_all does 0 run ++ queued_all does 0 taken)
loop_round_lem_example = loop_round_lem does 0 (3 ∷ []) busy_loop

new_loop-IsOrdered : IsOrdered {T = ℕ} new_loop
unfolding IsSorted
new_loop-IsOrdered = tt

run_after-take_ready_example :
    let looped = loop does ((0, 3 ∷ []) ∷ []) new_loop in
    let task : DelayedTask ℕ = record { expire_time = expiry 7 2; cb = 6 } in
    let early = due 3000000000 looped.m_delayed_tasks in
    let late = waiting 3000000000 looped.m_delayed_tasks in
    IsOrdered looped
    × (take_ready 3000000000 (run_after 7 true 2 6 looped).m_delayed_tasks ≡ (
        if leb (7 + 2 * 1000 * 1000000) 3000000000
        then (map (λ t. t.cb) (push task early), late)
        else (map (λ t. t.cb) early, push task late)))
run_after-take_ready_example =
    run_after-take_ready does ((0, 3 ∷ []) ∷ []) new_loop 7 3000000000 2 true 6 new_loop-IsOrdered
