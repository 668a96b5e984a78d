-- ===== src/Worker/Timing.antt =====
-- The timers of a worker node, whose delays are in thousandths of the unit that `RunAfter` takes.
use turbo_core_dist_ai_clush.Prelude.{ℕ, true, List, [], ◌∷◌}
use turbo_core_dist_ai_clush.Net.Loop.{EventLoop, run_after}
use turbo_core_dist_ai_clush.Worker.{Timer, Action, sends, connects, disconnects, delays, reports}

-- The timers that actions start, in the loop's thread.
unfoldable pub start_timers : ℕ → List Action → EventLoop Timer → EventLoop Timer
start_timers now [] l = l
start_timers now (delays seconds timer ∷ actions) l =
    start_timers now actions (run_after now true seconds timer l)
start_timers now (sends bytes len ∷ actions) l = start_timers now actions l
start_timers now (connects ∷ actions) l = start_timers now actions l
start_timers now (disconnects ∷ actions) l = start_timers now actions l
start_timers now (reports ip port calls ∷ actions) l = start_timers now actions l
