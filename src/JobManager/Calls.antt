-- ===== src/JobManager/Calls.antt =====
-- Sequences of calls of a `JobManager`, in the order in which its mutex lets them through.
use turbo_core_dist_ai_clush.Prelude.{List, [], ◌∷◌, String}
use turbo_core_dist_ai_clush.Prelude.Int.{ℤ}
use turbo_core_dist_ai_clush.JobInfo.{JobInfo, JobResult}
use turbo_core_dist_ai_clush.JobManager.{
  JobManager, add_or_update_job, remove_job, save_job_result, update_task_progress,
}

-- The calls that change the state.
pub data JobCall : Type 0 where
  adds_or_updates : JobInfo → JobCall
  removes : String → JobCall
  saves : JobResult → JobCall
  updates_progress : String → ℤ → ℤ → JobCall

unfoldable pub step : JobManager → JobCall → JobManager
step m (adds_or_updates job) = add_or_update_job m job
step m (removes job_id) = remove_job m job_id
step m (saves job_result) = save_job_result m job_result
step m (updates_progress job_id finished total) = update_task_progress m job_id finished total

unfoldable pub run : JobManager → List JobCall → JobManager
run m [] = m
run m (call ∷ calls) = run (step m call) calls
