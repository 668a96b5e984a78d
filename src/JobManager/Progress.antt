-- ===== src/JobManager/Progress.antt =====
-- Jobs and their progress.
use text.Mathlib.Text.{◌==◌ as str_eq}
use text.Mathlib.TextEquality.{eq_iff}
use turbo_core_dist_ai_clush.Prelude.{◌≡◌, refl, List, [], ◌∷◌, String, arith, if◌then◌else◌}
use turbo_core_dist_ai_clush.Prelude.Int.{ℤ, pos}
use turbo_core_dist_ai_clush.Prelude.Dict.{has, has-assign, has-erase, find-assign, find-erase}
use turbo_core_dist_ai_clush.JobInfo.{JobInfo, new_job_info}
use turbo_core_dist_ai_clush.JobManager.{
  JobManager, new_job_manager, add_or_update_job, remove_job, save_job_result, update_task_progress,
  get_job, get_task_progress, get_job_results,
}
use turbo_core_dist_ai_clush.JobManager.Calls.{
  JobCall, adds_or_updates, removes, saves, updates_progress, step, run,
}

-- The jobs that have a progress are the jobs that there are.
abbrev pub SameKeys : JobManager → Type 0
SameKeys m = (key : String) → has m.m_job_progress key ≡ has m.m_jobs key

step-SameKeys : (m : JobManager) (call : JobCall) → SameKeys m → SameKeys (step m call)
unfolding step add_or_update_job remove_job save_job_result update_task_progress
step-SameKeys m (adds_or_updates job) v key = ground (
  arith,
  v key,
  v job.job_id,
  eq_iff job.job_id key,
  has-assign m.m_jobs job.job_id job key,
  has-assign m.m_job_progress job.job_id (pos 0, pos 0) key,
)
step-SameKeys m (removes job_id) v key =
    ground (arith, v key, has-erase m.m_jobs job_id key, has-erase m.m_job_progress job_id key)
step-SameKeys m (saves job_result) v key = v key
step-SameKeys m (updates_progress job_id finished total) v key = ground (
  arith,
  v key,
  v job_id,
  eq_iff job_id key,
  has-assign m.m_job_progress job_id (finished, total) key,
)

run-SameKeys : (m : JobManager) (calls : List JobCall) → SameKeys m → SameKeys (run m calls)
unfolding run
run-SameKeys m [] v = v
run-SameKeys m (call ∷ calls) v = run-SameKeys (step m call) calls (step-SameKeys m call v)

-- After any sequence of calls on a new manager, exactly the jobs that are defined have an entry in
-- the progress table.
pub run-new-SameKeys :
    (calls : List JobCall) (key : String)
    → has (run new_job_manager calls).m_job_progress key
      ≡ has (run new_job_manager calls).m_jobs key
unfolding has
run-new-SameKeys calls = run-SameKeys new_job_manager calls (λ key. refl)

-- What `AddOrUpdateJob` stores is what `GetJob` finds; other jobs keep their definitions, a job
-- that was there keeps its progress, a new one starts at 0, and no other progress changes.
pub add_or_update_job_lem :
    (m : JobManager) (job : JobInfo) (other : String)
    → (get_job (add_or_update_job m job) other
        ≡ (if str_eq job.job_id other then job else get_job m other))
      × (get_task_progress (add_or_update_job m job) other ≡ (
          if str_eq job.job_id other
          then (if has m.m_jobs other then get_task_progress m other else (pos 0, pos 0))
          else get_task_progress m other))
unfolding add_or_update_job get_job get_task_progress
add_or_update_job_lem m job other = (
  ground (arith, find-assign m.m_jobs job.job_id job other),
  ground (
    arith,
    eq_iff job.job_id other,
    find-assign m.m_job_progress job.job_id (pos 0, pos 0) other,
  ),
)

-- `UpdateTaskProgress` of a job that is defined is what `GetTaskProgress` returns for it and
-- changes no other; of a job that is not defined it changes nothing.
pub update_task_progress_lem :
    (m : JobManager) (job_id : String) (finished total : ℤ) (other : String)
    → get_task_progress (update_task_progress m job_id finished total) other ≡ (
        if has m.m_jobs job_id
        then (if str_eq job_id other then (finished, total) else get_task_progress m other)
        else get_task_progress m other)
unfolding update_task_progress get_task_progress
update_task_progress_lem m job_id finished total other =
    ground (arith, find-assign m.m_job_progress job_id (finished, total) other)

-- After `RemoveJob` nothing is left of the job, neither definition nor progress nor results, and
-- every other job has all that it had.
pub remove_job_lem :
    (m : JobManager) (job_id other : String) (max_count : ℤ)
    → (get_job (remove_job m job_id) other
        ≡ (if str_eq job_id other then new_job_info else get_job m other))
      × (get_task_progress (remove_job m job_id) other
          ≡ (if str_eq job_id other then (pos 0, pos 0) else get_task_progress m other))
      × (get_job_results (remove_job m job_id) other max_count
          ≡ (if str_eq job_id other then [] else get_job_results m other max_count))
unfolding remove_job get_job get_task_progress get_job_results
remove_job_lem m job_id other max_count = (
  ground (arith, find-erase m.m_jobs job_id other),
  ground (arith, find-erase m.m_job_progress job_id other),
  ground (arith, find-erase m.m_job_results job_id other),
)
