-- ===== src/JobManager.antt =====
-- `JobManager` of AiDist/7 JobManager.h and AiDist/7.  JobManager.cpp. The mutex makes each call one
-- step; a map is an association list whose order stands for the iteration order.
pub mod Calls
pub mod Progress
pub mod Results
use text.Mathlib.Text.{◌==◌ as str_eq}
use turbo_core_dist_ai_clush.Prelude.{
  ℕ, ◌+◌, ◌-◌, ◌^◌, Bool, true, false, not, ◌&&◌, ◌||◌, List, [], ◌∷◌, ◌++◌, String, Option, none,
  some, ltb, leb, if◌then◌else◌, length, drop, last_n,
}
use turbo_core_dist_ai_clush.Prelude.Int.{ℤ, pos, negsuc}
use turbo_core_dist_ai_clush.Prelude.Dict.{StringMap, find, has, assign, erase}
use turbo_core_dist_ai_clush.JobInfo.{
  JobInfo, JobResult, JobDefineStatus, enabled, disabled, new_job_info,
}

pub record JobManager : Type 0 where
  pub m_jobs : StringMap JobInfo
  pub m_job_results : StringMap (List JobResult)
  pub m_job_progress : StringMap (ℤ × ℤ)

abbrev pub new_job_manager : JobManager
new_job_manager = record { m_jobs = []; m_job_results = []; m_job_progress = [] }

-- The progress is set to 0 for a job that was not there.
unfoldable pub add_or_update_job : JobManager → JobInfo → JobManager
add_or_update_job m job_info =
    let is_update = has m.m_jobs job_info.job_id in
    record m {
      m_jobs = assign m.m_jobs job_info.job_id job_info;
      m_job_progress =
          if is_update
          then m.m_job_progress
          else assign m.m_job_progress job_info.job_id (pos 0, pos 0);
    }

unfoldable pub remove_job : JobManager → String → JobManager
remove_job m job_id = record {
  m_jobs = erase m.m_jobs job_id;
  m_job_results = erase m.m_job_results job_id;
  m_job_progress = erase m.m_job_progress job_id;
}

abbrev pub value_or {ℓ} : {A : Type ℓ} → A → Option A → A
value_or d none = d
value_or d (some a) = a

-- A job that is not there gives an empty `JobInfo`.
unfoldable pub get_job : JobManager → String → JobInfo
get_job m job_id = value_or new_job_info (find m.m_jobs job_id)

abbrev pub is_enabled : JobDefineStatus → Bool
is_enabled disabled = false
is_enabled enabled = true

unfoldable pub enabled_jobs : StringMap JobInfo → List JobInfo
enabled_jobs [] = []
enabled_jobs ((job_id, job) ∷ rest) =
    if is_enabled job.status then job ∷ enabled_jobs rest else enabled_jobs rest

unfoldable pub get_all_enable_jobs : JobManager → List JobInfo
unfolding enabled_jobs
get_all_enable_jobs m = enabled_jobs m.m_jobs

abbrev pub max_results_per_job : ℕ
max_results_per_job = 1000

-- The oldest results go where there are more than the limit.
unfoldable pub push_result : List JobResult → JobResult → List JobResult
push_result results job_result =
    let longer = results ++ job_result ∷ [] in
    if ltb max_results_per_job (length longer)
    then drop (length longer - max_results_per_job) longer
    else longer

unfoldable pub save_job_result : JobManager → JobResult → JobManager
unfolding push_result
save_job_result m job_result = record m {
  m_job_results =
      assign m.m_job_results job_result.job_id
        (push_result (value_or [] (find m.m_job_results job_result.job_id)) job_result);
}

-- `(size_t)max_count`
abbrev pub size_of_int : ℤ → ℕ
size_of_int (pos n) = n
size_of_int (negsuc n) = 2 ^ 64 - 1 - n

-- `max_count <= 0`
abbrev pub not_positive : ℤ → Bool
not_positive (pos n) = leb n 0
not_positive (negsuc n) = true

abbrev pub newest : ℤ → List JobResult → List JobResult
newest max_count all_results =
    if leb (length all_results) (size_of_int max_count) || not_positive max_count
    then all_results
    else last_n (size_of_int max_count) all_results

unfoldable pub get_job_results : JobManager → String → ℤ → List JobResult
get_job_results m job_id max_count = value_or [] (elim (find m.m_job_results job_id) [
  | none ↦ none
  | some all_results ↦ some (newest max_count all_results)
])

unfoldable pub update_task_progress : JobManager → String → ℤ → ℤ → JobManager
update_task_progress m job_id finished_slices total_slices =
    if not (has m.m_jobs job_id) then m else record m {
      m_job_progress = assign m.m_job_progress job_id (finished_slices, total_slices);
    }

unfoldable pub get_task_progress : JobManager → String → ℤ × ℤ
get_task_progress m job_id = value_or (pos 0, pos 0) (find m.m_job_progress job_id)

-- The results of one job that the node reported and that are no success.
unfoldable pub failed_slices : String → String → List JobResult → List (String × ℤ)
failed_slices job_id node_id [] = []
failed_slices job_id node_id (item ∷ items) =
    if str_eq item.node_id node_id && not item.success
    then (job_id, item.slice_id) ∷ failed_slices job_id node_id items
    else failed_slices job_id node_id items

unfoldable pub failed_slices_of_all : String → StringMap (List JobResult) → List (String × ℤ)
unfolding failed_slices
failed_slices_of_all node_id [] = []
failed_slices_of_all node_id ((job_id, results) ∷ rest) =
    failed_slices job_id node_id results ++ failed_slices_of_all node_id rest

unfoldable pub get_unfinished_slices_for_node : JobManager → String → List (String × ℤ)
unfolding failed_slices_of_all
get_unfinished_slices_for_node m node_id = failed_slices_of_all node_id m.m_job_results
