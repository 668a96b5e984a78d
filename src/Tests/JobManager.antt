-- ===== src/Tests/JobManager.antt =====
-- AiDist/7.  JobManager.cpp at concrete inputs.
use turbo_core_dist_ai_clush.Prelude.{◌≡◌, refl, Bool, true, false, List, [], ◌∷◌, arith}
use turbo_core_dist_ai_clush.Prelude.Int.{ℤ, pos, negsuc}
use turbo_core_dist_ai_clush.Prelude.Dict.{has, find, assign}
use turbo_core_dist_ai_clush.JobInfo.{JobInfo, JobResult, new_job_info}
use turbo_core_dist_ai_clush.JobManager.{
  new_job_manager, add_or_update_job, save_job_result, get_job_results, push_result,
  get_unfinished_slices_for_node, failed_slices_of_all, failed_slices,
}
use turbo_core_dist_ai_clush.JobManager.Calls.{JobCall, adds_or_updates, saves, run, step}
use turbo_core_dist_ai_clush.JobManager.Results.{history, get_job_results-history}

abbrev job_a : JobInfo
job_a = record new_job_info { job_id = "a" }

abbrev result_of : ℤ → Bool → JobResult
result_of slice_id success = record {
  result_id = "r";
  job_id = "a";
  slice_id = slice_id;
  node_id = "n1";
  success = success;
  output = "";
  exit_code = pos 0;
  retry_count = pos 0;
  cost_ms = pos 5;
  execute_time = pos 0;
}

-- The first slice fails and is done again with success.
abbrev calls : List JobCall
calls =
    adds_or_updates job_a
    ∷ saves (result_of (pos 1) false)
    ∷ saves (result_of (pos 2) true)
    ∷ saves (result_of (pos 1) true)
    ∷ []

-- The slice that was done again is still reported as unfinished.
unfinished_run : get_unfinished_slices_for_node (run new_job_manager calls) "n1" ≡ ("a", pos 1) ∷ []
unfolding get_unfinished_slices_for_node failed_slices_of_all failed_slices run step
    add_or_update_job save_job_result push_result has find assign
unfinished_run = refl

get_job_results-history_example :
    (get_job_results (run new_job_manager calls) "a" (pos 2)
      ≡ result_of (pos 2) true ∷ result_of (pos 1) true ∷ [])
    × (get_job_results (run new_job_manager calls) "a" (negsuc 2)
        ≡ result_of (pos 1) false ∷ result_of (pos 2) true ∷ result_of (pos 1) true ∷ [])
unfolding history
get_job_results-history_example = get_job_results-history calls "a" 2 (omega arith)
