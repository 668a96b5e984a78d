-- ===== src/JobManager/Results.antt =====
-- The results of a job against the full history of what was saved for it.
use text.Mathlib.Text.{◌==◌ as str_eq}
use text.Mathlib.TextEquality.{eq_iff}
use turbo_core_dist_ai_clush.Prelude.{
  ap, sym, ℕ, zero, suc, ◌≤◌, ◌≡◌, refl, true, false, List, [], ◌∷◌, ◌++◌, String, arith,
  if◌then◌else◌, ◌∙◌, length, ltb, leb, drop, last_n, last_n-last_n_append, last_n-last_n,
  Bool-cases, inl, inr, ◌-◌,
}
use turbo_core_dist_ai_clush.Prelude.Int.{ℤ, pos, negsuc}
use turbo_core_dist_ai_clush.Prelude.Dict.{find, find-assign, find-erase}
use turbo_core_dist_ai_clush.JobInfo.{JobResult}
use turbo_core_dist_ai_clush.JobManager.{
  JobManager, new_job_manager, add_or_update_job, remove_job, save_job_result, update_task_progress,
  get_job_results, value_or, push_result, max_results_per_job, newest,
}
use turbo_core_dist_ai_clush.JobManager.Calls.{
  JobCall, adds_or_updates, removes, saves, updates_progress, step, run,
}

abbrev pub stored : JobManager → String → List JobResult
stored m job_id = value_or [] (find m.m_job_results job_id)

-- All that was saved for a job since it was last removed, oldest first.
abbrev pub logged : String → List JobResult → JobCall → List JobResult
logged job_id log (saves r) = if str_eq r.job_id job_id then log ++ r ∷ [] else log
logged job_id log (removes j) = if str_eq j job_id then [] else log
logged job_id log (adds_or_updates job) = log
logged job_id log (updates_progress j finished total) = log

unfoldable pub history : String → List JobResult → List JobCall → List JobResult
history job_id log [] = log
history job_id log (call ∷ calls) = history job_id (logged job_id log call) calls

no_excess : (n l : ℕ) → ltb n l ≡ false → l - n ≡ 0
no_excess n l h = ground arith

no_excess_of_leb : (l n : ℕ) → leb l n ≡ true → l - n ≡ 0
no_excess_of_leb l n h = ground arith

-- The guard of `SaveJobResult` only avoids a removal of nothing.
guarded-last_n :
    (n : ℕ) (results : List JobResult)
    → (if ltb n (length results) then drop (length results - n) results else results)
      ≡ last_n n results
guarded-last_n n results = elim (Bool-cases (ltb n (length results))) [
  | inl long ↦ rw long
  | inr short ↦ rw (short, no_excess n (length results) short)
]

push_result-last_n :
    (log : List JobResult) (r : JobResult)
    → push_result (last_n max_results_per_job log) r ≡ last_n max_results_per_job (log ++ r ∷ [])
unfolding push_result
push_result-last_n log r =
    guarded-last_n max_results_per_job (last_n max_results_per_job log ++ r ∷ [])
    ∙ last_n-last_n_append max_results_per_job log r

step-stored :
    (m : JobManager) (job_id : String) (log : List JobResult) (call : JobCall)
    → stored m job_id ≡ last_n max_results_per_job log
    → stored (step m call) job_id ≡ last_n max_results_per_job (logged job_id log call)
unfolding step save_job_result remove_job add_or_update_job update_task_progress
step-stored m job_id log (adds_or_updates job) e = e
step-stored m job_id log (removes j) e = ground (arith, find-erase m.m_job_results j job_id)
step-stored m job_id log (saves r) e = ground (
  arith,
  eq_iff r.job_id job_id,
  push_result-last_n log r,
  find-assign m.m_job_results r.job_id (push_result (value_or [] (find m.m_job_results r.job_id)) r)
      job_id,
)
step-stored m job_id log (updates_progress j finished total) e = ground arith

run-stored :
    (m : JobManager) (job_id : String) (log : List JobResult) (calls : List JobCall)
    → stored m job_id ≡ last_n max_results_per_job log
    → stored (run m calls) job_id ≡ last_n max_results_per_job (history job_id log calls)
unfolding run history
run-stored m job_id log [] e = e
run-stored m job_id log (call ∷ calls) e =
    run-stored (step m call) job_id (logged job_id log call) calls (step-stored m job_id log call e)

get_job_results-stored :
    (m : JobManager) (job_id : String) (max_count : ℤ)
    → get_job_results m job_id max_count ≡ newest max_count (stored m job_id)
unfolding get_job_results
get_job_results-stored m job_id max_count = ground arith

newest-negsuc : (n : ℕ) (results : List JobResult) → newest (negsuc n) results ≡ results
newest-negsuc n results = ground arith

suc_not_leb : (n : ℕ) → leb (suc n) 0 ≡ false
suc_not_leb n = ground arith

newest-pos :
    (results : List JobResult) (n : ℕ)
    → newest (pos n) results ≡ (if leb n 0 then results else last_n n results)
newest-pos results zero = ground arith
newest-pos results (suc n) = elim (Bool-cases (leb (length results) (suc n))) [
  | inl fits ↦
      rw (fits, suc_not_leb n)
        (ap (λ k. drop k results) (sym (no_excess_of_leb (length results) (suc n) fits)))
  | inr longer ↦ rw longer
]

newest-last_n :
    (log : List JobResult) (n : ℕ)
    → n ≤ max_results_per_job
    → {results : List JobResult} → results ≡ last_n max_results_per_job log
    → newest (pos n) results ≡ last_n (if leb n 0 then max_results_per_job else n) log
newest-last_n log n h {results} e = newest-pos results n ∙ (elim (Bool-cases (leb n 0)) [
  | inl none_positive ↦ rw (none_positive, e)
  | inr positive ↦ rw (positive, e, last_n-last_n n max_results_per_job log h)
])

-- After any calls on a new manager, `GetJobResults` with a limit of 1 to 1000 returns exactly the
-- newest results, up to the limit and in the order in which they were saved, of all that was saved
-- for the job since it was last removed; with a limit of 0 or below it returns the newest 1000.
pub get_job_results-history :
    (calls : List JobCall) (job_id : String) (n : ℕ)
    → n ≤ max_results_per_job
    → (get_job_results (run new_job_manager calls) job_id (pos n)
        ≡ last_n (if leb n 0 then max_results_per_job else n) (history job_id [] calls))
      × (get_job_results (run new_job_manager calls) job_id (negsuc n)
          ≡ last_n max_results_per_job (history job_id [] calls))
unfolding find
get_job_results-history calls job_id n h = (
  get_job_results-stored (run new_job_manager calls) job_id (pos n)
      ∙ newest-last_n (history job_id [] calls) n h
          (run-stored new_job_manager job_id [] calls refl),
  get_job_results-stored (run new_job_manager calls) job_id (negsuc n)
      ∙ newest-negsuc n (stored (run new_job_manager calls) job_id)
      ∙ run-stored new_job_manager job_id [] calls refl,
)
