-- ===== src/Worker/Records.antt =====
-- The job store as a map from ids to records.
use zero_shield.Base.{String, ◌≡◌, refl, some, List, [], ◌∷◌, arith, if◌then◌else◌, str_eq, eq_iff}
use zero_shield.Base.Effects.{ok}
use zero_shield.JobStore.{JobRecord, JobFile, find_job, put_job}

module _ {F : Type 0} where
  -- A saved record is loaded under its id, and every other id is loaded as before.
  pub find_job-put_job :
      (id : String) (r : JobRecord F) (files : List (JobFile F))
      → find_job id (put_job r files)
        ≡ (if str_eq r.job_id id then ok (some r) else find_job id files)
  unfolding find_job put_job
  find_job-put_job id r [] = refl
  find_job-put_job id r (q ∷ qs) = ground (
    arith,
    eq_iff r.job_id id,
    eq_iff q.job_id r.job_id,
    eq_iff q.job_id id,
    find_job-put_job id r qs,
  )
