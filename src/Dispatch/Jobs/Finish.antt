-- ===== src/Dispatch/Jobs/Finish.antt =====
-- `record_finish` and `record_pid` of src/forgemaster/dispatch/jobs.py on a job that has ended.
use forgemaster.Prelude.{
  ℕ, String, ◌≡◌, refl, Bool, false, Option, none, some, List, [], ◌∷◌, arith, any, update,
}
use forgemaster.Dispatch.Jobs.{
  Job, JobStatus, is_running, in_flight, Parsed, finished, record_finish, record_pid,
}

pub update_absent :
    {A : Type 0} (p : A → Bool) (f : A → A) (xs : List A) → any p xs ≡ false → update p f xs ≡ xs
unfolding update
update_absent p f [] h = refl
update_absent p f (x ∷ xs) h = ground (arith, update_absent p f xs)

pub any_closed :
    {A : Type 0} (p : A → Bool) (f : A → A) (xs : List A)
    → ((x : A) → p (f x) ≡ false)
    → any p (update p f xs) ≡ false
unfolding update
any_closed p f [] k = refl
any_closed p f (x ∷ xs) k = ground (arith, k x, any_closed p f xs k)

-- A status given for the end of a job is one of an ended job.
abbrev pub EndsJob : Option JobStatus → Type 0
EndsJob none = Unit
EndsJob (some s) = is_running s ≡ false

pub ended :
    (now : String) (status : Option JobStatus) (parsed : Parsed) (wall : Option ℕ) (j : Job)
    → EndsJob status
    → is_running (finished now status parsed wall j).status ≡ false
ended now none parsed wall j h = ground arith
ended now (some s) parsed wall j h = h

-- After `record_finish` the job is not running, so that no later `record_finish` or `record_pid`
-- writes to it: what an abort or a reconciliation has recorded stays.
pub record_finish_once :
    (now later job_id : String) (parsed parsed' : Parsed) (wall wall' : Option ℕ)
    (status status' : Option JobStatus) (pid : ℕ) (jobs : List Job)
    → EndsJob status
    → (record_finish later job_id parsed' wall' status'
          (record_finish now job_id parsed wall status jobs)
        ≡ record_finish now job_id parsed wall status jobs)
      × (record_pid job_id pid (record_finish now job_id parsed wall status jobs)
          ≡ record_finish now job_id parsed wall status jobs)
unfolding record_finish record_pid
record_finish_once now later job_id parsed parsed' wall wall' status status' pid jobs h =
    let closed =
      any_closed (in_flight job_id) (finished now status parsed wall) jobs
        (λ j. ground (arith, ended now status parsed wall j h)) in
    (
      update_absent (in_flight job_id) (finished later status' parsed' wall')
          (update (in_flight job_id) (finished now status parsed wall) jobs) closed,
      update_absent (in_flight job_id) (λ j. record j { pid = some pid })
          (update (in_flight job_id) (finished now status parsed wall) jobs) closed,
    )
