-- ===== src/Reaper.antt =====
-- src/pipeline/ControllerReaper: the queue of the teardown jobs and its worker. A job is a number.
-- A step is one section under the mutex, or the run of one job.
pub mod Drain
use stream_multicast.Common.{
  ℕ, ◌≡◌, Bool, true, false, List, [], ◌∷◌, ◌++◌, Option, none, some, if◌then◌else◌,
}

-- Where the worker stands in worker_loop().
pub data Worker : Type 0 where
  waits exited : Worker
  runs_job : ℕ → Worker

-- The queue and the flag, the worker, the jobs that the callers run themselves, and the jobs that
-- were run by the worker and by the callers, in order.
pub record Reaper : Type 0 where
  pub queue : List ℕ
  pub shutting_down : Bool
  pub worker : Worker
  pub on_caller : List ℕ
  pub ran : List ℕ
  pub ran_on_caller : List ℕ

abbrev pub started : Reaper
started = record {
  queue = [];
  shutting_down = false;
  worker = waits;
  on_caller = [];
  ran = [];
  ran_on_caller = [];
}

-- `enqueue`: past shutdown() the caller runs the job.
unfoldable pub enqueue : ℕ → Reaper → Reaper
enqueue job r =
    if r.shutting_down
    then record r { on_caller = r.on_caller ++ (job ∷ []) }
    else record r { queue = r.queue ++ (job ∷ []) }

-- `shutdown` up to the join; a second call returns at once.
unfoldable pub shutdown : Reaper → Reaper
shutdown r = record r { shutting_down = true }

abbrev pub take_front : List ℕ → Reaper → Reaper
take_front [] r = if r.shutting_down then record r { worker = exited } else r
take_front (job ∷ rest) r = record r { queue = rest; worker = runs_job job }

-- The head of the loop of worker_loop(): the next job, the end, or the wait.
unfoldable pub take_job : Reaper → Reaper
take_job r = take_front r.queue r

-- A job returns or throws; the worker goes on in both cases.
abbrev pub job_ended : ℕ → Reaper → Reaper
job_ended job r = record r { worker = waits; ran = r.ran ++ (job ∷ []) }

-- The steps, with the job that is handed in.
pub data Step (r : Reaper) : List ℕ → Reaper → Type 0 where
  enqueues : (job : ℕ) → Step r (job ∷ []) (enqueue job r)
  shuts_down : Step r [] (shutdown r)
  takes : r.worker ≡ waits → Step r [] (take_job r)
  ends : (job : ℕ) → r.worker ≡ runs_job job → Step r [] (job_ended job r)
  caller_ends :
      (job : ℕ) {rest : List ℕ}
      → r.on_caller ≡ job ∷ rest
      → Step r [] (record r { on_caller = rest; ran_on_caller = r.ran_on_caller ++ (job ∷ []) })

-- The runs from the start, with the jobs handed in so far.
pub data Run : List ℕ → Reaper → Type 0 where
  begins : Run [] started
  then_does : {jobs new : List ℕ} {r s : Reaper} → Run jobs r → Step r new s → Run (jobs ++ new) s
