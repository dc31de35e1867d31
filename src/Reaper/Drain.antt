-- ===== src/Reaper/Drain.antt =====
-- src/pipeline/ControllerReaper: every job is run, once, and in order on the worker.
use stream_multicast.Common.{
  ℕ, ◌+◌, ◌≡◌, refl, sym, ap, ◌∙◌, inl, inr, Bool, true, false, List, [], ◌∷◌, ◌++◌, arith,
  if◌then◌else◌, ◌==◌, Bool-cases,
}
use stream_multicast.Reaper.{
  Worker, waits, exited, runs_job, Reaper, enqueue, shutdown, take_front, take_job, Step, enqueues,
  shuts_down, takes, ends, caller_ends, Run, begins, then_does,
}

-- How often a job is in a list.
abbrev pub occurs : List ℕ → ℕ → ℕ
occurs [] j = 0
occurs (x ∷ xs) j = (if x == j then 1 else 0) + occurs xs j

occurs-append : (xs ys : List ℕ) (j : ℕ) → occurs (xs ++ ys) j ≡ occurs xs j + occurs ys j
occurs-append [] ys j = omega arith
occurs-append (x ∷ xs) ys j = omega (arith, occurs-append xs ys j)

abbrev pub in_work : Worker → List ℕ
in_work waits = []
in_work exited = []
in_work (runs_job job) = job ∷ []

abbrev is_exited : Worker → Bool
is_exited exited = true
is_exited waits = false
is_exited (runs_job job) = false

-- Every job handed in is run, at work or waiting; and the worker ends past shutdown() only, with
-- an empty queue.
pub record Accounts (jobs : List ℕ) (r : Reaper) : Type 0 where
  pub each :
      (j : ℕ)
      → occurs jobs j
        ≡ occurs r.ran j
          + occurs (in_work r.worker) j
          + occurs r.queue j
          + (occurs r.ran_on_caller j + occurs r.on_caller j)
  pub closed : is_exited r.worker ≡ true → r.shutting_down ≡ true
  pub drained : is_exited r.worker ≡ true → r.queue ≡ []

takes-Accounts :
    {jobs : List ℕ} (r : Reaper) (q : List ℕ)
    → r.queue ≡ q
    → r.worker ≡ waits
    → Accounts jobs r
    → Accounts (jobs ++ []) (take_front q r)
takes-Accounts {jobs} r [] e w h = elim (Bool-cases r.shutting_down) [
  | inl s ↦ rw s (record {
    each = λ j. omega (arith, h.each j, occurs-append jobs [] j, ap (λ x. occurs (in_work x) j) w);
    closed = λ x. refl;
    drained = λ x. e;
  })
  | inr s ↦ rw s (record {
    each = λ j. omega (arith, h.each j, occurs-append jobs [] j);
    closed = λ x. sym s ∙ h.closed x;
    drained = h.drained;
  })
]
takes-Accounts {jobs} r (job ∷ rest) e w h = record {
  each = λ j. omega (
    arith,
    h.each j,
    occurs-append jobs [] j,
    ap (λ x. occurs (in_work x) j) w,
    ap (λ x. occurs x j) e,
  );
  closed = λ x. absurd (ground (arith, x));
  drained = λ x. absurd (ground (arith, x));
}

Step-Accounts :
    {jobs new : List ℕ} {r s : Reaper} → Accounts jobs r → Step r new s → Accounts (jobs ++ new) s
unfolding enqueue shutdown take_job
Step-Accounts {jobs} {new} {r} h (enqueues job) = record {
  each = λ j. ground (
    arith,
    h.each j,
    occurs-append jobs (job ∷ []) j,
    occurs-append r.queue (job ∷ []) j,
    occurs-append r.on_caller (job ∷ []) j,
  );
  closed = ground (arith, h.closed);
  drained = ground (arith, h.closed, h.drained);
}
Step-Accounts {jobs} {new} {r} h shuts_down = record {
  each = λ j. omega (arith, h.each j, occurs-append jobs [] j);
  closed = λ x. refl;
  drained = h.drained;
}
Step-Accounts {jobs} {new} {r} h (takes w) = takes-Accounts r r.queue refl w h
Step-Accounts {jobs} {new} {r} h (ends job w) = record {
  each = λ j. omega (
    arith,
    h.each j,
    occurs-append jobs [] j,
    occurs-append r.ran (job ∷ []) j,
    ap (λ x. occurs (in_work x) j) w,
  );
  closed = λ x. absurd (ground (arith, x));
  drained = λ x. absurd (ground (arith, x));
}
Step-Accounts {jobs} {new} {r} h (caller_ends job {rest} e) = record {
  each = λ j. omega (
    arith,
    h.each j,
    occurs-append jobs [] j,
    occurs-append r.ran_on_caller (job ∷ []) j,
    ap (λ x. occurs x j) e,
  );
  closed = h.closed;
  drained = h.drained;
}

Run-Accounts : {jobs : List ℕ} {r : Reaper} → Run jobs r → Accounts jobs r
Run-Accounts begins = record {
  each = λ j. refl;
  closed = λ x. absurd (ground (arith, x));
  drained = λ x. refl;
}
Run-Accounts (then_does run step) = Step-Accounts (Run-Accounts run) step

-- When the worker has ended and no caller is left with a job, every job that was handed in was run
-- exactly as often as it was handed in, by the worker or by a caller, and the end came after
-- shutdown().
pub every_job_ran :
    {jobs : List ℕ} {r : Reaper}
    → Run jobs r
    → r.worker ≡ exited
    → r.on_caller ≡ []
    → (j : ℕ)
    → (r.shutting_down ≡ true) × (occurs jobs j ≡ occurs r.ran j + occurs r.ran_on_caller j)
every_job_ran {jobs} {r} run w c j =
    let h = Run-Accounts run in
    (
      h.closed (ground (arith, w)),
      omega (
        arith,
        h.each j,
        ap (λ x. occurs (in_work x) j) w,
        ap (λ x. occurs x j) (h.drained (ground (arith, w))),
        ap (λ x. occurs x j) c,
      ),
    )
