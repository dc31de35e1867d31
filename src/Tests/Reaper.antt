-- ===== src/Tests/Reaper.antt =====
-- src/pipeline/ControllerReaper on a run with a job after shutdown().
use stream_multicast.Common.{◌+◌, ◌≡◌, refl, true, [], ◌∷◌}
use stream_multicast.Reaper.{
  exited, Reaper, enqueue, shutdown, take_job, enqueues, shuts_down, takes, ends, caller_ends, Run,
  begins, then_does,
}
use stream_multicast.Reaper.Drain.{occurs, every_job_ran}

abbrev over : Reaper
over = record {
  queue = [];
  shutting_down = true;
  worker = exited;
  on_caller = [];
  ran = 5 ∷ [];
  ran_on_caller = 6 ∷ [];
}

abbrev run : Run (5 ∷ 6 ∷ []) over
unfolding enqueue shutdown take_job
run =
    then_does
      (then_does
        (then_does
          (then_does (then_does (then_does (then_does begins (enqueues 5)) shuts_down) (enqueues 6))
            (takes refl))
          (ends 5 refl))
        (takes refl))
      (caller_ends 6 {rest = []} refl)

every_job_ran_example :
    (over.shutting_down ≡ true)
    × (occurs (5 ∷ 6 ∷ []) 6 ≡ occurs over.ran 6 + occurs over.ran_on_caller 6)
every_job_ran_example = every_job_ran run refl refl 6
