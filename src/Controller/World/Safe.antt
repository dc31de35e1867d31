-- ===== src/Controller/World/Safe.antt =====
-- src/pipeline/OutputController.cpp and ControllerReaper.cpp: what holds whatever the interleaving
-- of the threads.
use stream_multicast.Common.{
  ℕ, ◌≤◌, ◌<◌, ◌≡◌, ap, subst, inl, inr, false, [], Option, none, some, arith, Bool-cases,
}
use stream_multicast.Endpoint.{EncoderBackend}
use stream_multicast.Controller.World.{World, begin, joining_stale, done, Reach}
use stream_multicast.Controller.World.Steps.{captured, is_alive, ui_output}
use stream_multicast.Controller.World.Hold.{one, in_jobs, count, held, Located, JobOf, Pinned-held}
use stream_multicast.Controller.World.Invariant.{Sound, Reach_begin-Sound}

-- An output that a reconnect thread captured, or that start() works on, was made before.
held-unreleased : {w : World} → Sound w → (o : ℕ) → 0 < held w o → count w.released o ≡ 0
held-unreleased {w} h o p = grind (arith, h.core.once o, h.core.fresh o)

ui-held : (w : World) (o : ℕ) → w.ctrl.output ≡ some o → 0 < held w o
ui-held w o e = rw e (ground arith)

-- A thread in use of an output.
pub data Uses (w : World) (o : ℕ) : Type 0 where
  reconnects : (t : ℕ) → captured (w.threads t) ≡ some o → Uses w o
  starts : ui_output w.ui ≡ some o → Uses w o

-- In every reachable world, an output that a reconnect thread captured or that start() works on
-- was not released by the reaper.
pub used_unreleased :
    {b : EncoderBackend} {w : World}
    → Reach (begin b) w
    → (o : ℕ) → Uses w o
    → count w.released o ≡ 0
used_unreleased {b} {w} r o (reconnects t e) =
    let h = Reach_begin-Sound r in held-unreleased h o (Pinned-held t o w (h.core.pinned t o e))
used_unreleased {b} {w} r o (starts e) =
    let h = Reach_begin-Sound r in held-unreleased h o (ui-held w o (h.control.works o e))

-- In every reachable world no output was released twice.
pub released_once :
    {b : EncoderBackend} {w : World} → Reach (begin b) w → (o : ℕ) → count w.released o ≤ 1
released_once {b} {w} r o =
    let h = Reach_begin-Sound r in grind (arith, h.core.once o, h.core.fresh o)

-- In every reachable world in which shutdown_blocking() has run and the reaper has no job left,
-- every output that was made was released exactly once.
pub all_released :
    {b : EncoderBackend} {w : World}
    → Reach (begin b) w
    → w.shutdown ≡ done
    → w.queue ≡ []
    → (o : ℕ) → o < w.next_output
    → count w.released o ≡ 1
all_released {b} {w} r s e o le =
    let h = Reach_begin-Sound r in
    ground (
      arith,
      h.core.once o le,
      ap (λ q. in_jobs q o) e,
      ap (λ m. one m o) (h.control.ended (ground (arith, s))).0,
    )

-- In every reachable world, when handle_stop() is about to assign a new thread, the member holds
-- no joinable one.
pub assigns_over_none :
    {b : EncoderBackend} {w : World}
    → Reach (begin b) w
    → (stale : Option ℕ) → w.signal ≡ joining_stale stale
    → w.ctrl.reconnect_thread ≡ none
assigns_over_none r stale e = let h = Reach_begin-Sound r in h.control.free (ground (arith, e))

-- In every reachable world, after shutdown_blocking() and the jobs of the reaper no reconnect
-- thread is left running.
pub no_thread_left :
    {b : EncoderBackend} {w : World}
    → Reach (begin b) w
    → w.shutdown ≡ done
    → w.queue ≡ []
    → (t : ℕ) → is_alive (w.threads t) ≡ false
no_thread_left {b} {w} r s e t = elim (Bool-cases (is_alive (w.threads t))) [
  | inl a ↦ absurd (nowhere (h.core.located t a))
  | inr d ↦ d
]
  where
    h : Sound w
    h = Reach_begin-Sound r

    nowhere : Located t w → ⊥
    nowhere (inl a) = ground (arith, a, s, h.control.ended, h.control.cut, h.control.retired)
    nowhere (inr b) = subst (JobOf t) e b
