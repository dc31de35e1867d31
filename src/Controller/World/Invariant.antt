-- ===== src/Controller/World/Invariant.antt =====
-- Every step keeps the invariant.
use stream_multicast.Common.{ℕ, ◌≡◌, refl, subst, inl, inr, true, false, [], ◌∷◌, ◌++◌, arith}
use stream_multicast.Endpoint.{EncoderBackend}
use stream_multicast.Controller.Session.{
  start_enter, start_take_thread, start_resume, publish_output, canvas_gone, flag_stop, stop_detach,
  shutdown_detach, on_start_signal, handle_stop_spawn,
}
use stream_multicast.Controller.World.{
  World, begin, at_rest, taking, start_flagged, resolving_start, stop_flagged, stop_disconnected,
  joining, encoding, quiet, joining_stale, requested, claimed, disconnected, done, Step, ui_steps,
  start_begins, start_flags, start_takes, start_joins, start_creates, stop_begins, canvas_goes,
  stop_is_idle, stop_disconnects, stop_finds_idle, stop_detaches, retires, goes_live, stop_signal,
  stop_reconnects, spawns, spawns_nothing, runs, tears_down, shutdown_claims, shutdown_disconnects,
  shutdown_detaches, Reach, here, next,
}
use stream_multicast.Controller.World.Steps.{is_alive, ThreadStep-Keeps, UiStep-Serves}
use stream_multicast.Controller.World.Hold.{Attached}
use stream_multicast.Controller.World.Core.{Core, Core-moves, Core-creates, Core-detaches}
use stream_multicast.Controller.World.Threads.{Joined-dead, Core-spawns, Core-runs, Core-tears_down}
use stream_multicast.Controller.World.Control.{Control, handle_stop-Stopped, Step-Control}

pub Step-Core : {w v : World} → Core w → Control w → Step w v → Core v
unfolding start_enter start_take_thread start_resume publish_output canvas_gone flag_stop
    stop_detach shutdown_detach on_start_signal handle_stop_spawn
Step-Core {w} h k (ui_steps {c} {u} x) =
    Core-moves w c u w.signal w.connected w.shutdown (UiStep-Serves x).hold.output
      (λ t a b. ground (arith, UiStep-Serves x, b)) h
Step-Core {w} h k (start_begins a b c) =
    Core-moves w _ taking w.signal w.connected w.shutdown (ground arith)
      (λ t x y. ground (arith, y)) h
Step-Core {w} h k (start_flags a) =
    Core-moves w (flag_stop w.ctrl) start_flagged w.signal w.connected w.shutdown refl
      (λ t x y. ground (arith, y)) h
Step-Core {w} h k (start_takes a) =
    Core-moves w _ (joining w.ctrl.reconnect_thread) w.signal w.connected w.shutdown refl
      (λ t x y. ground (arith, y)) h
Step-Core {w} h k (start_joins {m} a j) =
    Core-moves w _ resolving_start w.signal w.connected w.shutdown refl att h
  where
    att :
        (t : ℕ)
        → is_alive (w.threads t) ≡ true
        → Attached t w
        → Attached t (record w { ctrl = start_resume w.ctrl; ui = resolving_start })
    att t x (inl e) = inl e
    att t x (inr (inl e)) = absurd (Joined-dead m w.threads t (cc) j x)
    att t x (inr (inr e)) = inr (inr e)
Step-Core {w} h k (start_creates s a e) =
    Core-creates w _ (encoding w.next_output) e refl (λ t y. ground (arith, y)) h
Step-Core {w} h k (stop_begins a b e) =
    Core-moves w _ stop_flagged w.signal w.connected w.shutdown refl (λ t x y. ground (arith, y)) h
Step-Core {w} h k (stop_is_idle a b e) =
    Core-moves w _ w.ui w.signal w.connected w.shutdown refl (λ t x y. y) h
Step-Core {w} h k (canvas_goes a b) =
    Core-moves w (canvas_gone w.ctrl) w.ui w.signal w.connected w.shutdown refl (λ t x y. y) h
Step-Core {w} h k (stop_disconnects a b) =
    Core-moves w w.ctrl stop_disconnected w.signal false w.shutdown refl
      (λ t x y. ground (arith, y)) h
Step-Core {w} h k (stop_finds_idle a b) =
    Core-moves w w.ctrl at_rest w.signal w.connected w.shutdown refl (λ t x y. ground (arith, y)) h
Step-Core {w} h k (stop_detaches a b) =
    Core-detaches w (stop_detach w.ctrl).0 at_rest w.shutdown (stop_detach w.ctrl).1 refl refl refl
      (λ t y. ground (arith, y, k.cut)) h
Step-Core {w} h k (retires a b) =
    Core-moves w w.ctrl w.ui w.signal w.connected requested refl (λ t x y. y) h
Step-Core {w} h k (goes_live n a) =
    Core-moves w _ w.ui w.signal w.connected w.shutdown refl (λ t x y. y) h
Step-Core {w} h k (stop_signal c e x n a b d) =
    Core-moves w _ w.ui w.signal w.connected w.shutdown (handle_stop-Stopped w.ctrl c e x n).output
      (λ t z y. ground (arith, y, (handle_stop-Stopped w.ctrl c e x n).kept d)) h
Step-Core {w} h k (stop_reconnects c e x n {stale} a b d) =
    Core-moves w _ w.ui (joining_stale stale) w.connected w.shutdown
      (handle_stop-Stopped w.ctrl c e x n).output
      (λ t z y. ground (arith, y, (handle_stop-Stopped w.ctrl c e x n).taken stale d)) h
Step-Core {w} h k (spawns a j b) =
    Core-spawns w _ (ground arith) (ground arith) (k.free (ground arith)) a j h
Step-Core {w} h k (spawns_nothing {stale} a j b) =
    Core-moves w _ w.ui quiet w.connected w.shutdown (ground arith) att h
  where
    att :
        (t : ℕ)
        → is_alive (w.threads t) ≡ true
        → Attached t w
        → Attached t
            (record w { ctrl = (handle_stop_spawn w.ctrl w.next_thread).0; signal = quiet })
    att t x (inl e) = absurd (ground (arith, e, k.free (ground arith)))
    att t x (inr (inl e)) = inr (inl e)
    att t x (inr (inr e)) = absurd (Joined-dead stale w.threads t (cc) j x)
Step-Core {w} h k (runs t x) = Core-runs w t (ThreadStep-Keeps x) h
Step-Core {w} h k (tears_down j a b) = Core-tears_down w j a b h
Step-Core {w} h k (shutdown_claims a b) =
    Core-moves w _ w.ui w.signal w.connected claimed refl (λ t x y. y) h
Step-Core {w} h k (shutdown_disconnects a b) =
    Core-moves w w.ctrl w.ui w.signal false disconnected refl (λ t x y. y) h
Step-Core {w} h k (shutdown_detaches a) =
    subst (λ q. Core (record w { ctrl = (shutdown_detach w.ctrl).0; queue = q; shutdown = done }))
      (queued (k.last (ground arith)))
      (Core-detaches w (shutdown_detach w.ctrl).0 w.ui done (shutdown_detach w.ctrl).1 refl refl
        refl (λ t y. ground (arith, y, k.cut, k.retired)) h)
  where
    queued :
        w.queue ≡ []
        → w.queue ++ ((shutdown_detach w.ctrl).1 ∷ []) ≡ (shutdown_detach w.ctrl).1 ∷ w.queue
    queued e = rw e refl

-- Both parts hold in a fresh world, and so in every reachable one.
pub record Sound (w : World) : Type 0 where
  pub core : Core w
  pub control : Control w

begin-Sound : (b : EncoderBackend) → Sound (begin b)
begin-Sound b = record {
  core = record {
    pinned = λ t o e. ground arith;
    located = λ t a. ground arith;
    once = λ o le. ground arith;
    fresh = λ o le. refl;
    unborn = λ t le. refl;
  };
  control = ground arith;
}

Reach-Sound : {v w : World} → Sound v → Reach v w → Sound w
Reach-Sound h here = h
Reach-Sound h (next r s) =
    let k = Reach-Sound h r in
    record { core = Step-Core k.core k.control s; control = Step-Control k.control s }

pub Reach_begin-Sound : {b : EncoderBackend} {w : World} → Reach (begin b) w → Sound w
Reach_begin-Sound {b} r = Reach-Sound (begin-Sound b) r
