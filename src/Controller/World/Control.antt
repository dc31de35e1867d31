-- ===== src/Controller/World/Control.antt =====
-- Where the threads may stand together.
use stream_multicast.Common.{
  ℕ, ◌≡◌, refl, ◌∙◌, Bool, true, false, ◌&&◌, ◌||◌, not, [], Option, none, some, arith,
  if◌then◌else◌, Str,
}
use stream_multicast.Common.Int.{ℤ}
use stream_multicast.Recovery.{
  StartFailure, RecoveryState, on_stop_code, stop_before_live, failure_of,
}
use stream_multicast.Controller.{
  Controller, encoder_fallback_switched_locked, first_start_fallback_locked,
}
use stream_multicast.Controller.Session.{
  start_enter, start_take_thread, start_resume, publish_output, canvas_gone, flag_stop, stop_detach,
  shutdown_detach, on_start_signal, fail_hard, set_state, live_time, after_live, is_starting,
  reconnect_section, handle_stop, handle_stop_spawn,
}
use stream_multicast.Controller.World.{
  World, Ui, at_rest, taking, start_flagged, resolving_start, stop_flagged, stop_disconnected,
  joining, encoding, re_encoding, launching, Signal, quiet, joining_stale, Shutdown, not_requested,
  requested, claimed, disconnected, done, Step, ui_steps, start_begins, start_flags, start_takes,
  start_joins, start_creates, stop_begins, stop_is_idle, canvas_goes, stop_disconnects,
  stop_finds_idle, stop_detaches, retires, goes_live, stop_signal, stop_reconnects, spawns,
  spawns_nothing, runs, tears_down, shutdown_claims, shutdown_disconnects, shutdown_detaches,
}
use stream_multicast.Controller.World.Steps.{ThreadStep-Keeps, ui_output, is_at_rest, UiStep-Serves}

abbrev pub is_active : Shutdown → Bool
is_active not_requested = true
is_active requested = false
is_active claimed = false
is_active disconnected = false
is_active done = false

-- shutdown_blocking() has begun and not yet detached.
abbrev pub is_closing : Shutdown → Bool
is_closing not_requested = false
is_closing requested = false
is_closing claimed = true
is_closing disconnected = true
is_closing done = false

abbrev pub is_cut_off : Shutdown → Bool
is_cut_off not_requested = false
is_cut_off requested = false
is_cut_off claimed = false
is_cut_off disconnected = true
is_cut_off done = true

abbrev pub is_done : Shutdown → Bool
is_done not_requested = false
is_done requested = false
is_done claimed = false
is_done disconnected = false
is_done done = true

abbrev pub is_stopping : Ui → Bool
is_stopping stop_disconnected = true
is_stopping at_rest = false
is_stopping taking = false
is_stopping start_flagged = false
is_stopping resolving_start = false
is_stopping stop_flagged = false
is_stopping (joining m) = false
is_stopping (encoding o) = false
is_stopping (re_encoding o) = false
is_stopping (launching o) = false

abbrev pub is_quiet : Signal → Bool
is_quiet quiet = true
is_quiet (joining_stale m) = false

pub record Control (w : World) : Type 0 where
  -- start() works on the output of the controller
  pub works : (o : ℕ) → ui_output w.ui ≡ some o → w.ctrl.output ≡ some o
  -- the UI thread leaves a controller alone that it removed
  pub retired : (is_active w.shutdown || is_at_rest w.ui) ≡ true
  -- behind the disconnection no callback runs or begins
  pub cut :
      (is_stopping w.ui || is_cut_off w.shutdown) ≡ true
      → (is_quiet w.signal && not w.connected) ≡ true
  -- shutdown_blocking() runs when the jobs before it are done
  pub last : is_closing w.shutdown ≡ true → w.queue ≡ []
  -- shutdown_blocking() has taken the output and the thread
  pub ended : is_done w.shutdown ≡ true → (w.ctrl.output ≡ none) × (w.ctrl.reconnect_thread ≡ none)
  -- handle_stop() has taken the thread that it joins
  pub free : is_quiet w.signal ≡ false → w.ctrl.reconnect_thread ≡ none

-- What handle_stop() does to the output and the thread.
pub record Stopped (c : Controller) (r : Controller × Option (Option ℕ)) : Type 0 where
  pub output : r.0.output ≡ c.output
  pub kept : r.1 ≡ none → r.0.reconnect_thread ≡ c.reconnect_thread
  pub taken : (m : Option ℕ) → r.1 ≡ some m → c.reconnect_thread ≡ m
  pub freed : (m : Option ℕ) → r.1 ≡ some m → r.0.reconnect_thread ≡ none

record SameOutput (c d : Controller) : Type 0 where
  output : d.output ≡ c.output

first_start-SameOutput :
    (c : Controller) (f : StartFailure) (x : Bool)
    → SameOutput c (first_start_fallback_locked c f x).0
unfolding first_start_fallback_locked
first_start-SameOutput c f x = ground arith

after_live-SameOutput : (m : Option ℤ) (c : Controller) → SameOutput c (after_live m c)
after_live-SameOutput none c = record { output = refl }
after_live-SameOutput (some t) c = record { output = refl }

switched-SameOutput :
    (c : Controller) (s x : Bool) → SameOutput c (encoder_fallback_switched_locked c s x).0
unfolding encoder_fallback_switched_locked
switched-SameOutput c s x = ground arith

abbrev pub starts_over : Controller → ℤ → Bool → Controller
starts_over c code x =
    if is_starting c.state
    then (first_start_fallback_locked c (record (failure_of stop_before_live) { stop_code = code })
        x).0
    else c

starts_over-SameOutput :
    (c : Controller) (code : ℤ) (x : Bool) → SameOutput c (starts_over c code x)
starts_over-SameOutput c code x =
    ground (
      arith,
      first_start-SameOutput c (record (failure_of stop_before_live) { stop_code = code }) x,
    )

reconnect_section-output :
    (c : Controller) (code : ℤ) (x : Bool) (now : ℤ)
    → (reconnect_section c code x now).output ≡ c.output
unfolding reconnect_section
reconnect_section-output c code x now =
    (switched-SameOutput (record c2 { recovery = judged.0 }) judged.1 x).output
    ∙ (after_live-SameOutput (live_time c.state c.connected_since now)
        (starts_over c code x)).output
    ∙ (starts_over-SameOutput c code x).output
  where
    c2 : Controller
    c2 = after_live (live_time c.state c.connected_since now) (starts_over c code x)

    judged : RecoveryState × Bool
    judged = on_stop_code c2.recovery code c2.backend

reconnect_section-frees :
    (c : Controller) (code : ℤ) (x : Bool) (now : ℤ)
    → (reconnect_section c code x now).reconnect_thread ≡ none
unfolding reconnect_section
reconnect_section-frees c code x now = refl

pub handle_stop-Stopped :
    (c : Controller) (code : ℤ) (err : Str) (x : Bool) (now : ℤ)
    → Stopped c (handle_stop c code err x now)
unfolding handle_stop set_state fail_hard
handle_stop-Stopped c code err x now =
    ground (arith, reconnect_section-output c code x now, reconnect_section-frees c code x now)

pub Step-Control : {w v : World} → Control w → Step w v → Control v
unfolding start_enter start_take_thread start_resume publish_output canvas_gone flag_stop
    stop_detach shutdown_detach on_start_signal handle_stop_spawn
Step-Control {w} h (ui_steps x) = ground (arith, UiStep-Serves x)
Step-Control {w} h (start_begins a b c) = ground arith
Step-Control {w} h (start_flags a) = ground arith
Step-Control {w} h (start_takes a) = ground arith
Step-Control {w} h (start_joins a j) = ground arith
Step-Control {w} h (start_creates s a e) = ground arith
Step-Control {w} h (stop_begins a b e) = ground arith
Step-Control {w} h (stop_is_idle a b e) = ground arith
Step-Control {w} h (canvas_goes a b) = ground arith
Step-Control {w} h (stop_disconnects a b) = ground arith
Step-Control {w} h (stop_finds_idle a b) = ground arith
Step-Control {w} h (stop_detaches a b) = ground arith
Step-Control {w} h (retires a b) = ground arith
Step-Control {w} h (goes_live n a) = ground arith
Step-Control {w} h (stop_signal c e x n a b d) = ground (arith, handle_stop-Stopped w.ctrl c e x n)
Step-Control {w} h (stop_reconnects c e x n {stale} a b d) =
    ground (arith, stopped.output, stopped.freed stale d)
  where
    stopped : Stopped w.ctrl (handle_stop w.ctrl c e x n)
    stopped = handle_stop-Stopped w.ctrl c e x n
Step-Control {w} h (spawns a j b) = ground arith
Step-Control {w} h (spawns_nothing a j b) = ground arith
Step-Control {w} h (runs t x) = ground (arith, ThreadStep-Keeps x)
Step-Control {w} h (tears_down j a b) = ground arith
Step-Control {w} h (shutdown_claims a b) = ground arith
Step-Control {w} h (shutdown_disconnects a b) = ground arith
Step-Control {w} h (shutdown_detaches a) = ground arith
