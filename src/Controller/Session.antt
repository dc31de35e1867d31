-- ===== src/Controller/Session.antt =====
-- src/pipeline/OutputController.cpp: the sections of start(), stop(), shutdown_blocking() and of the
-- signal callbacks.
use stream_multicast.Common.{
  ℕ, Bool, true, false, ◌&&◌, not, [], ◌++◌, Option, none, some, if◌then◌else◌, is_empty, Str,
  codes,
}
use stream_multicast.Common.Int.{ℤ, eq_ℤ, ◌-ℤ◌}
use stream_multicast.Recovery.{
  StartFailure, fresh, start_refused, encoder_create, stop_before_live, failure_of, on_stop_code,
  on_live_for, is_encoder_start_failure,
}
use stream_multicast.Controller.{
  OutputState, idle, starting, live, reconnecting, failed_hard, Controller, is_running,
  is_hard_fail_code, hard_fail_message, success, encoder_fallback_switched_locked,
  first_start_fallback_locked, ResolvedVideo, swap_canvas_locked, do_release_encoders_locked,
}

-- The first section of start(): the controller, and whether it was running already.
unfoldable pub start_enter : Controller → Controller × Bool
start_enter c = if is_running c.state then (c, true) else (
  record c { state = starting; last_error = []; reconnect_attempt = 0; recovery = fresh },
  false,
)

-- start_output() flags the reconnect thread, with `flag_stop`, and takes it, to join it before it
-- goes on.
unfoldable pub start_take_thread : Controller → Controller × Option ℕ
start_take_thread c = (record c { reconnect_thread = none }, c.reconnect_thread)

unfoldable pub start_resume : Controller → Controller
start_resume c = record c { stop_reconnect = false }

unfoldable pub fail_hard : Controller → Str → Controller
fail_hard c reason = record c { state = failed_hard; last_error = reason }

-- `set_state`
unfoldable pub set_state : Controller → OutputState → Controller
set_state c s = record c { state = s }

-- The last section of do_create_output(): the new output and its service.
unfoldable pub publish_output : Controller → ℕ → ℕ → Controller
publish_output c output service = record c { output = some output; service = some service }

-- One failure in create_start_encoders(): whether the loop tries again, with x264.
unfoldable pub create_failed : Controller → Bool → Bool → Controller × Bool
create_failed c video_failed x264_registered =
    if video_failed
    then first_start_fallback_locked c (failure_of encoder_create) x264_registered
    else (c, false)

unfoldable pub publish_start : Controller → ℕ → ℕ → ResolvedVideo → Controller
unfolding do_release_encoders_locked swap_canvas_locked
publish_start c video_enc audio_enc rv =
    let c' = do_release_encoders_locked c in
    swap_canvas_locked (record c' { video_enc = some video_enc; audio_enc = some audio_enc }) rv

-- What the controller reads when obs_output_start() refused: the two error texts, whether a service
-- is attached, whether the output is active, and the answer of obs_service_can_try_to_connect.
pub record Refusal : Type 0 where
  pub output_error : Str
  pub encoder_error : Str
  pub attached : Bool
  pub active : Bool
  pub can_connect : Bool
  pub reason : Str  -- the text of start_refusal_reason

abbrev pub refusal_failure : Refusal → StartFailure
refusal_failure r = record (failure_of start_refused) {
  video_encoder_error = not (is_empty r.encoder_error);
  service_attached = r.attached;
  output_active = r.active;
  service_ready = not r.active && r.can_connect;
}

abbrev refusal_text : Bool → Refusal → Str
refusal_text encoder_refused r =
    if encoder_refused
    then codes "Encoder failed to start"
      ++ (if not (is_empty r.encoder_error)
          then codes ": " ++ r.encoder_error
          else if not (is_empty r.output_error)
          then codes ": " ++ r.output_error
          else [])
    else if not (is_empty r.output_error)
    then r.output_error
    else codes "Output failed to start: " ++ r.reason

-- The section behind a refused obs_output_start(): whether the loop tries again, with x264.
unfoldable pub start_refused_section : Controller → Refusal → Bool → Controller × Bool
unfolding do_release_encoders_locked
start_refused_section c r x264_registered =
    let failure = refusal_failure r in
    let (c', retry) =
      first_start_fallback_locked (do_release_encoders_locked c) failure x264_registered in
    if retry then (c', true) else (
      record c' {
        state = failed_hard;
        last_error = refusal_text (is_encoder_start_failure failure) r;
      },
      false,
    )

-- on_canvas_gone() before it calls stop().
unfoldable pub canvas_gone : Controller → Controller
canvas_gone c = record c {
  last_error = codes "Canvas '" ++ (c.canvas_name ++ codes "' was removed");
}

-- What stop() and shutdown_blocking() take out of the controller for the teardown.
pub record Teardown : Type 0 where
  pub output : Option ℕ
  pub service : Option ℕ
  pub video_enc : Option ℕ
  pub audio_enc : Option ℕ
  pub canvas_ref : Option ℕ
  pub thread : Option ℕ

abbrev pub teardown_of : Controller → Teardown
teardown_of c = record {
  output = c.output;
  service = c.service;
  video_enc = c.video_enc;
  audio_enc = c.audio_enc;
  canvas_ref = c.canvas_ref;
  thread = c.reconnect_thread;
}

abbrev cleared : Controller → Controller
cleared c = record c {
  output = none;
  service = none;
  video_enc = none;
  audio_enc = none;
  canvas_ref = none;
  canvas_uuid = [];
  canvas_name = [];
  reconnect_thread = none;
  state = idle;
}

abbrev is_none {ℓ} : {A : Type ℓ} → Option A → Bool
is_none none = true
is_none (some a) = false

abbrev is_idle : OutputState → Bool
is_idle idle = true
is_idle starting = false
is_idle live = false
is_idle reconnecting = false
is_idle failed_hard = false

-- The test that makes stop() idempotent.
unfoldable pub nothing_to_stop : Controller → Bool
nothing_to_stop c = is_idle c.state && is_none c.output && is_none c.canvas_ref

unfoldable pub flag_stop : Controller → Controller
flag_stop c = record c { stop_reconnect = true }

-- The last section of stop(): the detached controller and the job for the reaper.
unfoldable pub stop_detach : Controller → Controller × Teardown
stop_detach c = (record (cleared c) { connected_since = none }, teardown_of c)

-- The detaching section of shutdown_blocking(), which leaves the time of the connection.
unfoldable pub shutdown_detach : Controller → Controller × Teardown
shutdown_detach c = (cleared c, teardown_of c)

-- on_start_signal
unfoldable pub on_start_signal : Controller → ℤ → Controller
on_start_signal c now = record c { state = live; connected_since = some now }

abbrev pub live_time : OutputState → Option ℤ → ℤ → Option ℤ
live_time live (some since) now = some (now -ℤ since)
live_time _ _ now = none

abbrev pub after_live : Option ℤ → Controller → Controller
after_live none c = c
after_live (some ms) c = record c { recovery = on_live_for c.recovery ms }

abbrev pub is_starting : OutputState → Bool
is_starting starting = true
is_starting idle = false
is_starting live = false
is_starting reconnecting = false
is_starting failed_hard = false

-- The section of handle_stop() for a code that is eligible for a reconnect.
unfoldable pub reconnect_section : Controller → ℤ → Bool → ℤ → Controller
reconnect_section c code x264_registered now =
    let refused = record (failure_of stop_before_live) { stop_code = code } in
    let c1 =
      if is_starting c.state
      then (first_start_fallback_locked c refused x264_registered).0
      else c in
    let c2 = after_live (live_time c.state c.connected_since now) c1 in
    let (recovery, switched) = on_stop_code c2.recovery code c2.backend in
    let (c3, announced) =
      encoder_fallback_switched_locked (record c2 { recovery = recovery }) switched
        x264_registered in
    record c3 { state = reconnecting; reconnect_thread = none }

-- handle_stop() up to the join of a stale reconnect thread: with `some stale` it goes on to
-- `handle_stop_spawn`. `obs_error` is the last error of the output, empty if there is none.
unfoldable pub handle_stop : Controller → ℤ → Str → Bool → ℤ → Controller × Option (Option ℕ)
unfolding set_state fail_hard
handle_stop c code obs_error x264_registered now =
    if eq_ℤ code success
    then (set_state c idle, none)
    else if is_hard_fail_code code
    then (fail_hard c (if is_empty obs_error then hard_fail_message code else obs_error), none)
    else if c.shutdown_done
    then (set_state c idle, none)
    else (reconnect_section c code x264_registered now, some c.reconnect_thread)

-- The end of handle_stop(): spawn the thread, unless shutdown_blocking() came in between.
unfoldable pub handle_stop_spawn : Controller → ℕ → Controller × Bool
handle_stop_spawn c thread =
    let c' = record c { stop_reconnect = false } in
    if c.shutdown_done
    then (record c' { state = idle }, false)
    else (record c' { reconnect_thread = some thread }, true)
