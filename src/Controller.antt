-- ===== src/Controller.antt =====
-- src/pipeline/OutputController.hpp and OutputController.cpp: the state of one endpoint's output,
-- and the sections of its methods. A section is what runs under one lock of `m_mutex`, or between
-- two of them; `World` puts the sections of the threads together. Handles of OBS objects are
-- numbers, and what libobs answers is an argument.
pub mod Session
pub mod Reconnect
pub mod World
pub mod Backoff
pub mod Settle
use stream_multicast.Common.{
  ℕ, zero, suc, ◌+◌, Bool, true, false, ◌&&◌, ◌||◌, not, List, [], ◌∷◌, ◌++◌, Option, none, some,
  if◌then◌else◌, ltb, leb, ◌==◌, is_empty, Str, codes,
}
use stream_multicast.Common.Int.{ℤ, pos, negsuc, eq_ℤ, leb_ℤ, ◌-ℤ◌}
use stream_multicast.Endpoint.{Endpoint, EncoderBackend, x264}
use stream_multicast.Recovery.{
  RecoveryState, StartFailure, fresh, start_refused, encoder_create, stop_before_live, failure_of,
  is_x264, on_stop_code, on_restart_failure, on_live_for, on_first_start_failure, effective_backend,
  is_encoder_start_failure, start_refusal_reason,
}
use stream_multicast.Canvas.{
  CanvasInfo, CanvasResolution, Kind, main, canvas, refused, resolve_canvas,
}

-- src/core/OutputState.hpp
pub data OutputState : Type 0 where
  idle starting live reconnecting failed_hard : OutputState

-- `reconnect_delay_seconds`: the schedule, whose last entry serves every later attempt; -1 at the
-- limit of the attempts.
abbrev pub schedule : List ℕ
schedule = 1 ∷ 2 ∷ 5 ∷ 10 ∷ 30 ∷ 60 ∷ []

abbrev pub entry : List ℕ → ℕ → ℕ → ℕ
entry [] i default = default
entry (x ∷ xs) zero default = x
entry (x ∷ xs) (suc i) default = entry xs i x

-- `entry` with the default of the last element met, so an index past the end gives the last one.
abbrev pub clamped : List ℕ → ℕ → ℕ
clamped xs i = entry xs i 0

abbrev pub max_attempts : ℕ
max_attempts = 10

unfoldable pub reconnect_delay_seconds : ℕ → ℕ → ℤ
reconnect_delay_seconds attempt limit =
    if leb limit attempt then negsuc 0 else pos (clamped schedule attempt)

-- The remaining stop codes of libobs that the classification names.
abbrev pub success : ℤ
success = pos 0

abbrev pub bad_path : ℤ
bad_path = negsuc 0

abbrev pub invalid_stream : ℤ
invalid_stream = negsuc 2

abbrev pub unsupported : ℤ
unsupported = negsuc 5

abbrev pub no_space : ℤ
no_space = negsuc 6

abbrev pub hdr_disabled : ℤ
hdr_disabled = negsuc 8

unfoldable pub is_hard_fail_code : ℤ → Bool
is_hard_fail_code code =
    eq_ℤ code invalid_stream
    || eq_ℤ code bad_path
    || eq_ℤ code unsupported
    || eq_ℤ code no_space
    || eq_ℤ code hdr_disabled

unfoldable pub hard_fail_message : ℤ → Str
hard_fail_message code =
    if eq_ℤ code invalid_stream
    then codes "Invalid stream key (rejected by server)"
    else if eq_ℤ code bad_path
    then codes "Invalid server URL"
    else if eq_ℤ code unsupported
    then codes "Unsupported output configuration"
    else if eq_ℤ code no_space
    then codes "No space left for output data"
    else if eq_ℤ code hdr_disabled
    then codes "HDR is disabled for this output"
    else codes "Output failed"

-- The members that the methods change; `backend` is `m_endpoint.encoder_backend`. A
-- `connected_since` at the epoch is `none`, a `std::thread` that is not joinable is `none`.
pub record Controller : Type 0 where
  pub backend : EncoderBackend
  pub state : OutputState
  pub last_error : Str
  pub reconnect_attempt : ℕ
  pub recovery : RecoveryState
  pub output : Option ℕ
  pub service : Option ℕ
  pub video_enc : Option ℕ
  pub audio_enc : Option ℕ
  pub canvas_ref : Option ℕ
  pub canvas_uuid : Str
  pub canvas_name : Str
  pub connected_since : Option ℤ
  pub reconnect_thread : Option ℕ
  pub stop_reconnect : Bool
  pub shutdown_done : Bool

abbrev pub fallback_error : Str
fallback_error = codes "Encoder fallback: x264 veryfast"

unfoldable pub effective_backend_locked : Controller → Bool → EncoderBackend
effective_backend_locked c x264_registered = effective_backend c.backend c.recovery x264_registered

-- `encoder_fallback_switched_locked`, after the recovery state was updated with the answer
-- `switched`. The backends differ when the fallback changes a non-x264 one.
unfoldable pub encoder_fallback_switched_locked : Controller → Bool → Bool → Controller × Bool
encoder_fallback_switched_locked c switched x264_registered =
    if not switched
      || not (c.recovery.fallback_active && x264_registered && not (is_x264 c.backend))
    then (c, false)
    else (record c { last_error = fallback_error }, true)

unfoldable pub first_start_fallback_locked : Controller → StartFailure → Bool → Controller × Bool
first_start_fallback_locked c failure x264_registered =
    let (recovery, switched) =
      on_first_start_failure c.recovery failure c.backend x264_registered in
    if switched
    then (record c { recovery = recovery; last_error = fallback_error }, true)
    else (record c { recovery = recovery }, false)

-- `is_running`
abbrev pub is_running : OutputState → Bool
is_running live = true
is_running starting = true
is_running idle = false
is_running reconnecting = false
is_running failed_hard = false

-- The outcome of `resolve_video`.
pub data ResolvedVideo : Type 0 where
  no_video : Str → ResolvedVideo
  main_video : ResolvedVideo
  canvas_video : ℕ → Str → Str → ResolvedVideo

-- What libobs answers to `resolve_video`: the canvases, whether the main video exists, the canvas
-- that `acquire_canvas` returns, whether it is removed and whether it has a video.
pub record CanvasAnswers : Type 0 where
  pub canvases : List CanvasInfo
  pub has_main_video : Bool
  pub acquired : Option ℕ
  pub removed : Bool
  pub has_video : Bool

abbrev acquire : Option ℕ → Bool → Bool → CanvasResolution → ResolvedVideo
acquire none removed has_video res =
    no_video (codes "Canvas '" ++ (res.name ++ codes "' is no longer available"))
acquire (some h) removed has_video res =
    if removed
    then no_video (codes "Canvas '" ++ (res.name ++ codes "' is no longer available"))
    else if not has_video
    then no_video (codes "Canvas '" ++ (res.name ++ codes "' has no video output"))
    else canvas_video h res.uuid res.name

abbrev resolve_by : Kind → CanvasAnswers → CanvasResolution → ResolvedVideo
resolve_by refused a res = no_video res.reason
resolve_by main a res =
    if not a.has_main_video
    then no_video (codes "Main video pipeline is not available")
    else main_video
resolve_by canvas a res = acquire a.acquired a.removed a.has_video res

unfoldable pub resolve_video : Endpoint → CanvasAnswers → ResolvedVideo
resolve_video ep a =
    let res = resolve_canvas ep.canvas_uuid ep.canvas_name a.canvases in resolve_by res.kind a res

-- The fields of a `ResolvedVideo` that `swap_canvas_locked` publishes.
abbrev pub rv_canvas : ResolvedVideo → Option ℕ
rv_canvas (no_video r) = none
rv_canvas main_video = none
rv_canvas (canvas_video h u n) = some h

abbrev pub rv_uuid : ResolvedVideo → Str
rv_uuid (no_video r) = []
rv_uuid main_video = []
rv_uuid (canvas_video h u n) = u

abbrev pub rv_name : ResolvedVideo → Str
rv_name (no_video r) = []
rv_name main_video = []
rv_name (canvas_video h u n) = n

-- `swap_canvas_locked`, without the old reference, which the caller releases.
unfoldable pub swap_canvas_locked : Controller → ResolvedVideo → Controller
swap_canvas_locked c rv = record c {
  canvas_ref = rv_canvas rv;
  canvas_uuid = rv_uuid rv;
  canvas_name = rv_name rv;
}

unfoldable pub do_release_encoders_locked : Controller → Controller
do_release_encoders_locked c = record c { video_enc = none; audio_enc = none }
