-- ===== src/Recovery.antt =====
-- src/core/EncoderRecovery.hpp and EncoderRecovery.cpp: the rule that switches one endpoint's
-- session to the software encoder after encoder failures. A C++ reference parameter is a state
-- that is passed in and returned.
pub mod Session
pub mod Start
use stream_multicast.Common.{ℕ, ◌+◌, Bool, true, false, ◌&&◌, ◌||◌, not, if◌then◌else◌, ltb}
use stream_multicast.Common.Int.{ℤ, pos, negsuc, eq_ℤ, leb_ℤ}
use stream_multicast.Endpoint.{EncoderBackend, x264}

-- The stop codes of libobs: -2, -4, -5 and -8.
abbrev pub connect_failed : ℤ
connect_failed = negsuc 1

abbrev pub error : ℤ
error = negsuc 3

abbrev pub disconnected : ℤ
disconnected = negsuc 4

abbrev pub encode_error : ℤ
encode_error = negsuc 7

abbrev pub fallback_after_failures : ℕ
fallback_after_failures = 3

abbrev pub stable_live_ms : ℤ
stable_live_ms = pos 60000

pub record RecoveryState : Type 0 where
  pub failures : ℕ  -- consecutive_encoder_failures
  pub fallback_active : Bool
  pub after_encode_error : Bool

-- `EncoderRecoveryState{}`
abbrev pub fresh : RecoveryState
fresh = record { failures = 0; fallback_active = false; after_encode_error = false }

-- `configured == EncoderBackend::X264`
abbrev pub is_x264 : EncoderBackend → Bool
is_x264 x264 = true
is_x264 _ = false

unfoldable pub on_encoder_failure : RecoveryState → EncoderBackend → RecoveryState × Bool
on_encoder_failure s configured =
    let counted = record s { failures = s.failures + 1 } in
    if counted.fallback_active || is_x264 configured || ltb counted.failures fallback_after_failures
    then (counted, false)
    else (record counted { fallback_active = true }, true)

unfoldable pub on_stop_code : RecoveryState → ℤ → EncoderBackend → RecoveryState × Bool
on_stop_code s code configured =
    if not (eq_ℤ code encode_error)
    then (record s { after_encode_error = false }, false)
    else on_encoder_failure (record s { after_encode_error = true }) configured

unfoldable pub on_restart_failure : RecoveryState → EncoderBackend → RecoveryState × Bool
on_restart_failure s configured =
    if s.after_encode_error then on_encoder_failure s configured else (s, false)

unfoldable pub on_live_stable : RecoveryState → RecoveryState
on_live_stable s = record s { failures = 0; after_encode_error = false }

unfoldable pub on_live_for : RecoveryState → ℤ → RecoveryState
unfolding on_live_stable
on_live_for s live_ms = if leb_ℤ stable_live_ms live_ms then on_live_stable s else s

pub data StartFailureKind : Type 0 where
  encoder_create start_refused stop_before_live : StartFailureKind

pub record StartFailure : Type 0 where
  pub kind : StartFailureKind
  pub video_encoder_error : Bool
  pub service_ready : Bool
  pub service_attached : Bool
  pub output_active : Bool
  pub stop_code : ℤ

-- `StartFailure{kind}`: the other fields at their defaults.
abbrev pub failure_of : StartFailureKind → StartFailure
failure_of k = record {
  kind = k;
  video_encoder_error = false;
  service_ready = false;
  service_attached = true;
  output_active = false;
  stop_code = pos 0;
}

-- the `switch` of `is_encoder_start_failure`
abbrev encoder_failure_by_kind : StartFailureKind → StartFailure → Bool
encoder_failure_by_kind encoder_create f = true
encoder_failure_by_kind start_refused f =
    f.service_attached && (f.video_encoder_error || f.service_ready)
encoder_failure_by_kind stop_before_live f = eq_ℤ f.stop_code encode_error

unfoldable pub is_encoder_start_failure : StartFailure → Bool
is_encoder_start_failure f = encoder_failure_by_kind f.kind f

pub data RefusalReason : Type 0 where
  no_service still_active cannot_connect video_encoder_failed encoder_refused : RefusalReason

-- `start_refusal_reason`: which of its five messages is returned.
unfoldable pub start_refusal_reason : StartFailure → RefusalReason
start_refusal_reason f =
    if not f.service_attached
    then no_service
    else if f.output_active
    then still_active
    else if not f.service_ready
    then cannot_connect
    else if f.video_encoder_error
    then video_encoder_failed
    else encoder_refused

unfoldable pub on_first_start_failure :
    RecoveryState → StartFailure → EncoderBackend → Bool → RecoveryState × Bool
unfolding is_encoder_start_failure
on_first_start_failure s f configured x264_available =
    if not (is_encoder_start_failure f)
      || is_x264 configured
      || not x264_available
      || s.fallback_active
    then (s, false)
    else (record s { fallback_active = true }, true)

unfoldable pub effective_backend : EncoderBackend → RecoveryState → Bool → EncoderBackend
effective_backend configured s x264_available =
    if s.fallback_active && x264_available then x264 else configured
