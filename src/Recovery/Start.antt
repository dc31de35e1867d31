-- ===== src/Recovery/Start.antt =====
-- src/core/EncoderRecovery: how a refused first start is classified.
use stream_multicast.Common.{◌≡◌, ◌↔◌, ◌⊎◌, Bool, true, false, arith}
use stream_multicast.Endpoint.{EncoderBackend, x264}
use stream_multicast.Recovery.{
  RecoveryState, StartFailure, start_refused, RefusalReason, video_encoder_failed, encoder_refused,
  is_x264, is_encoder_start_failure, start_refusal_reason, on_first_start_failure,
  effective_backend,
}

-- The facts that OutputController gathers about an output that refused to start: the service is
-- asked whether it can connect only when the output is not active, and a missing service cannot.
abbrev pub IsGathered : StartFailure → Type 0
IsGathered f =
    (f.kind ≡ start_refused)
    × (f.service_ready ≡ true → f.output_active ≡ false)
    × (f.service_ready ≡ true → f.service_attached ≡ true)

-- The reasons that name the encoder.
abbrev pub names_encoder : RefusalReason → Bool
names_encoder video_encoder_failed = true
names_encoder encoder_refused = true
names_encoder _ = false

-- The reason that is logged and the decision to retry agree: for facts gathered as the controller
-- gathers them, a reason that names the encoder means an encoder failure; and an encoder failure
-- whose reason names something else has a service attached and a video encoder that reported an
-- error itself.
pub reason_agrees :
    (f : StartFailure)
    → IsGathered f
    → (names_encoder (start_refusal_reason f) ≡ true → is_encoder_start_failure f ≡ true)
      × (is_encoder_start_failure f ≡ true
          → (names_encoder (start_refusal_reason f) ≡ true)
            ⊎ ((f.service_attached ≡ true) × (f.video_encoder_error ≡ true)))
unfolding start_refusal_reason is_encoder_start_failure
reason_agrees f g = ground arith

-- A retry of the first start is made exactly when the encoder refused it, the endpoint is not an
-- x264 one, x264 is registered and no fallback was on; and the session then runs on x264, which no
-- second refusal retries.
pub retry_iff :
    (s : RecoveryState) (f g : StartFailure) (configured : EncoderBackend) (available : Bool)
    → ((on_first_start_failure s f configured available).1 ≡ true ↔ (
        (is_encoder_start_failure f ≡ true)
        × (is_x264 configured ≡ false)
        × (available ≡ true)
        × (s.fallback_active ≡ false)))
      × ((on_first_start_failure s f configured available).1 ≡ true
          → (effective_backend configured
                (on_first_start_failure s f configured available).0
                available
              ≡ x264)
            × ((on_first_start_failure
                  (on_first_start_failure s f configured available).0
                  g
                  configured
                  available).1
                ≡ false))
unfolding on_first_start_failure effective_backend
retry_iff s f g configured available = ground arith
