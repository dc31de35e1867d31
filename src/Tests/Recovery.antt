-- ===== src/Tests/Recovery.antt =====
-- src/core/EncoderRecovery on concrete sessions (after tests/test_encoder_recovery.cpp).
use stream_multicast.Common.{◌≡◌, refl, true, false, List, [], ◌∷◌}
use stream_multicast.Common.Int.{pos}
use stream_multicast.Endpoint.{nvenc}
use stream_multicast.Recovery.{
  StartFailure, start_refused, encode_error, failure_of, on_encoder_failure, on_stop_code,
  on_restart_failure, on_live_for,
}
use stream_multicast.Recovery.Session.{
  Event, stopped, restart_failed, live_for, step, after, described, after_lem,
}

-- An encode error and two failed restarts, the latest first.
abbrev three_failures : List Event
three_failures = restart_failed ∷ restart_failed ∷ stopped encode_error ∷ []

three_failures_fall_back : (after nvenc three_failures).fallback_active ≡ true
unfolding after step on_stop_code on_restart_failure on_encoder_failure
three_failures_fall_back = refl

-- A stable minute in between starts the count anew.
interrupted_stays :
    (after nvenc (
      restart_failed
      ∷ live_for (pos 60000)
      ∷ restart_failed
      ∷ stopped encode_error
      ∷ [])).fallback_active
    ≡ false
unfolding after step on_stop_code on_restart_failure on_encoder_failure on_live_for
interrupted_stays = refl

after_lem_example : after nvenc three_failures ≡ described nvenc three_failures
after_lem_example = after_lem nvenc three_failures

-- The encoder refused: the service is attached and could connect.
abbrev refusal : StartFailure
refusal = record (failure_of start_refused) { service_ready = true }
