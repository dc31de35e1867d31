-- ===== src/Recovery/Session.antt =====
-- src/core/EncoderRecovery: what holds of a whole session, whatever failures it meets.
use stream_multicast.Common.{
  ℕ, ◌+◌, ◌<◌, ◌≡◌, refl, ap, ◌∙◌, Bool, true, false, ◌&&◌, ◌||◌, not, List, [], ◌∷◌, arith,
  if◌then◌else◌, leb, All,
}
use stream_multicast.Common.Int.{ℤ, eq_ℤ, leb_ℤ}
use stream_multicast.Endpoint.{EncoderBackend}
use stream_multicast.Recovery.{
  RecoveryState, StartFailure, fresh, is_x264, on_encoder_failure, on_stop_code, on_restart_failure,
  on_live_for, on_first_start_failure, is_encoder_start_failure, encode_error, stable_live_ms,
  effective_backend,
}

-- The calls that OutputController makes on the state of one session.
pub data Event : Type 0 where
  stopped : ℤ → Event
  restart_failed : Event
  live_for : ℤ → Event
  start_failed : StartFailure → Bool → Event

unfoldable pub step : RecoveryState → EncoderBackend → Event → RecoveryState × Bool
step s configured (stopped code) = on_stop_code s code configured
step s configured restart_failed = on_restart_failure s configured
step s configured (live_for ms) = (on_live_for s ms, false)
step s configured (start_failed f available) = on_first_start_failure s f configured available

-- The state after a history, which lists its latest event first.
unfoldable pub after : EncoderBackend → List Event → RecoveryState
after configured [] = fresh
after configured (e ∷ h) = (step (after configured h) configured e).0

-- How many calls of a history reported that they switched the fallback on.
unfoldable pub switches : EncoderBackend → List Event → ℕ
switches configured [] = 0
switches configured (e ∷ h) =
    switches configured h + (if (step (after configured h) configured e).1 then 1 else 0)

abbrev pub is_stable : ℤ → Bool
is_stable ms = leb_ℤ stable_live_ms ms

-- The latest stop of the session was an encode error, and it was not stable since.
abbrev pub marked : List Event → Bool
marked [] = false
marked (stopped code ∷ h) = eq_ℤ code encode_error
marked (restart_failed ∷ h) = marked h
marked (live_for ms ∷ h) = not (is_stable ms) && marked h
marked (start_failed f a ∷ h) = marked h

-- The encode errors, and the failed restarts that follow one, since the session was last stable.
abbrev pub streak : List Event → ℕ
streak [] = 0
streak (stopped code ∷ h) = streak h + (if eq_ℤ code encode_error then 1 else 0)
streak (restart_failed ∷ h) = streak h + (if marked h then 1 else 0)
streak (live_for ms ∷ h) = if is_stable ms then 0 else streak h
streak (start_failed f a ∷ h) = streak h

abbrev refused_by_encoder : Event → Bool
refused_by_encoder (start_failed f available) = is_encoder_start_failure f && available
refused_by_encoder (stopped _) = false
refused_by_encoder restart_failed = false
refused_by_encoder (live_for _) = false

-- At some time of the history the streak reached three, or an encoder refused a start while x264
-- was available; and the endpoint is not an x264 one.
abbrev pub fell_back : EncoderBackend → List Event → Bool
fell_back configured [] = false
fell_back configured (e ∷ h) =
    fell_back configured h
    || (not (is_x264 configured) && (leb 3 (streak (e ∷ h)) || refused_by_encoder e))

abbrev pub described : EncoderBackend → List Event → RecoveryState
described configured h = record {
  failures = streak h;
  fallback_active = fell_back configured h;
  after_encode_error = marked h;
}

-- A streak of three has switched the fallback on.
streak_bound :
    (configured : EncoderBackend) (h : List Event)
    → fell_back configured h ≡ false
    → is_x264 configured ≡ false
    → streak h < 3
streak_bound c [] f x = omega arith
streak_bound c (e ∷ h) f x = ground arith

step-described :
    (configured : EncoderBackend) (e : Event) (h : List Event)
    → (step (described configured h) configured e).0 ≡ described configured (e ∷ h)
unfolding step on_stop_code on_restart_failure on_live_for on_first_start_failure on_encoder_failure
step-described c (stopped code) h = ground (arith, streak_bound c h)
step-described c restart_failed h = ground (arith, streak_bound c h)
step-described c (live_for ms) h = ground (arith, streak_bound c h)
step-described c (start_failed f a) h = ground (arith, streak_bound c h)

-- After every history of stops, failed restarts, live times and refused starts, the three fields
-- of the recovery state are those that the history describes: the failures are the encode errors
-- and the failed restarts after one since the last stable minute, the mark says that the latest
-- stop was an encode error, and the fallback is on exactly when a non-x264 endpoint once had three
-- such failures in a row or an encoder refusal of a start with x264 available.
pub after_lem :
    (configured : EncoderBackend) (h : List Event) → after configured h ≡ described configured h
unfolding after
after_lem c [] = refl
after_lem c (e ∷ h) = ap (λ s. (step s c e).0) (after_lem c h) ∙ step-described c e h

one_switch :
    (configured : EncoderBackend) (e : Event) (s : RecoveryState)
    → (if (step s configured e).1 then 1 else 0) + (if s.fallback_active then 1 else 0)
      ≡ (if (step s configured e).0.fallback_active then 1 else 0)
unfolding step on_stop_code on_restart_failure on_live_for on_first_start_failure on_encoder_failure
one_switch c (stopped code) s = ground arith
one_switch c restart_failed s = ground arith
one_switch c (live_for ms) s = ground arith
one_switch c (start_failed f a) s = ground arith

-- A session reports that it switched to x264 once if the fallback is on at its end, and never
-- otherwise: there is no second announcement and no second retry of a first start.
pub switches_lem :
    (configured : EncoderBackend) (h : List Event)
    → switches configured h ≡ (if (after configured h).fallback_active then 1 else 0)
unfolding switches after
switches_lem c [] = refl
switches_lem c (e ∷ h) = omega (arith, switches_lem c h, one_switch c e (after c h))

-- An event that says nothing of the encoder: a stop with another code than an encode error, any
-- failed restart, any live time, and a start that was not the encoder's to refuse.
abbrev pub is_network : Event → Bool
is_network (stopped code) = not (eq_ℤ code encode_error)
is_network restart_failed = true
is_network (live_for ms) = true
is_network (start_failed f a) = not (is_encoder_start_failure f)

abbrev pub AllNetwork : List Event → Type 0
AllNetwork h = All (λ e. is_network e ≡ true) h

network_described :
    (configured : EncoderBackend) (h : List Event) → AllNetwork h → described configured h ≡ fresh
network_described c [] n = refl
network_described c (stopped code ∷ h) n = ground (arith, network_described c h)
network_described c (restart_failed ∷ h) n = ground (arith, network_described c h)
network_described c (live_for ms ∷ h) n = ground (arith, network_described c h)
network_described c (start_failed f a ∷ h) n = ground (arith, network_described c h)

-- Network failures never count: after a history without an encode error and without an encoder's
-- refusal of a start, the recovery state is the fresh one and the session keeps the configured
-- backend, however many restarts failed.
pub network_never_counts :
    (configured : EncoderBackend) (h : List Event) (x264_available : Bool)
    → AllNetwork h
    → (after configured h ≡ fresh)
      × (effective_backend configured (after configured h) x264_available ≡ configured)
unfolding effective_backend
network_never_counts c h a n =
    let e = after_lem c h ∙ network_described c h n in (e, ground (arith, e))
