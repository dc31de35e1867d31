-- ===== src/Controller/Settle.antt =====
-- src/pipeline/OutputController.cpp: what a refused start and a stop signal leave behind.
use stream_multicast.Common.{
  ℕ, ◌≡◌, ◌↔◌, ◌⊎◌, any, [], ◌∷◌, refl, Bool, true, false, Option, none, some, arith, if◌then◌else◌,
  Str, is_empty,
}
use stream_multicast.Common.Int.{ℤ, pos, negsuc, eq_ℤ}
use stream_multicast.Recovery.{StartFailure, on_first_start_failure, failure_of, encoder_create}
use stream_multicast.Controller.{
  OutputState, idle, starting, live, reconnecting, failed_hard, Controller, is_hard_fail_code,
  hard_fail_message, first_start_fallback_locked, do_release_encoders_locked,
}
use stream_multicast.Controller.World.{
  Ui, encoding, re_encoding, failed_or, UiStep, refuses, no_output, reuses, encoder_fails,
  canvas_removed, publishes_start, launched, refused_start, re_encoder_fails, re_encodes,
}
use stream_multicast.Controller.Session.{
  publish_start, fail_hard, set_state, Refusal, refusal_failure, start_refused_section,
  create_failed, reconnect_section, handle_stop,
}

abbrev is_reconnecting : OutputState → Bool
is_reconnecting reconnecting = true
is_reconnecting idle = false
is_reconnecting starting = false
is_reconnecting live = false
is_reconnecting failed_hard = false

-- The stop codes of libobs that end a session for good: a bad path, an invalid stream, an
-- unsupported output, no space left, HDR disabled.
abbrev pub is_final : ℤ → Bool
is_final code = any (eq_ℤ code) (negsuc 0 ∷ negsuc 2 ∷ negsuc 5 ∷ negsuc 6 ∷ negsuc 8 ∷ [])

-- The answer of handle_stop(): the state, the thread to join and the message.
pub record Settles (c : Controller) (code : ℤ) (obs_error : Str)
    (r : Controller × Option (Option ℕ)) : Type 0 where
  pub fails : (r.0.state ≡ failed_hard) ↔ (is_final code ≡ true)
  pub idles :
      (r.0.state ≡ idle)
      ↔ ((eq_ℤ code (pos 0) ≡ true) ⊎ ((is_final code ≡ false) × (c.shutdown_done ≡ true)))
  pub reconnects :
      (r.0.state ≡ reconnecting)
      ↔ ((eq_ℤ code (pos 0) ≡ false) × (is_final code ≡ false) × (c.shutdown_done ≡ false))
  pub thread : r.1 ≡ (if is_reconnecting r.0.state then some c.reconnect_thread else none)
  pub explained : r.0.state ≡ failed_hard → is_empty r.0.last_error ≡ false
  pub quoted : r.0.state ≡ failed_hard → is_empty obs_error ≡ false → r.0.last_error ≡ obs_error
  pub silent : r.0.state ≡ idle → r.0.last_error ≡ c.last_error

message_nonempty : (code : ℤ) → is_empty (hard_fail_message code) ≡ false
unfolding hard_fail_message
message_nonempty code = ground arith

section_state :
    (c : Controller) (code : ℤ) (x : Bool) (now : ℤ)
    → (reconnect_section c code x now).state ≡ reconnecting
unfolding reconnect_section
section_state c code x now = refl

final_same : (code : ℤ) → is_hard_fail_code code ≡ is_final code
unfolding is_hard_fail_code
final_same code = ground arith

-- The code of a clean stop is no final one.
clean_stop : (code : ℤ) → eq_ℤ code (pos 0) ≡ true → is_final code ≡ false
clean_stop code e = ground (arith, e)

-- What a stop signal leaves behind, for every code. Exactly the final codes fail the endpoint, with
-- the error of the output if it has one and else with a message. After a clean stop, or any other
-- stop once the controller is shut down, it is idle and its error text is kept. In all other cases
-- it reconnects, and exactly then the call goes on to join the stale thread.
pub handle_stop-Settles :
    (c : Controller) (code : ℤ) (obs_error : Str) (x264_registered : Bool) (now : ℤ)
    → Settles c code obs_error (handle_stop c code obs_error x264_registered now)
unfolding handle_stop set_state fail_hard
handle_stop-Settles c code err x now =
    ground
      (arith, section_state c code x now, message_nonempty code, final_same code, clean_stop code)

fallback_set :
    (c : Controller) (f : StartFailure) (x : Bool)
    → (first_start_fallback_locked c f x).1 ≡ true
    → (first_start_fallback_locked c f x).0.recovery.fallback_active ≡ true
unfolding first_start_fallback_locked on_first_start_failure
fallback_set c f x e = ground arith

no_retry_after :
    (c : Controller) (f : StartFailure) (x : Bool)
    → c.recovery.fallback_active ≡ true
    → (first_start_fallback_locked c f x).1 ≡ false
unfolding first_start_fallback_locked on_first_start_failure
no_retry_after c f x e = ground arith

refused_sets :
    (c : Controller) (r : Refusal) (x : Bool)
    → (start_refused_section c r x).1 ≡ true
    → (start_refused_section c r x).0.recovery.fallback_active ≡ true
unfolding start_refused_section
refused_sets c r x e =
    ground (arith, fallback_set (do_release_encoders_locked c) (refusal_failure r) x)

created_sets :
    (c : Controller) (video_failed x : Bool)
    → (create_failed c video_failed x).1 ≡ true
    → (create_failed c video_failed x).0.recovery.fallback_active ≡ true
unfolding create_failed
created_sets c v x e = ground (arith, fallback_set c (failure_of encoder_create) x)

-- The end of a start that its fallback does not save.
pub record GivesUp (c : Controller) (r : Refusal) (x video_failed : Bool) : Type 0 where
  pub no_retry : (start_refused_section c r x).1 ≡ false
  pub failed : (start_refused_section c r x).0.state ≡ failed_hard
  pub explained : is_empty (start_refused_section c r x).0.last_error ≡ false
  pub no_encoder_retry : (create_failed c video_failed x).1 ≡ false

gives_up :
    (c : Controller) (r : Refusal) (x v : Bool)
    → c.recovery.fallback_active ≡ true
    → GivesUp c r x v
unfolding start_refused_section create_failed do_release_encoders_locked
gives_up c r x v e = ground (
  arith,
  no_retry_after (do_release_encoders_locked c) (refusal_failure r) x e,
  no_retry_after c (failure_of encoder_create) x e,
)

-- start() tries again, with x264, after an output that was refused or an encoder that was not
-- created: where it goes on, with the output that it works on.
pub data Retried (c : Controller) (o : ℕ) : Controller → Ui → Type 0 where
  after_output :
      (r : Refusal) (x264_registered : Bool)
      → (start_refused_section c r x264_registered).1 ≡ true
      → Retried c o (start_refused_section c r x264_registered).0 (re_encoding o)
  after_encoder :
      (video_failed x264_registered : Bool)
      → (create_failed c video_failed x264_registered).1 ≡ true
      → Retried c o (create_failed c video_failed x264_registered).0 (encoding o)
  after_re_encoder :
      (video_failed x264_registered : Bool)
      → (create_failed c video_failed x264_registered).1 ≡ true
      → Retried c o (create_failed c video_failed x264_registered).0 (re_encoding o)

-- The sections that start() runs from there on: new encoders, the canvas, further failures.
pub data Continues (c : Controller) (u : Ui) : Controller → Ui → Type 0 where
  at_once : Continues c u c u
  then_runs : {d e : Controller} {v w : Ui} → Continues c u d v → UiStep d v e w → Continues c u e w

fallback_kept :
    (c : Controller) (f : StartFailure) (x : Bool)
    → c.recovery.fallback_active ≡ true
    → (first_start_fallback_locked c f x).0.recovery.fallback_active ≡ true
unfolding first_start_fallback_locked on_first_start_failure
fallback_kept c f x e = ground arith

created_keeps :
    (c : Controller) (video_failed x : Bool) (reason : Str)
    → c.recovery.fallback_active ≡ true
    → (failed_or (create_failed c video_failed x) reason).recovery.fallback_active ≡ true
unfolding create_failed
created_keeps c true x reason e =
    or_failed (first_start_fallback_locked c (failure_of encoder_create) x)
      (fallback_kept c (failure_of encoder_create) x e)
  where
    or_failed :
        (s : Controller × Bool)
        → s.0.recovery.fallback_active ≡ true
        → (failed_or s reason).recovery.fallback_active ≡ true
    or_failed (d, true) h = h
    or_failed (d, false) h = h
created_keeps c false x reason e = e

refused_keeps :
    (c : Controller) (r : Refusal) (x : Bool)
    → c.recovery.fallback_active ≡ true
    → (start_refused_section c r x).0.recovery.fallback_active ≡ true
unfolding start_refused_section
refused_keeps c r x e =
    ground (arith, fallback_kept (do_release_encoders_locked c) (refusal_failure r) x)

UiStep-fallback :
    {c d : Controller} {u v : Ui}
    → UiStep c u d v
    → c.recovery.fallback_active ≡ true
    → d.recovery.fallback_active ≡ true
unfolding fail_hard set_state publish_start
UiStep-fallback (refuses reason) e = e
UiStep-fallback (no_output n) e = e
UiStep-fallback (reuses o s) e = e
UiStep-fallback {c} (encoder_fails o v x reason) e = created_keeps c v x reason e
UiStep-fallback (canvas_removed o reason) e = e
UiStep-fallback (publishes_start o v a rv) e = e
UiStep-fallback (launched o) e = e
UiStep-fallback {c} (refused_start o r x) e = refused_keeps c r x e
UiStep-fallback {c} (re_encoder_fails o v x reason) e = created_keeps c v x reason e
UiStep-fallback (re_encodes o v a) e = e

Retried-fallback :
    {c d : Controller} {o : ℕ} {u : Ui} → Retried c o d u → d.recovery.fallback_active ≡ true
Retried-fallback {c} (after_output r x e) = refused_sets c r x e
Retried-fallback {c} (after_encoder v x e) = created_sets c v x e
Retried-fallback {c} (after_re_encoder v x e) = created_sets c v x e

Continues-fallback :
    {c : Controller} {u : Ui} {d : Controller} {v : Ui}
    → Continues c u d v
    → c.recovery.fallback_active ≡ true
    → d.recovery.fallback_active ≡ true
Continues-fallback at_once e = e
Continues-fallback (then_runs more step) e = UiStep-fallback step (Continues-fallback more e)

-- start() retries once: when it tried again and went on through any of its sections, among them
-- the one that makes the encoders anew, a further failure of either kind is not retried, and a
-- refused output then fails the endpoint with a message.
pub start_retries_once :
    {c d e : Controller} {o : ℕ} {u v : Ui}
    → Retried c o d u
    → Continues d u e v
    → (r : Refusal) (x264_registered video_failed : Bool) → GivesUp e r x264_registered video_failed
start_retries_once {e = e} retried more r y v =
    gives_up e r y v (Continues-fallback more (Retried-fallback retried))
