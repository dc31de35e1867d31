-- ===== src/Controller/Backoff.antt =====
-- src/pipeline/OutputController.cpp: the schedule of the reconnects and the number of attempts.
use stream_multicast.Common.{
  ℕ, zero, suc, ◌+◌, ◌≤◌, ◌<◌, ◌≡◌, ◌≢◌, ◌⊎◌, refl, subst, ◌-◌, ◌∙◌, inl, inr, Bool, [], ◌∷◌,
  Option, none, some, arith, Str,
}
use stream_multicast.Common.Int.{ℤ, pos}
use stream_multicast.Recovery.{
  StartFailure, RecoveryState, on_stop_code, stop_before_live, failure_of,
}
use stream_multicast.Controller.{
  Controller, no_video, main_video, canvas_video, reconnect_delay_seconds, schedule, entry, clamped,
  encoder_fallback_switched_locked, first_start_fallback_locked, swap_canvas_locked,
  do_release_encoders_locked,
}
use stream_multicast.Controller.Session.{
  start_enter, start_take_thread, start_resume, fail_hard, set_state, publish_output, create_failed,
  publish_start, start_refused_section, canvas_gone, flag_stop, stop_detach, shutdown_detach,
  on_start_signal, live_time, after_live, reconnect_section, handle_stop, handle_stop_spawn,
}
use stream_multicast.Controller.Reconnect.{
  Thread, fail_session, count_restart_failure, thread_head, thread_wake, thread_release,
  thread_reattach, thread_guard, thread_resolve, thread_create, thread_connect, thread_publish,
  thread_launch,
}
use stream_multicast.Controller.World.Control.{starts_over}
use stream_multicast.Controller.World.{
  World, Ui, at_rest, taking, Step, ThreadStep, UiStep, captures, heads, wakes, releases,
  reattaches, guards, resolves, creates, connects, publishes, launches, refuses, no_output, reuses,
  encoder_fails, canvas_removed, publishes_start, launched, refused_start, re_encoder_fails,
  re_encodes, ui_steps, start_begins, start_flags, start_takes, start_joins, start_creates,
  stop_begins, canvas_goes, stop_is_idle, stop_disconnects, stop_finds_idle, stop_detaches, retires,
  goes_live, stop_signal, stop_reconnects, spawns, spawns_nothing, runs, tears_down,
  shutdown_claims, shutdown_disconnects, shutdown_detaches,
}

tail_entry : (i : ℕ) → (1 ≤ entry (60 ∷ []) i 30) × (entry (60 ∷ []) i 30 ≤ 60)
tail_entry zero = ground arith
tail_entry (suc i) = ground arith

delay_entry : (i : ℕ) → (1 ≤ clamped schedule i) × (clamped schedule i ≤ 60)
delay_entry zero = ground arith
delay_entry (suc zero) = ground arith
delay_entry (suc (suc zero)) = ground arith
delay_entry (suc (suc (suc zero))) = ground arith
delay_entry (suc (suc (suc (suc zero)))) = ground arith
delay_entry (suc (suc (suc (suc (suc i))))) = tail_entry i

delay_step : (i : ℕ) → clamped schedule i ≤ clamped schedule (suc i)
delay_step zero = ground arith
delay_step (suc zero) = ground arith
delay_step (suc (suc zero)) = ground arith
delay_step (suc (suc (suc zero))) = ground arith
delay_step (suc (suc (suc (suc zero)))) = ground arith
delay_step (suc (suc (suc (suc (suc i))))) = (tail_entry i).1

delay_mono : (i d j : ℕ) → i + d ≡ j → clamped schedule i ≤ clamped schedule j
delay_mono i zero j e =
    subst (λ x. clamped schedule i ≤ clamped schedule x) (omega arith)
      (le_refl (clamped schedule i))
  where
    le_refl : (n : ℕ) → n ≤ n
    le_refl n = omega arith
delay_mono i (suc d) j e =
    subst (λ x. clamped schedule i ≤ clamped schedule x) grown
      (omega (arith, delay_mono i d (i + d) refl, delay_step (i + d)))
  where
    grown : suc (i + d) ≡ j
    grown = omega arith

-- Two delays in seconds, in order and within a minute.
pub record Delays (limit attempt later : ℕ) : Type 0 where
  pub first : ℕ
  pub second : ℕ
  pub is_first : reconnect_delay_seconds attempt limit ≡ pos first
  pub is_second : reconnect_delay_seconds later limit ≡ pos second
  pub least : 1 ≤ first
  pub ordered : first ≤ second
  pub most : second ≤ 60

-- Below the limit the delays are seconds from 1 to 60, and a later attempt waits no less.
pub delay_lem :
    (limit attempt later : ℕ) → attempt ≤ later → later < limit → Delays limit attempt later
unfolding reconnect_delay_seconds
delay_lem limit attempt later le lt = record {
  first = clamped schedule attempt;
  second = clamped schedule later;
  is_first = ground arith;
  is_second = ground arith;
  least = (delay_entry attempt).0;
  ordered = delay_mono attempt (later - attempt) later (omega arith);
  most = (delay_entry later).1;
}

count-attempt :
    (c : Controller) (x : Bool)
    → (count_restart_failure c x).reconnect_attempt ≡ c.reconnect_attempt
unfolding count_restart_failure encoder_fallback_switched_locked
count-attempt c x = ground arith

ThreadStep-attempt :
    {c : Controller} {x : Thread} {r : Controller × Thread}
    → ThreadStep c x r
    → c.reconnect_attempt ≤ r.0.reconnect_attempt
unfolding fail_session thread_head thread_wake thread_release thread_reattach thread_guard
    thread_resolve thread_create thread_connect thread_publish thread_launch swap_canvas_locked
    do_release_encoders_locked
ThreadStep-attempt captures = ground arith
ThreadStep-attempt (heads o) = ground arith
ThreadStep-attempt (wakes o) = ground arith
ThreadStep-attempt (releases o) = ground arith
ThreadStep-attempt (reattaches o i) = ground arith
ThreadStep-attempt (guards o x) = ground arith
ThreadStep-attempt (resolves o b (no_video r)) = ground arith
ThreadStep-attempt (resolves o b main_video) = ground arith
ThreadStep-attempt (resolves o b (canvas_video h u n)) = ground arith
ThreadStep-attempt (creates o b rv (some v) (some a) x) = ground arith
ThreadStep-attempt {c} (creates o b rv (some v) none x) = ground (arith, count-attempt c x)
ThreadStep-attempt {c} (creates o b rv none a x) = ground (arith, count-attempt c x)
ThreadStep-attempt (connects o v a rv r) = ground arith
ThreadStep-attempt (publishes o v a rv) = ground arith
ThreadStep-attempt {c} (launches o s x) = ground (arith, count-attempt c x)

first_start-attempt :
    (c : Controller) (f : StartFailure) (x : Bool)
    → (first_start_fallback_locked c f x).0.reconnect_attempt ≡ c.reconnect_attempt
unfolding first_start_fallback_locked
first_start-attempt c f x = ground arith

UiStep-attempt :
    {c : Controller} {u : Ui} {d : Controller} {u' : Ui}
    → UiStep c u d u'
    → d.reconnect_attempt ≡ c.reconnect_attempt
unfolding fail_hard set_state create_failed publish_start start_refused_section swap_canvas_locked
    do_release_encoders_locked first_start_fallback_locked
UiStep-attempt (refuses reason) = ground arith
UiStep-attempt (no_output e) = ground arith
UiStep-attempt (reuses o e) = ground arith
UiStep-attempt (encoder_fails o v x reason) = ground arith
UiStep-attempt (canvas_removed o reason) = ground arith
UiStep-attempt (publishes_start o v a rv) = ground arith
UiStep-attempt (launched o) = ground arith
UiStep-attempt (refused_start o r x) = ground arith
UiStep-attempt (re_encoder_fails o v x reason) = ground arith
UiStep-attempt (re_encodes o v a) = ground arith

after_live-attempt :
    (m : Option ℤ) (c : Controller) → (after_live m c).reconnect_attempt ≡ c.reconnect_attempt
after_live-attempt none c = refl
after_live-attempt (some t) c = refl

switched-attempt :
    (c : Controller) (s x : Bool)
    → (encoder_fallback_switched_locked c s x).0.reconnect_attempt ≡ c.reconnect_attempt
unfolding encoder_fallback_switched_locked
switched-attempt c s x = ground arith

reconnect_section-attempt :
    (c : Controller) (code : ℤ) (x : Bool) (now : ℤ)
    → (reconnect_section c code x now).reconnect_attempt ≡ c.reconnect_attempt
unfolding reconnect_section
reconnect_section-attempt c code x now =
    switched-attempt (record c2 { recovery = judged.0 }) judged.1 x
    ∙ after_live-attempt (live_time c.state c.connected_since now) (starts_over c code x)
    ∙ ground
        (arith, first_start-attempt c (record (failure_of stop_before_live) { stop_code = code }) x)
  where
    c2 : Controller
    c2 = after_live (live_time c.state c.connected_since now) (starts_over c code x)

    judged : RecoveryState × Bool
    judged = on_stop_code c2.recovery code c2.backend

handle_stop-attempt :
    (c : Controller) (code : ℤ) (err : Str) (x : Bool) (now : ℤ)
    → (handle_stop c code err x now).0.reconnect_attempt ≡ c.reconnect_attempt
unfolding handle_stop set_state fail_hard
handle_stop-attempt c code err x now = ground (arith, reconnect_section-attempt c code x now)

-- Only start() gives the attempts back.
pub Step-attempt :
    {w v : World}
    → Step w v
    → (w.ctrl.reconnect_attempt ≤ v.ctrl.reconnect_attempt) ⊎ ((w.ui ≡ at_rest) × (v.ui ≡ taking))
unfolding start_enter start_take_thread start_resume publish_output canvas_gone flag_stop
    stop_detach shutdown_detach on_start_signal handle_stop_spawn
Step-attempt (ui_steps x) = inl (omega (arith, UiStep-attempt x))
Step-attempt (start_begins a b c) = inr (a, refl)
Step-attempt (start_flags a) = ground arith
Step-attempt (start_takes a) = ground arith
Step-attempt (start_joins a j) = ground arith
Step-attempt (start_creates s a e) = ground arith
Step-attempt (stop_begins a b e) = ground arith
Step-attempt (stop_is_idle a b e) = ground arith
Step-attempt (canvas_goes a b) = ground arith
Step-attempt (stop_disconnects a b) = ground arith
Step-attempt (stop_finds_idle a b) = ground arith
Step-attempt (stop_detaches a b) = ground arith
Step-attempt (retires a b) = ground arith
Step-attempt (goes_live n a) = ground arith
Step-attempt {w} (stop_signal c e x n a b d) =
    inl (omega (arith, handle_stop-attempt w.ctrl c e x n))
Step-attempt {w} (stop_reconnects c e x n a b d) =
    inl (omega (arith, handle_stop-attempt w.ctrl c e x n))
Step-attempt (spawns a j b) = ground arith
Step-attempt (spawns_nothing a j b) = ground arith
Step-attempt (runs t x) = inl (ThreadStep-attempt x)
Step-attempt (tears_down j a b) = ground arith
Step-attempt (shutdown_claims a b) = ground arith
Step-attempt (shutdown_disconnects a b) = ground arith
Step-attempt (shutdown_detaches a) = ground arith

-- The steps between two calls of start().
pub data Within (w : World) : World → Type 0 where
  stays : Within w w
  goes_on : {u v : World} → Within w u → Step u v → (u.ui ≡ at_rest → v.ui ≢ taking) → Within w v
