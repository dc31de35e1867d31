-- ===== src/Alert/Edges.antt =====
-- src/core/AlertPolicy: the transitions that a tick returns account for the active alerts.
use stream_multicast.Common.{
  ℕ, ◌+◌, ◌≡◌, refl, sym, ◌∙◌, inl, inr, Bool, true, false, not, List, [], ◌∷◌, ◌++◌, Option, none,
  some, arith, if◌then◌else◌, Str, str_eq, leb, Bool-cases,
}
use stream_multicast.Controller.{OutputState, idle, starting, live, reconnecting, failed_hard}
use stream_multicast.Alert.{
  ReasonIndex, k_reconnecting, k_failed, k_dropped, k_low_bitrate, reason_name, AlertThresholds,
  AlertInput, AlertTransition, Tracked, reason_of, set_reason, Tick, edge_of, switch_to, raise,
  clear, or_now, hold_clear, track_live, live_for, by_state, state_alerts, track_window, held_alert,
  drop_alerts, bitrate_alerts, clear_all, reset_trackers, is_idle_state, update_tracked, is_low,
}

-- A listener that keeps the alerts that it was told of.
abbrev pub told : (ReasonIndex → Bool) → AlertTransition → ReasonIndex → Bool
told f t i = if str_eq t.reason (reason_name i) then t.raised else f i

abbrev pub replay : (ReasonIndex → Bool) → List AlertTransition → ReasonIndex → Bool
replay f [] = f
replay f (t ∷ ts) = replay (told f t) ts

abbrev pub active_of : Tracked → ReasonIndex → Bool
active_of ep i = (reason_of ep i).active

pub replay-append :
    (f : ReasonIndex → Bool) (ts : List AlertTransition) (t : AlertTransition) (i : ReasonIndex)
    → replay f (ts ++ (t ∷ [])) i ≡ told (replay f ts) t i
replay-append f [] t i = refl
replay-append f (s ∷ ts) t i = replay-append (told f s) ts t i

-- The listener agrees with the endpoint.
abbrev pub Agrees : (ReasonIndex → Bool) → Tick → Type 0
Agrees f s = (i : ReasonIndex) → replay f s.1 i ≡ active_of s.0 i

switch_told :
    (f : ReasonIndex → Bool) (on : Bool) (id : Str) (idx : ReasonIndex) (ep : Tracked)
    (i : ReasonIndex)
    → f i ≡ active_of ep i
    → (t : AlertTransition) → t.reason ≡ reason_name idx
    → t.raised ≡ on
    → told f t i ≡ active_of (set_reason ep idx (record { active = on; false_since = none })) i
unfolding str_eq
switch_told f on id idx ep i e t r o = ground (arith, e, r, o)

switch-Agrees :
    (f : ReasonIndex → Bool) (on : Bool) (id : Str) (idx : ReasonIndex) (s : Tick)
    → Agrees f s
    → Agrees f (switch_to on id idx s)
switch-Agrees f on id idx (ep, out) a i =
    replay-append f out (edge_of on id idx ep) i
    ∙ switch_told (replay f out) on id idx ep i (a i) (edge_of on id idx ep) refl refl

raise-Agrees :
    (f : ReasonIndex → Bool) (id : Str) (idx : ReasonIndex) (s : Tick)
    → Agrees f s
    → Agrees f (raise id idx s)
unfolding raise
raise-Agrees f id idx (ep, out) a = elim (Bool-cases (reason_of ep idx).active) [
  | inl e ↦ rw e a
  | inr e ↦ rw e (switch-Agrees f true id idx (ep, out) a)
]

clear-Agrees :
    (f : ReasonIndex → Bool) (id : Str) (idx : ReasonIndex) (s : Tick)
    → Agrees f s
    → Agrees f (clear id idx s)
unfolding clear
clear-Agrees f id idx (ep, out) a = elim (Bool-cases (reason_of ep idx).active) [
  | inl e ↦ rw e (switch-Agrees f false id idx (ep, out) a)
  | inr e ↦ rw e a
]

-- A change of the timer of a reason.
timed_active :
    (ep : Tracked) (idx i : ReasonIndex) (since : Option ℕ)
    → active_of (set_reason ep idx (record (reason_of ep idx) { false_since = since })) i
      ≡ active_of ep i
timed_active ep idx i since = ground arith

timed-Agrees :
    (f : ReasonIndex → Bool) (ep : Tracked) (out : List AlertTransition) (idx : ReasonIndex)
    (since : Option ℕ)
    → Agrees f (ep, out)
    → Agrees f (set_reason ep idx (record (reason_of ep idx) { false_since = since }), out)
timed-Agrees f ep out idx since a i = a i ∙ sym (timed_active ep idx i since)

if-Agrees :
    (f : ReasonIndex → Bool) (b : Bool) (s r : Tick)
    → Agrees f s
    → Agrees f r
    → Agrees f (if b then s else r)
if-Agrees f true s r a c = a
if-Agrees f false s r a c = c

hold_clear-Agrees :
    (f : ReasonIndex → Bool) (th : AlertThresholds) (id : Str) (idx : ReasonIndex) (c : Bool)
    (now : ℕ) (s : Tick)
    → Agrees f s
    → Agrees f (hold_clear th id idx c now s)
unfolding hold_clear
hold_clear-Agrees f th id idx c now (ep, out) a =
    if-Agrees f (not (reason_of ep idx).active) (ep, out) _ a
      (if-Agrees f c (timed none) _ (timed-Agrees f ep out idx none a) (
        if-Agrees f (leb (since + th.clear_hold_ms) now) (clear id idx (timed (some since)))
          (timed (some since))
          (clear-Agrees f id idx (timed (some since)) (timed-Agrees f ep out idx (some since) a))
          (timed-Agrees f ep out idx (some since) a)))
  where
    since : ℕ
    since = or_now (reason_of ep idx).false_since now

    timed : Option ℕ → Tick
    timed t = (set_reason ep idx (record (reason_of ep idx) { false_since = t }), out)

by_state-Agrees :
    (f : ReasonIndex → Bool) (st : OutputState) (id : Str) (s : Tick)
    → Agrees f s
    → Agrees f (by_state st id s)
by_state-Agrees f reconnecting id s a = raise-Agrees f id k_reconnecting s a
by_state-Agrees f failed_hard id s a =
    raise-Agrees f id k_failed (clear id k_reconnecting s) (clear-Agrees f id k_reconnecting s a)
by_state-Agrees f idle id s a = a
by_state-Agrees f starting id s a = a
by_state-Agrees f live id s a = a

state_alerts-Agrees :
    (f : ReasonIndex → Bool) (th : AlertThresholds) (id : Str) (now : ℕ) (s : Tick)
    → Agrees f s
    → Agrees f (state_alerts th id now s)
unfolding state_alerts
state_alerts-Agrees f th id now s a =
    if-Agrees f (live_for s.0 th.clear_hold_ms now) _ raised
      (clear-Agrees f id k_failed (clear id k_reconnecting raised)
        (clear-Agrees f id k_reconnecting raised agrees))
      agrees
  where
    raised : Tick
    raised = by_state s.0.state id s

    agrees : Agrees f raised
    agrees = by_state-Agrees f s.0.state id s a

held_alert-Agrees :
    (f : ReasonIndex → Bool) (th : AlertThresholds) (id : Str) (idx : ReasonIndex) (up c : Bool)
    (now : ℕ) (s : Tick)
    → Agrees f s
    → Agrees f (held_alert th id idx up c now s)
held_alert-Agrees f th id idx up c now s a =
    if-Agrees f (not (reason_of s.0 idx).active) _ _
      (if-Agrees f up _ s (raise-Agrees f id idx s a) a) (hold_clear-Agrees f th id idx c now s a)

-- A change of the trackers changes no alert.
drop_alerts-Agrees :
    (f : ReasonIndex → Bool) (th : AlertThresholds) (input : AlertInput) (s : Tick)
    → Agrees f s
    → Agrees f (drop_alerts th input s)
unfolding drop_alerts track_window
drop_alerts-Agrees f th input (ep, out) a =
    held_alert-Agrees f th input.endpoint_id k_dropped _ _ input.now_ms
      (track_window th input ep, out) (λ i. a i ∙ same i)
  where
    same : (i : ReasonIndex) → active_of ep i ≡ active_of (track_window th input ep) i
    same i = ground arith

bitrate_alerts-Agrees :
    (f : ReasonIndex → Bool) (th : AlertThresholds) (input : AlertInput) (s : Tick)
    → Agrees f s
    → Agrees f (bitrate_alerts th input s)
unfolding bitrate_alerts
bitrate_alerts-Agrees f th input (ep, out) a =
    held_alert-Agrees f th input.endpoint_id k_low_bitrate _ _ input.now_ms (timed, out)
      (λ i. a i ∙ same i)
  where
    timed : Tracked
    timed = record ep {
      low_since = if is_low th input ep then some (or_now ep.low_since input.now_ms) else none;
    }

    same : (i : ReasonIndex) → active_of ep i ≡ active_of timed i
    same i = ground arith

pub clear_all-Agrees :
    (f : ReasonIndex → Bool) (id : Str) (s : Tick) → Agrees f s → Agrees f (clear_all id s)
clear_all-Agrees f id s a = clear-Agrees f id k_low_bitrate _ (
    clear-Agrees f id k_dropped _
      (clear-Agrees f id k_failed _ (clear-Agrees f id k_reconnecting s a)))

reset-Agrees : (f : ReasonIndex → Bool) (s : Tick) → Agrees f s → Agrees f (reset_trackers s)
reset-Agrees f (ep, out) a i = a i ∙ same i
  where
    same : (i : ReasonIndex) → active_of ep i ≡ active_of (reset_trackers (ep, out)).0 i
    same i = ground arith

-- A listener that knew the active alerts before a tick knows them after it from the transitions
-- that the tick returned.
pub update_tracked-Agrees :
    (th : AlertThresholds) (input : AlertInput) (before : Tracked)
    → Agrees (active_of before) (update_tracked th input before)
unfolding update_tracked track_live
update_tracked-Agrees th input before =
    if-Agrees f (is_idle_state input.state) _ _
      (reset-Agrees f (clear_all id (ep, [])) (clear_all-Agrees f id (ep, []) named))
      (bitrate_alerts-Agrees f th input (drop_alerts th input stated) (
        drop_alerts-Agrees f th input stated
          (state_alerts-Agrees f th id input.now_ms (track_live input.now_ms ep, []) tracked)))
  where
    id : Str
    id = input.endpoint_id

    f : ReasonIndex → Bool
    f = active_of before

    ep : Tracked
    ep = record before { name = input.endpoint_name; state = input.state }

    stated : Tick
    stated = state_alerts th id input.now_ms (track_live input.now_ms ep, [])

    named : Agrees f (ep, [])
    named i = ground arith

    tracked : Agrees f (track_live input.now_ms ep, [])
    tracked i = ground arith
