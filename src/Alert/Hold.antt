-- ===== src/Alert/Hold.antt =====
-- src/core/AlertPolicy: what holds over a run of ticks: the hysteresis of an alert and what a
-- listener knows.
use stream_multicast.Common.{
  ℕ, ◌+◌, ◌≡◌, refl, ap, ◌∙◌, Bool, false, ◌&&◌, not, List, [], ◌∷◌, ◌++◌, none, some, arith,
  if◌then◌else◌, leb,
}
use stream_multicast.Alert.{
  ReasonIndex, AlertThresholds, AlertInput, AlertTransition, Reason, Tracked, Tick, or_now,
  track_live, state_alerts, track_window, sampled, window_drops, is_idle_state, update_tracked,
}
use stream_multicast.Alert.Edges.{told, replay, active_of, Agrees, update_tracked-Agrees}

-- What a tick at which the condition is false does to the reason of an active alert.
abbrev fall : AlertThresholds → ℕ → Reason → Reason
fall th now r =
    if not r.active
    then r
    else if leb (or_now r.false_since now + th.clear_hold_ms) now
    then record { active = false; false_since = none }
    else record r { false_since = some (or_now r.false_since now) }

abbrev falls : AlertThresholds → List ℕ → Reason → Reason
falls th [] r = r
falls th (now ∷ times) r = falls th times (fall th now r)

-- The transitions of a run of ticks of one endpoint, and the endpoint after it.
abbrev pub ticks : AlertThresholds → List AlertInput → Tracked → Tick
ticks th [] ep = (ep, [])
ticks th (input ∷ inputs) ep =
    let (later, out) = ticks th inputs (update_tracked th input ep).0 in
    (later, (update_tracked th input ep).1 ++ out)

-- update() looks for dropped frames in the window that it has just grown.
abbrev pub sees_drops : AlertThresholds → AlertInput → Tracked → Bool
sees_drops th input before =
    let ep = record before { name = input.endpoint_name; state = input.state } in
    let s = state_alerts th input.endpoint_id input.now_ms (track_live input.now_ms ep, []) in
    sampled th input s.0 && window_drops th (track_window th input s.0).window

-- A run of ticks at which the endpoint is not idle and no dropped frames are seen.
abbrev pub IsQuiet : AlertThresholds → List AlertInput → Tracked → Type 0
IsQuiet th [] ep = Unit {0}
IsQuiet th (input ∷ inputs) ep =
    (is_idle_state input.state ≡ false)
    × (sees_drops th input ep ≡ false)
    × IsQuiet th inputs (update_tracked th input ep).0

replay_both :
    (f : ReasonIndex → Bool) (ts us : List AlertTransition)
    → replay f (ts ++ us) ≡ replay (replay f ts) us
replay_both f [] us = refl
replay_both f (t ∷ ts) us = replay_both (told f t) ts us

replay_ext :
    (f g : ReasonIndex → Bool) (ts : List AlertTransition)
    → ((i : ReasonIndex) → f i ≡ g i)
    → (i : ReasonIndex) → replay f ts i ≡ replay g ts i
replay_ext f g [] e i = e i
replay_ext f g (t ∷ ts) e i = replay_ext (told f t) (told g t) ts (λ j. ground (arith, e j)) i

-- A listener that follows the transitions of any run of ticks knows the active alerts after it.
pub listener_knows :
    (th : AlertThresholds) (inputs : List AlertInput) (ep : Tracked)
    → Agrees (active_of ep) (ticks th inputs ep)
listener_knows th [] ep i = refl
listener_knows th (input ∷ inputs) ep i =
    ap (λ f. f i) (replay_both (active_of ep) tick.1 (ticks th inputs tick.0).1)
    ∙ replay_ext _ (active_of tick.0) (ticks th inputs tick.0).1 (update_tracked-Agrees th input ep)
        i
    ∙ listener_knows th inputs tick.0 i
  where
    tick : Tick
    tick = update_tracked th input ep
