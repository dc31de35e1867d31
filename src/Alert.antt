-- ===== src/Alert.antt =====
-- src/core/AlertPolicy: the health alerts of the endpoints. A time of the monotonic clock is a
-- number of milliseconds, and the -1 of an unset time is `none`; a comparison of a time with a
-- difference of times is written with a sum. The two tests on doubles are functions of the
-- thresholds, and a double is its bit pattern.
pub mod Edges
pub mod Window
pub mod Hold
pub mod Sounds
pub mod Status
use stream_multicast.Common.{
  ℕ, zero, suc, ◌+◌, ◌-◌, ◌%◌, ◌^◌, Bool, true, false, ◌&&◌, ◌||◌, not, List, [], ◌∷◌, ◌++◌, Option,
  none, some, if◌then◌else◌, ◌==◌, ltb, leb, Str, codes, str_eq, any, map,
}
use stream_multicast.Common.Assoc.{Assoc, lookup, store}
use stream_multicast.Common.Int.{ℤ, pos, negsuc}
use stream_multicast.Controller.{OutputState, idle, starting, live, reconnecting, failed_hard}

pub data AlertLevel : Type 0 where
  no_level warning critical : AlertLevel

pub data ReasonIndex : Type 0 where
  k_reconnecting k_failed k_dropped k_low_bitrate : ReasonIndex

abbrev pub reason_name : ReasonIndex → Str
reason_name k_reconnecting = codes "reconnecting"
reason_name k_failed = codes "failed"
reason_name k_dropped = codes "dropped_frames"
reason_name k_low_bitrate = codes "low_bitrate"

abbrev pub reason_level : ReasonIndex → AlertLevel
reason_level k_failed = critical
reason_level k_reconnecting = warning
reason_level k_dropped = warning
reason_level k_low_bitrate = warning

pub record AlertThresholds : Type 0 where
  pub drop_window_ms : ℕ
  pub ratio_reached : ℕ → ℕ → Bool  -- dropped_delta / frames_delta >= drop_ratio
  pub drop_min_frames : ℕ
  pub below_fraction : ℕ → ℤ → Bool  -- actual < low_bitrate_fraction * target
  pub low_bitrate_hold_ms : ℕ
  pub startup_grace_ms : ℕ
  pub clear_hold_ms : ℕ

pub record AlertInput : Type 0 where
  pub endpoint_id : Str
  pub endpoint_name : Str
  pub state : OutputState
  pub target_kbps : ℤ
  pub actual_kbps : ℕ
  pub dropped_total : ℕ
  pub frames_total : ℕ
  pub now_ms : ℕ

pub record AlertTransition : Type 0 where
  pub raised : Bool
  pub level : AlertLevel
  pub reason : Str
  pub endpoint_id : Str
  pub endpoint_name : Str
  pub state : OutputState

pub record Reason : Type 0 where
  pub active : Bool
  pub false_since : Option ℕ

pub record Sample : Type 0 where
  pub t : ℕ
  pub dropped : ℕ
  pub frames : ℕ

-- `AlertPolicy::Endpoint`
pub record Tracked : Type 0 where
  pub name : Str
  pub state : OutputState
  pub live_since : Option ℕ
  pub low_since : Option ℕ
  pub window : List Sample
  pub reconnecting_reason : Reason
  pub failed_reason : Reason
  pub dropped_reason : Reason
  pub low_reason : Reason

abbrev pub reason_of : Tracked → ReasonIndex → Reason
reason_of ep k_reconnecting = ep.reconnecting_reason
reason_of ep k_failed = ep.failed_reason
reason_of ep k_dropped = ep.dropped_reason
reason_of ep k_low_bitrate = ep.low_reason

abbrev pub set_reason : Tracked → ReasonIndex → Reason → Tracked
set_reason ep k_reconnecting r = record ep { reconnecting_reason = r }
set_reason ep k_failed r = record ep { failed_reason = r }
set_reason ep k_dropped r = record ep { dropped_reason = r }
set_reason ep k_low_bitrate r = record ep { low_reason = r }

abbrev no_reason : Reason
no_reason = record { active = false; false_since = none }

abbrev pub new_tracked : Tracked
new_tracked = record {
  name = [];
  state = idle;
  live_since = none;
  low_since = none;
  window = [];
  reconnecting_reason = no_reason;
  failed_reason = no_reason;
  dropped_reason = no_reason;
  low_reason = no_reason;
}

-- An endpoint with the transitions of this tick.
abbrev pub Tick : Type 0
Tick = Tracked × List AlertTransition

abbrev pub edge_of : Bool → Str → ReasonIndex → Tracked → AlertTransition
edge_of on id idx ep = record {
  raised = on;
  level = reason_level idx;
  reason = reason_name idx;
  endpoint_id = id;
  endpoint_name = ep.name;
  state = ep.state;
}

abbrev pub switch_to : Bool → Str → ReasonIndex → Tick → Tick
switch_to on id idx (ep, out) = (
  set_reason ep idx (record { active = on; false_since = none }),
  out ++ (edge_of on id idx ep ∷ []),
)

-- `AlertPolicy::raise`
unfoldable pub raise : Str → ReasonIndex → Tick → Tick
raise id idx (ep, out) =
    if (reason_of ep idx).active then (ep, out) else switch_to true id idx (ep, out)

-- `AlertPolicy::clear`
unfoldable pub clear : Str → ReasonIndex → Tick → Tick
clear id idx (ep, out) =
    if (reason_of ep idx).active then switch_to false id idx (ep, out) else (ep, out)

-- The time that `since` holds after `if (since < 0) since = now`.
abbrev pub or_now : Option ℕ → ℕ → ℕ
or_now none now = now
or_now (some s) now = s

-- `AlertPolicy::hold_clear`
unfoldable pub hold_clear : AlertThresholds → Str → ReasonIndex → Bool → ℕ → Tick → Tick
hold_clear th id idx condition now (ep, out) =
    let r = reason_of ep idx in
    let since = or_now r.false_since now in
    let timed = set_reason ep idx (record r { false_since = some since }) in
    if not r.active
    then (ep, out)
    else if condition
    then (set_reason ep idx (record r { false_since = none }), out)
    else if leb (since + th.clear_hold_ms) now
    then clear id idx (timed, out)
    else (timed, out)

abbrev pub is_live : OutputState → Bool
is_live live = true
is_live idle = false
is_live starting = false
is_live reconnecting = false
is_live failed_hard = false

-- `live && now - live_since >= hold`
abbrev pub live_for : Tracked → ℕ → ℕ → Bool
live_for ep hold now = is_live ep.state && leb (or_now ep.live_since now + hold) now

-- Live begins, or everything that needs it is dropped.
unfoldable pub track_live : ℕ → Tracked → Tracked
track_live now ep =
    if is_live ep.state
    then record ep { live_since = some (or_now ep.live_since now) }
    else record ep { live_since = none; low_since = none; window = [] }

abbrev pub by_state : OutputState → Str → Tick → Tick
by_state reconnecting id s = raise id k_reconnecting s
by_state failed_hard id s = raise id k_failed (clear id k_reconnecting s)
by_state idle id s = s
by_state starting id s = s
by_state live id s = s

unfoldable pub state_alerts : AlertThresholds → Str → ℕ → Tick → Tick
state_alerts th id now s =
    let raised = by_state s.0.state id s in
    if live_for s.0 th.clear_hold_ms now
    then clear id k_failed (clear id k_reconnecting raised)
    else raised

abbrev pub last_sample : Sample → List Sample → Sample
last_sample a [] = a
last_sample a (b ∷ rest) = last_sample b rest

abbrev pub went_back : List Sample → AlertInput → Bool
went_back [] input = false
went_back (a ∷ rest) input =
    ltb input.dropped_total (last_sample a rest).dropped
    || ltb input.frames_total (last_sample a rest).frames

-- Drops the samples that a later one at the cutoff makes needless.
abbrev pub trim_window_from : ℕ → ℕ → Sample → List Sample → List Sample
trim_window_from drop_window now a [] = a ∷ []
trim_window_from drop_window now a (b ∷ rest) =
    let trimmed = trim_window_from drop_window now b rest in
    if leb (b.t + drop_window) now then trimmed else a ∷ b ∷ rest

abbrev pub trim_window : ℕ → ℕ → List Sample → List Sample
trim_window drop_window now [] = []
trim_window drop_window now (a ∷ rest) = trim_window_from drop_window now a rest

abbrev pub sample_of : AlertInput → Sample
sample_of input = record {
  t = input.now_ms;
  dropped = input.dropped_total;
  frames = input.frames_total;
}

-- The window after the sample of this tick.
unfoldable pub push_sample : AlertThresholds → AlertInput → List Sample → List Sample
push_sample th input window =
    trim_window th.drop_window_ms input.now_ms
      ((if went_back window input then [] else window) ++ (sample_of input ∷ []))

-- A difference of uint64_t.
abbrev pub sub_u64 : ℕ → ℕ → ℕ
sub_u64 a b = (a + (2 ^ 64 - b)) % 2 ^ 64

abbrev pub drops_between : AlertThresholds → Sample → Sample → Bool
drops_between th front back =
    let dd = sub_u64 back.dropped front.dropped in
    let df = sub_u64 back.frames front.frames in
    ltb 0 df && leb th.drop_min_frames dd && th.ratio_reached dd df

unfoldable pub window_drops : AlertThresholds → List Sample → Bool
window_drops th [] = false
window_drops th (a ∷ []) = false
window_drops th (a ∷ b ∷ rest) = drops_between th a (last_sample b rest)

-- `live && now - ep.live_since >= m_t.startup_grace_ms`
abbrev pub checked : AlertThresholds → AlertInput → Tracked → Bool
checked th input ep = live_for ep th.startup_grace_ms input.now_ms

abbrev pub sampled : AlertThresholds → AlertInput → Tracked → Bool
sampled th input ep = checked th input ep && ltb 0 input.frames_total

unfoldable pub track_window : AlertThresholds → AlertInput → Tracked → Tracked
track_window th input ep = record ep {
  window = if sampled th input ep then push_sample th input ep.window else [];
}

-- An alert with hysteresis: raised when `up`, and held while `condition`.
abbrev pub held_alert : AlertThresholds → Str → ReasonIndex → Bool → Bool → ℕ → Tick → Tick
held_alert th id idx up condition now s =
    if not (reason_of s.0 idx).active
    then (if up then raise id idx s else s)
    else hold_clear th id idx condition now s

unfoldable pub drop_alerts : AlertThresholds → AlertInput → Tick → Tick
drop_alerts th input (ep, out) =
    let grown = track_window th input ep in
    let condition = sampled th input ep && window_drops th grown.window in
    held_alert th input.endpoint_id k_dropped condition condition input.now_ms (grown, out)

abbrev pub is_positive : ℤ → Bool
is_positive (pos zero) = false
is_positive (pos (suc n)) = true
is_positive (negsuc n) = false

abbrev pub is_low : AlertThresholds → AlertInput → Tracked → Bool
is_low th input ep =
    checked th input ep
    && is_positive input.target_kbps
    && th.below_fraction input.actual_kbps input.target_kbps

abbrev pub low_for : AlertThresholds → AlertInput → Tracked → Bool
low_for th input ep = leb (or_now ep.low_since input.now_ms + th.low_bitrate_hold_ms) input.now_ms

unfoldable pub bitrate_alerts : AlertThresholds → AlertInput → Tick → Tick
bitrate_alerts th input (ep, out) =
    let low = is_low th input ep in
    let timed = record ep {
      low_since = if low then some (or_now ep.low_since input.now_ms) else none;
    } in
    held_alert th input.endpoint_id k_low_bitrate (low && low_for th input ep) low input.now_ms
      (timed, out)

abbrev pub clear_all : Str → Tick → Tick
clear_all id s =
    clear id k_low_bitrate (clear id k_dropped (clear id k_failed (clear id k_reconnecting s)))

abbrev pub reset_trackers : Tick → Tick
reset_trackers (ep, out) = (record ep { live_since = none; low_since = none; window = [] }, out)

abbrev pub is_idle_state : OutputState → Bool
is_idle_state idle = true
is_idle_state starting = false
is_idle_state live = false
is_idle_state reconnecting = false
is_idle_state failed_hard = false

-- `AlertPolicy::update` for the endpoint that it looks up.
unfoldable pub update_tracked : AlertThresholds → AlertInput → Tracked → Tick
update_tracked th input before =
    let ep = record before { name = input.endpoint_name; state = input.state } in
    let id = input.endpoint_id in
    if is_idle_state input.state
    then reset_trackers (clear_all id (ep, []))
    else bitrate_alerts th input
        (drop_alerts th input (state_alerts th id input.now_ms (track_live input.now_ms ep, [])))

-- `m_endpoints`
abbrev pub Endpoints : Type 0
Endpoints = Assoc Tracked

abbrev pub or_new : Option Tracked → Tracked
or_new none = new_tracked
or_new (some ep) = ep

-- `AlertPolicy::update`
unfoldable pub update : AlertThresholds → AlertInput → Endpoints → Endpoints × List AlertTransition
update th input endpoints =
    let (ep, out) = update_tracked th input (or_new (lookup input.endpoint_id endpoints)) in
    (store input.endpoint_id ep endpoints, out)

-- `AlertPolicy::retain_only`
unfoldable pub retain_only : List Str → Endpoints → Endpoints × List AlertTransition
retain_only keep [] = ([], [])
retain_only keep ((k, ep) ∷ rest) =
    let (kept, out) = retain_only keep rest in
    if any (λ id. str_eq id k) keep
    then ((k, ep) ∷ kept, out)
    else (kept, (clear_all k (ep, [])).1 ++ out)

-- `alert_sound_allowed`, with -1 as `none`.
abbrev pub sound_min_gap_ms : ℕ
sound_min_gap_ms = 30000

abbrev pub too_soon : Option ℕ → ℕ → Bool
too_soon none now = false
too_soon (some last) now = ltb now (last + sound_min_gap_ms)

unfoldable pub alert_sound_allowed : ℕ → Option ℕ → Bool × Option ℕ
alert_sound_allowed now last = if too_soon last now then (false, last) else (true, some now)

pub record AlertStatus : Type 0 where
  pub level : AlertLevel
  pub reasons : List Str

abbrev pub rank : AlertLevel → ℕ
rank no_level = 0
rank warning = 1
rank critical = 2

abbrev pub higher : AlertLevel → AlertLevel → AlertLevel
higher old new = if ltb (rank old) (rank new) then new else old

-- One round of the loop over the reasons.
abbrev pub add_reason : Tracked → AlertStatus → ReasonIndex → AlertStatus
add_reason ep st idx = if not (reason_of ep idx).active then st else record {
  level = higher st.level (reason_level idx);
  reasons = st.reasons ++ (reason_name idx ∷ []);
}

abbrev no_alert : AlertStatus
no_alert = record { level = no_level; reasons = [] }

abbrev pub status_of : Tracked → AlertStatus
status_of ep =
    add_reason ep
      (add_reason ep (add_reason ep (add_reason ep no_alert k_reconnecting) k_failed) k_dropped)
      k_low_bitrate

abbrev pub status_or : Option Tracked → AlertStatus
status_or none = no_alert
status_or (some ep) = status_of ep

-- `AlertPolicy::status`
unfoldable pub status : Str → Endpoints → AlertStatus
status id endpoints = status_or (lookup id endpoints)

abbrev pub highest : List Tracked → AlertLevel → AlertLevel
highest [] level = level
highest (ep ∷ rest) level = highest rest (higher level (status_of ep).level)

-- `AlertPolicy::max_level`
unfoldable pub max_level : Endpoints → AlertLevel
max_level endpoints = highest (map (λ e. e.1) endpoints) no_level
