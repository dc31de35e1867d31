-- ===== src/Tests/Alert.antt =====
-- src/core/AlertPolicy on concrete ticks (after tests/test_alert_policy.cpp).
use stream_multicast.Common.{ℕ, ◌≡◌, true, false, List, [], ◌∷◌, none, arith, codes, leb, ◌*◌}
use stream_multicast.Common.Int.{pos}
use stream_multicast.Controller.{OutputState, live, reconnecting, failed_hard}
use stream_multicast.Alert.{
  k_failed, AlertThresholds, AlertInput, Tick, new_tracked, Endpoints, window_drops,
}
use stream_multicast.Alert.Edges.{active_of, replay}
use stream_multicast.Alert.Window.{Rising, windows, exact_window_drops, window_never_wraps}
use stream_multicast.Alert.Hold.{ticks, listener_knows}

-- The thresholds by default; a bitrate is a plain number here.
abbrev thresholds : AlertThresholds
thresholds = record {
  drop_window_ms = 10000;
  ratio_reached = λ dd df. leb (2 * df) (100 * dd);
  drop_min_frames = 10;
  below_fraction = λ actual target. false;
  low_bitrate_hold_ms = 15000;
  startup_grace_ms = 10000;
  clear_hold_ms = 10000;
}

abbrev tick_of : OutputState → ℕ → ℕ → ℕ → AlertInput
tick_of st dropped frames now = record {
  endpoint_id = codes "a";
  endpoint_name = codes "A";
  state = st;
  target_kbps = pos 6000;
  actual_kbps = 6000;
  dropped_total = dropped;
  frames_total = frames;
  now_ms = now;
}

abbrev reconnects_then_fails : List AlertInput
reconnects_then_fails =
    tick_of live 0 60 1000 ∷ tick_of reconnecting 0 90 1500 ∷ tick_of failed_hard 0 90 2000 ∷ []

listener_knows_example :
    replay (active_of new_tracked) (ticks thresholds reconnects_then_fails new_tracked).1 k_failed
    ≡ active_of (ticks thresholds reconnects_then_fails new_tracked).0 k_failed
listener_knows_example = listener_knows thresholds reconnects_then_fails new_tracked k_failed

-- The counters restart at the third tick.
abbrev dropping : List AlertInput
dropping = tick_of live 3 600 20000 ∷ tick_of live 40 900 25000 ∷ tick_of live 0 30 30000 ∷ []

window_never_wraps_example :
    Rising (windows thresholds dropping [])
    × (window_drops thresholds (windows thresholds dropping [])
        ≡ exact_window_drops thresholds (windows thresholds dropping []))
window_never_wraps_example =
    window_never_wraps thresholds dropping
      ((omega arith, omega arith), ((omega arith, omega arith), ((omega arith, omega arith), tt)))

abbrev dropped_tick : Tick
dropped_tick =
    (record new_tracked { dropped_reason = record { active = true; false_since = none } }, [])

-- The connection is lost while the alert is on.
abbrev lost : List AlertInput
lost = tick_of reconnecting 40 900 2000 ∷ tick_of reconnecting 40 900 11500 ∷ []

abbrev two : Endpoints
two = (codes "a", new_tracked) ∷ (codes "b", dropped_tick.0) ∷ []
