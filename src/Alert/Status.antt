-- ===== src/Alert/Status.antt =====
-- src/core/AlertPolicy: what the policy reports of its endpoints.
use stream_multicast.Common.{
  ◌≡◌, ap, Bool, true, false, ◌&&◌, ◌||◌, not, List, [], ◌∷◌, arith, Str, str_eq, any, map, Option,
  none, some, sym, ◌∙◌, inl, inr, Bool-cases, str_eq→eq, if◌then◌else◌, refl,
}
use stream_multicast.Alert.{
  AlertLevel, no_level, warning, critical, k_reconnecting, k_failed, k_dropped, k_low_bitrate,
  AlertThresholds, AlertInput, Tracked, higher, status_of, status, status_or, highest, max_level,
  Endpoints, or_new, update, update_tracked, retain_only,
}
use stream_multicast.Common.Assoc.{lookup, store-lookup, other-store}
use stream_multicast.Alert.Edges.{active_of}

abbrev pub is_critical : AlertLevel → Bool
is_critical critical = true
is_critical no_level = false
is_critical warning = false

abbrev pub is_none_level : AlertLevel → Bool
is_none_level no_level = true
is_none_level warning = false
is_none_level critical = false

status-level :
    (ep : Tracked)
    → (is_critical (status_of ep).level ≡ active_of ep k_failed)
      × (is_none_level (status_of ep).level
          ≡ not (
              active_of ep k_reconnecting
              || active_of ep k_failed
              || active_of ep k_dropped
              || active_of ep k_low_bitrate))
status-level ep = ground arith

higher-critical : (a b : AlertLevel) → is_critical (higher a b) ≡ (is_critical a || is_critical b)
higher-critical a b = ground arith

higher-none : (a b : AlertLevel) → is_none_level (higher a b) ≡ (is_none_level a && is_none_level b)
higher-none a b = ground arith

abbrev pub has_alert : Tracked → Bool
has_alert ep =
    active_of ep k_reconnecting
    || active_of ep k_failed
    || active_of ep k_dropped
    || active_of ep k_low_bitrate

highest_lem :
    (eps : List Tracked) (level : AlertLevel)
    → (is_critical (highest eps level)
        ≡ (is_critical level || any (λ ep. active_of ep k_failed) eps))
      × (is_none_level (highest eps level) ≡ (is_none_level level && not (any has_alert eps)))
highest_lem [] level = ground arith
highest_lem (ep ∷ eps) level = ground (
  arith,
  highest_lem eps (higher level (status_of ep).level),
  higher-critical level (status_of ep).level,
  higher-none level (status_of ep).level,
  status-level ep,
)

-- The highest level is critical exactly if some endpoint has failed, and none exactly if no
-- endpoint has an active alert.
pub max_level_lem :
    (endpoints : Endpoints)
    → (is_critical (max_level endpoints)
        ≡ any (λ ep. active_of ep k_failed) (map (λ e. e.1) endpoints))
      × (is_none_level (max_level endpoints) ≡ not (any has_alert (map (λ e. e.1) endpoints)))
unfolding max_level
max_level_lem endpoints = highest_lem (map (λ e. e.1) endpoints) no_level

-- A tick of one endpoint sets its status to that of the endpoint after the tick, and leaves the
-- status of every other one.
pub update-status :
    (th : AlertThresholds) (input : AlertInput) (endpoints : Endpoints) (other : Str)
    → str_eq input.endpoint_id other ≡ false
    → (status input.endpoint_id (update th input endpoints).0
        ≡ status_of (update_tracked th input (or_new (lookup input.endpoint_id endpoints))).0)
      × (status other (update th input endpoints).0 ≡ status other endpoints)
unfolding update status
update-status th input endpoints other n = (
  ap status_or (store-lookup input.endpoint_id after endpoints),
  ap status_or (other-store input.endpoint_id other after endpoints n),
)
  where
    after : Tracked
    after = (update_tracked th input (or_new (lookup input.endpoint_id endpoints))).0

abbrev is_kept : List Str → Str → Bool
is_kept keep k = any (λ id. str_eq id k) keep

skip_other :
    (k id : Str) (b : Bool) (ep : Tracked) (found : Option Tracked)
    → (str_eq k id ≡ true → b ≡ false)
    → (if b then found else none) ≡ (if b then (if str_eq k id then some ep else found) else none)
skip_other k id false ep found n = refl
skip_other k id true ep found n = elim (Bool-cases (str_eq k id)) [
  | inl e ↦ absurd (ground (arith, n e))
  | inr e ↦ rw e refl
]

-- After retain_only(keep) an endpoint is found as before if its id is in `keep`, and not found
-- otherwise.
pub retain_only-lookup :
    (keep : List Str) (endpoints : Endpoints) (id : Str)
    → lookup id (retain_only keep endpoints).0
      ≡ (if any (λ k. str_eq k id) keep then lookup id endpoints else none)
unfolding retain_only lookup
retain_only-lookup keep [] id = ground arith
retain_only-lookup keep ((k, ep) ∷ rest) id = elim (Bool-cases (is_kept keep k)) [
  | inl e ↦ elim (Bool-cases (str_eq k id)) [
    | inl s ↦
        rw (e, s)
          (sym (
            ap (λ b. if b then some ep else none) (ap (is_kept keep) (sym (str_eq→eq k id s)) ∙ e)))
    | inr s ↦ rw (e, s) (retain_only-lookup keep rest id)
  ]
  | inr e ↦ rw e (
      retain_only-lookup keep rest id
      ∙ skip_other k id (is_kept keep id) ep (lookup id rest)
          (λ s. ap (is_kept keep) (sym (str_eq→eq k id s)) ∙ e))
]
