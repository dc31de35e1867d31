-- ===== src/Canvas/Migrate.antt =====
-- src/core/CanvasMigration.cpp and OwnedCanvasPolicy.cpp: the migration of old configurations, and
-- where a migrated endpoint streams.
use stream_multicast.Common.{
  ◌≡◌, ◌⊎◌, refl, ap, inl, inr, Bool, true, false, Memᴰ, str_eq_iff, List, [], ◌∷◌, map, Option,
  none, some, arith, if◌then◌else◌, find_if, All, Str, Bool-cases, keep,
}
use stream_multicast.Common.Int.{ℤ, pos, ltb_ℤ, leb_ℤ, ◌<ℤ◌}
use stream_multicast.Endpoint.{orientation_code, Endpoint}
use stream_multicast.Canvas.{
  CanvasInfo, CanvasResolution, main, canvas, refused, resolve_canvas, lookup_canvas, has_name,
  judge, owned_canvas_name, is_legacy, migrate_legacy_orientation, MigratedEndpoint, migrate_all,
  migrate_config, OwnedCanvasAction, create, reuse, reuse_and_reset_video, decide_owned_canvas,
  OwnedCanvasDecision,
}
use stream_multicast.Canvas.Resolve.{find_if_mem, find_if-none}

-- Migrating an endpoint twice is migrating it once, the second call reports no change, and no
-- framing mode is left.
migrate_twice :
    (ep : Endpoint)
    → (migrate_legacy_orientation (migrate_legacy_orientation ep).0
        ≡ ((migrate_legacy_orientation ep).0, false))
      × (is_legacy (migrate_legacy_orientation ep).0.orientation ≡ false)
unfolding migrate_legacy_orientation
migrate_twice ep = ground arith

migrate_all-legacy :
    (eps : List Endpoint) → All (λ e. is_legacy e.orientation ≡ false) (migrate_all eps).0
unfolding migrate_all
migrate_all-legacy [] = tt
migrate_all-legacy (ep ∷ eps) = ((migrate_twice ep).1, migrate_all-legacy eps)

-- The log of a migration, read off the configuration that was loaded: the legacy endpoints, in
-- order, each with its framing mode.
abbrev pub legacy_log : List Endpoint → List MigratedEndpoint
legacy_log eps =
    map (λ e. record { name = e.name; old_orientation = orientation_code e.orientation })
      (keep (λ e. is_legacy e.orientation) eps)

migrate_all-log : (eps : List Endpoint) → (migrate_all eps).1 ≡ legacy_log eps
unfolding migrate_all migrate_legacy_orientation
migrate_all-log [] = refl
migrate_all-log (ep ∷ eps) = ground (arith, migrate_all-log eps)

no_legacy :
    (eps : List Endpoint)
    → All (λ e. is_legacy e.orientation ≡ false) eps
    → (migrate_all eps ≡ (eps, []))
unfolding migrate_all migrate_legacy_orientation
no_legacy [] h = refl
no_legacy (ep ∷ eps) h = ground (arith, no_legacy eps h.1, h.0)

-- Migrating a configuration of a schema before 2 to a later schema leaves no framing mode, logs
-- the endpoints that had one, in order and with their modes, and asks for a save; migrating its
-- result again from the same schema changes no endpoint and logs none, and from the new schema on
-- asks for no save.
pub migrate_config_lem :
    (from_version to_version : ℤ) (eps : List Endpoint)
    → from_version <ℤ to_version
    → from_version <ℤ pos 2
    → let (eps', r) = migrate_config from_version to_version eps in
      All (λ e. is_legacy e.orientation ≡ false) eps'
      × (r.migrated ≡ legacy_log eps)
      × (r.needs_save ≡ true)
      × ((migrate_config from_version to_version eps').0 ≡ eps')
      × ((migrate_config from_version to_version eps').1.migrated ≡ [])
      × ((migrate_config to_version to_version eps').1.needs_save ≡ false)
unfolding migrate_config
migrate_config_lem v w eps h k =
    let later : leb_ℤ w v ≡ false = ground arith in
    let old : ltb_ℤ v (pos 2) ≡ true = ground arith in
    let same : leb_ℤ w w ≡ true = ground arith in
    let legacy = migrate_all-legacy eps in
    let stays = no_legacy (migrate_all eps).0 legacy in
    rw (later, old, same)
      (legacy, migrate_all-log eps, refl, ap (λ r. r.0) stays, ap (λ r. r.1) stays, refl)

by_hit : Option CanvasInfo → OwnedCanvasDecision
by_hit none = record { action = create; uuid = [] }
by_hit (some c) = record {
  action = if c.has_video then reuse else reuse_and_reset_video;
  uuid = c.uuid;
}

decide-find :
    (cs : List CanvasInfo)
    → decide_owned_canvas cs ≡ by_hit (find_if (has_name owned_canvas_name) cs)
unfolding decide_owned_canvas by_hit
decide-find [] = refl
decide-find (c ∷ cs) = elim (Bool-cases (has_name owned_canvas_name c)) [
  | inl e ↦ rw e
  | inr e ↦ rw e (decide-find cs)
]

-- A canvas among those there are that has the owned canvas's name.
abbrev pub Owned : List CanvasInfo → CanvasInfo → Type 0
Owned cs c = Memᴰ c cs × (c.name ≡ owned_canvas_name)

-- What the decision about the owned canvas means for an endpoint that was migrated to it.
abbrev pub StreamsTo : List CanvasInfo → OwnedCanvasAction → Str → CanvasResolution → Type 0
StreamsTo cs create uuid r = All (λ c. has_name owned_canvas_name c ≡ false) cs × (r.kind ≡ refused)
StreamsTo cs reuse uuid r =
    (c : CanvasInfo) × Owned cs c
    × (c.uuid ≡ uuid)
    × (c.has_video ≡ true)
    × (((c.is_main ≡ false) × (r.kind ≡ canvas) × (r.uuid ≡ uuid))
        ⊎ ((c.is_main ≡ true) × (r.kind ≡ main)))
StreamsTo cs reuse_and_reset_video uuid r =
    (c : CanvasInfo) × Owned cs c
    × (c.uuid ≡ uuid)
    × (c.has_video ≡ false)
    × (((c.is_main ≡ false) × (r.kind ≡ refused)) ⊎ ((c.is_main ≡ true) × (r.kind ≡ main)))

judge-StreamsTo :
    (cs : List CanvasInfo) (o : Option CanvasInfo)
    → find_if (has_name owned_canvas_name) cs ≡ o
    → StreamsTo cs (by_hit o).action (by_hit o).uuid (judge o [] owned_canvas_name)
unfolding by_hit
judge-StreamsTo cs none e = (find_if-none (has_name owned_canvas_name) cs e, refl)
judge-StreamsTo cs (some c) e = go c.has_video c.is_main refl refl
  where
    own : Owned cs c
    own =
        let (m, t) = find_if_mem (has_name owned_canvas_name) cs c e in
        (m, (str_eq_iff c.name owned_canvas_name).0 t)

    go :
        (v m : Bool)
        → c.has_video ≡ v
        → c.is_main ≡ m
        → StreamsTo cs
            (by_hit (some c)).action
            (by_hit (some c)).uuid
            (judge (some c) [] owned_canvas_name)
    go true true v m = rw (v, m) (c, own, refl, v, inr (m, refl))
    go true false v m = rw (v, m) (c, own, refl, v, inl (m, refl, refl))
    go false true v m = rw (v, m) (c, own, refl, v, inr (m, refl))
    go false false v m = rw (v, m) (c, own, refl, v, inl (m, refl))

-- An endpoint that is migrated from a framing mode streams the very canvas that the plugin decides
-- to reuse, and is refused as long as the plugin has to give that canvas video; only if that canvas
-- is flagged as the main one does it stream the main canvas. Where the plugin has to create the
-- canvas, no canvas has its name and the endpoint is refused.
pub migrated-StreamsTo :
    (ep : Endpoint) (cs : List CanvasInfo)
    → is_legacy ep.orientation ≡ true
    → let ep' = (migrate_legacy_orientation ep).0 in
      let d = decide_owned_canvas cs in
      StreamsTo cs d.action d.uuid (resolve_canvas ep'.canvas_uuid ep'.canvas_name cs)
unfolding migrate_legacy_orientation resolve_canvas lookup_canvas
migrated-StreamsTo ep cs h =
    rw (h, decide-find cs) (judge-StreamsTo cs (find_if (has_name owned_canvas_name) cs) refl)
