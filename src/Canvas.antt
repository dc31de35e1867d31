-- ===== src/Canvas.antt =====
-- src/core/CanvasResolve, CanvasMigration and OwnedCanvasPolicy (.hpp and .cpp): which canvas an
-- endpoint streams, the migration of the removed framing modes to a canvas, and the canvas that the
-- plugin owns. A snapshot of the OBS canvases is an argument, as in the source.
pub mod Resolve
pub mod Migrate
pub mod Geometry
use stream_multicast.Common.{
  ℕ, ◌*◌, ◌%◌, ◌^◌, Bool, true, false, ◌&&◌, ◌||◌, not, List, [], ◌∷◌, ◌++◌, Option, none, some,
  if◌then◌else◌, ltb, leb, ◌==◌, find_if, is_empty, Str, codes, str_eq,
}
use stream_multicast.Common.Int.{ℤ, pos, negsuc, ltb_ℤ, leb_ℤ}
use stream_multicast.Endpoint.{
  orientation_code, Endpoint, OutputOrientation, source_match, letterbox, center_crop,
  other_orientation,
}

pub record CanvasInfo : Type 0 where
  pub uuid : Str
  pub name : Str
  pub has_video : Bool
  pub is_main : Bool

pub data Kind : Type 0 where
  main canvas refused : Kind

pub record CanvasResolution : Type 0 where
  pub kind : Kind
  pub uuid : Str
  pub name : Str
  pub reason : Str

-- `CanvasResolution res;`
abbrev pub to_main : CanvasResolution
to_main = record { kind = main; uuid = []; name = []; reason = [] }

abbrev pub refuse : Str → CanvasResolution
refuse why = record { kind = refused; uuid = []; name = []; reason = why }

abbrev pub has_uuid : Str → CanvasInfo → Bool
has_uuid u c = str_eq c.uuid u

abbrev pub has_name : Str → CanvasInfo → Bool
has_name n c = str_eq c.name n

-- the search by the uuid, and if it finds nothing by the name
abbrev pub or_by_name : Option CanvasInfo → Str → List CanvasInfo → Option CanvasInfo
or_by_name (some c) ref_name canvases = some c
or_by_name none ref_name canvases =
    if is_empty ref_name then none else find_if (has_name ref_name) canvases

unfoldable pub lookup_canvas : Str → Str → List CanvasInfo → Option CanvasInfo
lookup_canvas ref_uuid ref_name canvases =
    or_by_name (if is_empty ref_uuid then none else find_if (has_uuid ref_uuid) canvases) ref_name
      canvases

-- what stands behind the two searches
abbrev pub judge : Option CanvasInfo → Str → Str → CanvasResolution
judge none ref_uuid ref_name = refuse (
    codes "canvas '" ++ ((if is_empty ref_name then ref_uuid else ref_name) ++ codes "' not found"))
judge (some hit) ref_uuid ref_name =
    if hit.is_main
    then to_main
    else if not hit.has_video
    then refuse (
        codes "canvas '"
        ++ ((if is_empty hit.name then hit.uuid else hit.name) ++ codes "' has no video mix"))
    else record { kind = canvas; uuid = hit.uuid; name = hit.name; reason = [] }

unfoldable pub resolve_canvas : Str → Str → List CanvasInfo → CanvasResolution
unfolding lookup_canvas
resolve_canvas ref_uuid ref_name canvases =
    if is_empty ref_uuid && is_empty ref_name
    then to_main
    else judge (lookup_canvas ref_uuid ref_name canvases) ref_uuid ref_name

-- `kOwnedVerticalCanvasName`
abbrev pub owned_canvas_name : Str
owned_canvas_name = codes "StreamMulticast Vertical"

abbrev pub is_legacy : OutputOrientation → Bool
is_legacy letterbox = true
is_legacy center_crop = true
is_legacy source_match = false
is_legacy (other_orientation n) = false

unfoldable pub migrate_legacy_orientation : Endpoint → Endpoint × Bool
migrate_legacy_orientation ep = if not (is_legacy ep.orientation) then (ep, false) else (
  record ep { orientation = source_match; canvas_uuid = []; canvas_name = owned_canvas_name },
  true,
)

pub record MigratedEndpoint : Type 0 where
  pub name : Str
  pub old_orientation : ℤ

pub record ConfigMigrationResult : Type 0 where
  pub migrated : List MigratedEndpoint
  pub needs_save : Bool

-- The loop of `migrate_config` over the endpoints, which it changes in place.
unfoldable pub migrate_all : List Endpoint → List Endpoint × List MigratedEndpoint
migrate_all [] = ([], [])
migrate_all (ep ∷ eps) =
    let (rest, log) = migrate_all eps in
    let (ep', changed) = migrate_legacy_orientation ep in
    (
      ep' ∷ rest,
      if changed
          then record { name = ep'.name; old_orientation = orientation_code ep.orientation } ∷ log
          else log,
    )

unfoldable pub migrate_config : ℤ → ℤ → List Endpoint → List Endpoint × ConfigMigrationResult
migrate_config from_version to_version endpoints =
    if leb_ℤ to_version from_version
    then (endpoints, record { migrated = []; needs_save = false })
    else if ltb_ℤ from_version (pos 2)
    then (
      (migrate_all endpoints).0,
      record { migrated = (migrate_all endpoints).1; needs_save = true },
    )
    else (endpoints, record { migrated = []; needs_save = true })

pub data OwnedCanvasAction : Type 0 where
  create reuse reuse_and_reset_video : OwnedCanvasAction

pub record OwnedCanvasDecision : Type 0 where
  pub action : OwnedCanvasAction
  pub uuid : Str

unfoldable pub decide_owned_canvas : List CanvasInfo → OwnedCanvasDecision
decide_owned_canvas [] = record { action = create; uuid = [] }
decide_owned_canvas (c ∷ canvases) =
    let rest = decide_owned_canvas canvases in
    if not (str_eq c.name owned_canvas_name)
    then rest
    else record { action = if c.has_video then reuse else reuse_and_reset_video; uuid = c.uuid }

-- The fields are `uint32_t`.
pub record VideoGeometry : Type 0 where
  pub base_width : ℕ
  pub base_height : ℕ
  pub output_width : ℕ
  pub output_height : ℕ
  pub fps_num : ℕ
  pub fps_den : ℕ

unfoldable pub derive_vertical_geometry : VideoGeometry → VideoGeometry
derive_vertical_geometry main_video = record {
  base_width = 1080;
  base_height = 1920;
  output_width = 1080;
  output_height = 1920;
  fps_num = main_video.fps_num;
  fps_den = main_video.fps_den;
}

unfoldable pub endpoints_to_stop_on_canvas_removed : List (Str × Str) → Str → List Str
endpoints_to_stop_on_canvas_removed [] removed_uuid = []
endpoints_to_stop_on_canvas_removed ((id, uuid) ∷ ps) removed_uuid =
    let rest = endpoints_to_stop_on_canvas_removed ps removed_uuid in
    if is_empty removed_uuid then [] else if str_eq uuid removed_uuid then id ∷ rest else rest

abbrev pub u64 : ℕ → ℕ
u64 n = n % 2 ^ 64

unfoldable pub owned_canvas_fps_stale : VideoGeometry → VideoGeometry → Bool
owned_canvas_fps_stale own main_video =
    if own.fps_num == 0 || own.fps_den == 0 || main_video.fps_num == 0 || main_video.fps_den == 0
    then false
    else not (u64 (own.fps_num * main_video.fps_den) == u64 (main_video.fps_num * own.fps_den))
