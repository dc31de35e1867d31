-- ===== src/Tests/Canvas.antt =====
-- src/core/CanvasResolve, CanvasMigration and OwnedCanvasPolicy on concrete canvases (after
-- tests/test_canvas_resolve.cpp and test_canvas_owned.cpp).
use stream_multicast.Common.{◌≡◌, refl, true, false, List, [], ◌∷◌, Str, codes, str_eq}
use stream_multicast.Endpoint.{Endpoint, make_default, letterbox}
use stream_multicast.Canvas.{
  CanvasInfo, resolve_canvas, owned_canvas_name, migrate_legacy_orientation, decide_owned_canvas,
  VideoGeometry,
}
use stream_multicast.Canvas.Resolve.{Means, resolve_canvas-Means}
use stream_multicast.Canvas.Migrate.{StreamsTo, migrated-StreamsTo}

abbrev owned : CanvasInfo
owned = record { uuid = codes "u-2"; name = owned_canvas_name; has_video = true; is_main = false }

abbrev snapshot : List CanvasInfo
snapshot =
    record { uuid = codes "u-1"; name = codes "Main"; has_video = true; is_main = true }
    ∷ owned
    ∷ []

found_by_name : (resolve_canvas (codes "gone") owned_canvas_name snapshot).uuid ≡ codes "u-2"
unfolding resolve_canvas str_eq
found_by_name = refl

resolve_canvas-Means_example :
    let r = resolve_canvas (codes "gone") owned_canvas_name snapshot in
    Means (codes "gone") owned_canvas_name snapshot r.kind r.uuid r.name
resolve_canvas-Means_example = resolve_canvas-Means (codes "gone") owned_canvas_name snapshot

abbrev legacy : Endpoint
legacy = record (make_default (codes "1") (codes "TikTok")) { orientation = letterbox }

migrated-StreamsTo_example :
    let ep' = (migrate_legacy_orientation legacy).0 in
    let d = decide_owned_canvas snapshot in
    StreamsTo snapshot d.action d.uuid (resolve_canvas ep'.canvas_uuid ep'.canvas_name snapshot)
migrated-StreamsTo_example = migrated-StreamsTo legacy snapshot refl

abbrev at_60 : VideoGeometry
at_60 = record {
  base_width = 1920;
  base_height = 1080;
  output_width = 1920;
  output_height = 1080;
  fps_num = 60;
  fps_den = 1;
}

abbrev bound : List (Str × Str)
bound = (codes "a", codes "u-1") ∷ (codes "b", codes "u-2") ∷ []
