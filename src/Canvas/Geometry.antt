-- ===== src/Canvas/Geometry.antt =====
-- src/core/OwnedCanvasPolicy.cpp: the frame rate of the owned canvas, and what stops with a canvas.
use stream_multicast.Common.{
  ℕ, ◌*◌, ◌^◌, ◌<◌, ◌≡◌, ◌≢◌, ◌↔◌, refl, sym, ap, inl, inr, true, false, List, [], ◌∷◌, Memᴰ, arith,
  is_empty, Str, str_eq, str_eq_iff, Bool-cases, Mem-cons_cases,
}
use stream_multicast.Canvas.{
  VideoGeometry, derive_vertical_geometry, owned_canvas_fps_stale,
  endpoints_to_stop_on_canvas_removed,
}

-- The two 32-bit rates of a geometry.
abbrev pub IsU32 : VideoGeometry → Type 0
IsU32 g = (g.fps_num < 2 ^ 32) × (g.fps_den < 2 ^ 32)

product_fits : (a b : ℕ) → a < 2 ^ 32 → b < 2 ^ 32 → a * b < 2 ^ 64
product_fits a b ha hb = grind arith

-- The frame rate is stale exactly when both rates are known and differ as ratios, without overflow
-- for any 32-bit values; and right after the canvas is given the geometry that is derived from the
-- main one it is not stale.
pub stale_iff :
    (own main_video : VideoGeometry)
    → IsU32 own
    → IsU32 main_video
    → ((owned_canvas_fps_stale own main_video ≡ true) ↔ (
        (own.fps_num ≢ 0)
        × (own.fps_den ≢ 0)
        × (main_video.fps_num ≢ 0)
        × (main_video.fps_den ≢ 0)
        × (own.fps_num * main_video.fps_den ≢ main_video.fps_num * own.fps_den)))
      × (owned_canvas_fps_stale (derive_vertical_geometry main_video) main_video ≡ false)
unfolding owned_canvas_fps_stale derive_vertical_geometry
stale_iff own main_video h k = (
  ground (
    arith,
    product_fits own.fps_num main_video.fps_den h.0 k.1,
    product_fits main_video.fps_num own.fps_den k.0 h.1,
  ),
  ground arith,
)

stop_sound :
    (ps : List (Str × Str)) (removed : Str) {id : Str}
    → Memᴰ id (endpoints_to_stop_on_canvas_removed ps removed)
    → (is_empty removed ≡ false) × Memᴰ (id, removed) ps
unfolding endpoints_to_stop_on_canvas_removed
stop_sound [] removed m = elim m [ ]
stop_sound ((i, u) ∷ ps) [] m = elim m [ ]
stop_sound ((i, u) ∷ ps) (b ∷ removed) m = elim (Bool-cases (str_eq u (b ∷ removed))) [
  | inl e ↦ elim (Mem-cons_cases (rw e at m)) [
    | inl same ↦ (refl, Memᴰ.head (λ k. (same k, sym ((str_eq_iff u (b ∷ removed)).0 e) k)))
    | inr rest ↦ (refl, Memᴰ.tail (stop_sound ps (b ∷ removed) rest).1)
  ]
  | inr e ↦ let (n, t) = stop_sound ps (b ∷ removed) (rw e at m) in (n, Memᴰ.tail t)
]

stop_complete :
    (ps : List (Str × Str)) (removed : Str) {id : Str}
    → is_empty removed ≡ false
    → Memᴰ (id, removed) ps
    → Memᴰ id (endpoints_to_stop_on_canvas_removed ps removed)
unfolding endpoints_to_stop_on_canvas_removed
stop_complete [] removed n m = elim m [ ]
stop_complete ((i, u) ∷ ps) removed n (Memᴰ.head e) =
    let same : str_eq u removed ≡ true = (str_eq_iff u removed).1 (sym (ap (λ p. p.1) e)) in
    rw (n, same) (Memᴰ.head (ap (λ p. p.0) e))
stop_complete ((i, u) ∷ ps) removed n (Memᴰ.tail m) = elim (Bool-cases (str_eq u removed)) [
  | inl e ↦ rw (n, e) (Memᴰ.tail (stop_complete ps removed n m))
  | inr e ↦ rw (n, e) (stop_complete ps removed n m)
]

-- An endpoint is stopped when a canvas is removed exactly if it is bound to that canvas, and an
-- empty uuid stops none.
pub stop_iff :
    (ps : List (Str × Str)) (removed id : Str)
    → Memᴰ id (endpoints_to_stop_on_canvas_removed ps removed)
      ↔ ((is_empty removed ≡ false) × Memᴰ (id, removed) ps)
stop_iff ps removed id = (stop_sound ps removed, λ h. stop_complete ps removed h.0 h.1)
