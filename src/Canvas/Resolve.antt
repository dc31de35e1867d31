-- ===== src/Canvas/Resolve.antt =====
-- src/core/CanvasResolve.cpp: what a resolved canvas reference means.
use stream_multicast.Common.{
  ◌≡◌, ◌⊎◌, refl, sym, inl, inr, Bool, true, false, ◌&&◌, List, [], ◌∷◌, Memᴰ, Option, none, some,
  arith, find_if, All, is_empty, Str, str_eq_iff, Bool-cases,
}
use stream_multicast.Canvas.{
  CanvasInfo, Kind, main, canvas, refused, has_uuid, has_name, or_by_name, lookup_canvas, judge,
  resolve_canvas,
}

-- The canvas that a reference means: by its uuid, or by its name where no canvas has that uuid.
abbrev pub Refers : Str → Str → List CanvasInfo → CanvasInfo → Type 0
Refers ref_uuid ref_name canvases c =
    Memᴰ c canvases
    × (((is_empty ref_uuid ≡ false) × (c.uuid ≡ ref_uuid))
        ⊎ ((is_empty ref_name ≡ false)
            × (c.name ≡ ref_name)
            × ((is_empty ref_uuid ≡ true) ⊎ All (λ d. has_uuid ref_uuid d ≡ false) canvases)))

-- No canvas has the uuid or the name of the reference; an empty one counts for nothing.
abbrev pub Dangles : Str → Str → List CanvasInfo → Type 0
Dangles ref_uuid ref_name canvases =
    ((is_empty ref_uuid ≡ true) ⊎ All (λ d. has_uuid ref_uuid d ≡ false) canvases)
    × ((is_empty ref_name ≡ true) ⊎ All (λ d. has_name ref_name d ≡ false) canvases)

pub find_if_mem {ℓ} :
    {A : Type ℓ} (p : A → Bool) (xs : List A) (x : A)
    → find_if p xs ≡ some x
    → Memᴰ x xs × (p x ≡ true)
find_if_mem p [] x h = absurd (ground (arith, h))
find_if_mem p (y ∷ xs) x h = elim (Bool-cases (p y)) [
  | inl e ↦ let same : y ≡ x = ground (arith, e) in (Memᴰ.head (sym same), rw same at e)
  | inr e ↦ let (m, t) = find_if_mem p xs x (ground (arith, e)) in (Memᴰ.tail m, t)
]

pub find_if-none {ℓ} :
    {A : Type ℓ} (p : A → Bool) (xs : List A) → find_if p xs ≡ none → All (λ x. p x ≡ false) xs
find_if-none p [] h = tt
find_if-none p (y ∷ xs) h = elim (Bool-cases (p y)) [
  | inl e ↦ absurd (ground (arith, e))
  | inr e ↦ (e, find_if-none p xs (ground (arith, e)))
]

abbrev Finds : Str → Str → List CanvasInfo → Option CanvasInfo → Type 0
Finds u n cs none = Dangles u n cs
Finds u n cs (some c) = Refers u n cs c

name-Finds :
    (u n : Str) (cs : List CanvasInfo)
    → ((is_empty u ≡ true) ⊎ All (λ d. has_uuid u d ≡ false) cs)
    → Finds u n cs (or_by_name none n cs)
name-Finds u [] cs miss = (miss, inl refl)
name-Finds u (b ∷ n) cs miss = go (find_if (has_name (b ∷ n)) cs) refl
  where
    go : (o : Option CanvasInfo) → find_if (has_name (b ∷ n)) cs ≡ o → Finds u (b ∷ n) cs o
    go none e = (miss, inr (find_if-none (has_name (b ∷ n)) cs e))
    go (some c) e =
        let (m, t) = find_if_mem (has_name (b ∷ n)) cs c e in
        (m, inr (refl, (str_eq_iff c.name (b ∷ n)).0 t, miss))

lookup-Finds : (u n : Str) (cs : List CanvasInfo) → Finds u n cs (lookup_canvas u n cs)
unfolding lookup_canvas
lookup-Finds [] n cs = name-Finds [] n cs (inl refl)
lookup-Finds (b ∷ u) n cs = go (find_if (has_uuid (b ∷ u)) cs) refl
  where
    go :
        (o : Option CanvasInfo)
        → find_if (has_uuid (b ∷ u)) cs ≡ o
        → Finds (b ∷ u) n cs (or_by_name o n cs)
    go none e = name-Finds (b ∷ u) n cs (inr (find_if-none (has_uuid (b ∷ u)) cs e))
    go (some c) e =
        let (m, t) = find_if_mem (has_uuid (b ∷ u)) cs c e in
        (m, inl (refl, (str_eq_iff c.uuid (b ∷ u)).0 t))

-- What each kind of resolution says of the reference and of the canvases.
abbrev pub Means : Str → Str → List CanvasInfo → Kind → Str → Str → Type 0
Means u n cs main uuid name =
    ((is_empty u ≡ true) × (is_empty n ≡ true))
    ⊎ ((c : CanvasInfo) × Refers u n cs c × (c.is_main ≡ true))
Means u n cs canvas uuid name =
    (c : CanvasInfo) × Refers u n cs c
    × (c.is_main ≡ false)
    × (c.has_video ≡ true)
    × (c.uuid ≡ uuid)
    × (c.name ≡ name)
Means u n cs refused uuid name =
    (is_empty u && is_empty n ≡ false)
    × (Dangles u n cs
        ⊎ ((c : CanvasInfo) × Refers u n cs c × (c.is_main ≡ false) × (c.has_video ≡ false)))

judge-Means :
    (u n : Str) (cs : List CanvasInfo) (o : Option CanvasInfo)
    → is_empty u && is_empty n ≡ false
    → Finds u n cs o
    → Means u n cs (judge o u n).kind (judge o u n).uuid (judge o u n).name
judge-Means u n cs none e d = (e, inl d)
judge-Means u n cs (some c) e r = elim (Bool-cases c.is_main) [
  | inl m ↦ rw m (inr (c, r, m))
  | inr m ↦ elim (Bool-cases c.has_video) [
    | inl v ↦ rw (m, v) (c, r, m, v, refl, refl)
    | inr v ↦ rw (m, v) (e, inr (c, r, m, v))
  ]
]

-- The resolution of a canvas reference is right in each of its three outcomes. It is the main
-- canvas only for the empty reference or one to the canvas flagged main; it is a canvas, with its
-- uuid and name, only if the reference means that canvas, which is not main and has a video mix;
-- and it is refused only if the reference is not empty and means no canvas at all or one without
-- video. A reference means the canvas with its uuid, and the one with its name only where no canvas
-- has the uuid.
pub resolve_canvas-Means :
    (ref_uuid ref_name : Str) (canvases : List CanvasInfo)
    → let r = resolve_canvas ref_uuid ref_name canvases in
      Means ref_uuid ref_name canvases r.kind r.uuid r.name
unfolding resolve_canvas
resolve_canvas-Means [] [] cs = inl (refl, refl)
resolve_canvas-Means [] (b ∷ n) cs = judge-Means [] (b ∷ n) cs _ refl (lookup-Finds [] (b ∷ n) cs)
resolve_canvas-Means (a ∷ u) n cs = judge-Means (a ∷ u) n cs _ refl (lookup-Finds (a ∷ u) n cs)
