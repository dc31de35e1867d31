-- ===== src/ItemActions/Copy/Collect.antt =====
-- src/core/ItemActions.cpp: the scenes that plan_copy_transform() collects, with their hits.
use stream_multicast.Common.{
  ◌≡◌, refl, sym, ap, subst, ◌∙◌, inl, inr, Bool, true, false, ◌&&◌, not, ◌||◌, List, [], ◌∷◌, ◌++◌,
  if◌then◌else◌, Str, str_eq, str_eq→eq, str_eq_refl, str_eq_comm, keep, any, All, arith,
  Bool-cases,
}
use stream_multicast.ItemActions.Copy.{SceneItemRef, SceneHits, is_hit, add_hit, collect}

keep-append :
    (p : SceneItemRef → Bool) (xs : List SceneItemRef) (c : SceneItemRef)
    → keep p (xs ++ (c ∷ [])) ≡ keep p xs ++ (if p c then c ∷ [] else [])
keep-append p [] c = elim (Bool-cases (p c)) [ inl e ↦ rw e refl | inr e ↦ rw e refl ]
keep-append p (x ∷ xs) c = elim (Bool-cases (p x)) [
  | inl e ↦ rw e (ap (◌∷◌ x) (keep-append p xs c))
  | inr e ↦ rw e (keep-append p xs c)
]

append_nothing : (xs : List SceneItemRef) → xs ++ [] ≡ xs
append_nothing [] = refl
append_nothing (x ∷ xs) = ap (◌∷◌ x) (append_nothing xs)

abbrev pub has_uuid : Str → SceneHits → Bool
has_uuid u s = str_eq s.uuid u

abbrev pub Distinct : List SceneHits → Type 0
Distinct [] = Unit
Distinct (s ∷ scenes) = (any (has_uuid s.uuid) scenes ≡ false) × Distinct scenes

add_hit-any :
    (u : Str) (scenes : List SceneHits) (c : SceneItemRef)
    → any (has_uuid u) (add_hit scenes c) ≡ (any (has_uuid u) scenes || str_eq c.scene_uuid u)
unfolding add_hit
add_hit-any u [] c = ground arith
add_hit-any u (s ∷ scenes) c = elim (Bool-cases (str_eq s.uuid c.scene_uuid)) [
  | inl e ↦ rw e (
      swap (str_eq s.uuid u) (any (has_uuid u) scenes) (str_eq c.scene_uuid u)
        (ap (λ x. str_eq x u) (str_eq→eq s.uuid c.scene_uuid e)))
  | inr e ↦ rw e (
      ap (λ b. str_eq s.uuid u || b) (add_hit-any u scenes c)
      ∙ assoc (str_eq s.uuid u) (any (has_uuid u) scenes) (str_eq c.scene_uuid u))
]
  where
    swap : (a b d : Bool) → a ≡ d → (a || b) ≡ ((a || b) || d)
    swap true b d e = refl
    swap false b true e = ground (arith, e)
    swap false true false e = refl
    swap false false false e = refl

    assoc : (a b d : Bool) → (a || (b || d)) ≡ ((a || b) || d)
    assoc true b d = refl
    assoc false b d = refl

add_hit-Distinct :
    (scenes : List SceneHits) (c : SceneItemRef) → Distinct scenes → Distinct (add_hit scenes c)
unfolding add_hit
add_hit-Distinct [] c d = (refl, tt)
add_hit-Distinct (s ∷ scenes) c d = elim (Bool-cases (str_eq s.uuid c.scene_uuid)) [
  | inl e ↦ rw e d
  | inr e ↦ rw e (
    add_hit-any s.uuid scenes c
        ∙ ap (λ b. b || str_eq c.scene_uuid s.uuid) d.0
        ∙ str_eq_comm c.scene_uuid s.uuid
        ∙ e,
    add_hit-Distinct scenes c d.1,
  )
]

-- Of the candidates that were looked at, the hits in a scene.
module _ (source_uuid origin : Str) where
  abbrev pub hits_in : Str → List SceneItemRef → List SceneItemRef
  hits_in u seen =
      keep
        (λ c.
          (str_eq c.source_uuid source_uuid && not (str_eq c.scene_uuid origin))
          && str_eq c.scene_uuid u)
        seen

  abbrev pub IsFull : List SceneItemRef → SceneHits → Type 0
  IsFull seen s = s.items ≡ hits_in s.uuid seen

  hit_elsewhere :
      (seen : List SceneItemRef) (c : SceneItemRef) (u : Str)
      → (is_hit source_uuid origin c && str_eq c.scene_uuid u) ≡ false
      → hits_in u (seen ++ (c ∷ [])) ≡ hits_in u seen
  hit_elsewhere seen c u e =
      keep-append (λ x. is_hit source_uuid origin x && str_eq x.scene_uuid u) seen c
      ∙ ap (λ b. hits_in u seen ++ (if b then c ∷ [] else [])) e
      ∙ append_nothing (hits_in u seen)

  hit_here :
      (seen : List SceneItemRef) (c : SceneItemRef) (u : Str)
      → (is_hit source_uuid origin c && str_eq c.scene_uuid u) ≡ true
      → hits_in u (seen ++ (c ∷ [])) ≡ hits_in u seen ++ (c ∷ [])
  hit_here seen c u e =
      keep-append (λ x. is_hit source_uuid origin x && str_eq x.scene_uuid u) seen c
      ∙ ap (λ b. hits_in u seen ++ (if b then c ∷ [] else [])) e

  -- The scenes that a candidate is not in keep their hits.
  others-IsFull :
      (seen : List SceneItemRef) (c : SceneItemRef) (scenes : List SceneHits)
      → any (has_uuid c.scene_uuid) scenes ≡ false
      → All (IsFull seen) scenes
      → All (IsFull (seen ++ (c ∷ []))) scenes
  others-IsFull seen c [] n h = tt
  others-IsFull seen c (s ∷ scenes) n h = (
    h.0
        ∙ sym (
            hit_elsewhere seen c s.uuid (
              no_hit (is_hit source_uuid origin c) (str_eq s.uuid c.scene_uuid)
                (str_eq c.scene_uuid s.uuid) (any (has_uuid c.scene_uuid) scenes) n
                (str_eq_comm c.scene_uuid s.uuid))),
    others-IsFull seen c scenes
        (second (str_eq s.uuid c.scene_uuid) (any (has_uuid c.scene_uuid) scenes) n) h.1,
  )
    where
      no_hit : (a b d r : Bool) → (b || r) ≡ false → d ≡ b → (a && d) ≡ false
      no_hit true b d r n e = ground (arith, n, e)
      no_hit false b d r n e = refl

      second : (b r : Bool) → (b || r) ≡ false → r ≡ false
      second true r n = ground (arith, n)
      second false r n = n

  missed-IsFull :
      (seen : List SceneItemRef) (c : SceneItemRef) (scenes : List SceneHits)
      → is_hit source_uuid origin c ≡ false
      → All (IsFull seen) scenes
      → All (IsFull (seen ++ (c ∷ []))) scenes
  missed-IsFull seen c [] n h = tt
  missed-IsFull seen c (s ∷ scenes) n h = (
    h.0 ∙ sym (hit_elsewhere seen c s.uuid (ap (λ b. b && str_eq c.scene_uuid s.uuid) n)),
    missed-IsFull seen c scenes n h.1,
  )

  add_hit-IsFull :
      (seen : List SceneItemRef) (c : SceneItemRef) (scenes : List SceneHits)
      → is_hit source_uuid origin c ≡ true
      → Distinct scenes
      → (any (has_uuid c.scene_uuid) scenes ≡ false → hits_in c.scene_uuid seen ≡ [])
      → All (IsFull seen) scenes
      → All (IsFull (seen ++ (c ∷ []))) (add_hit scenes c)
  unfolding add_hit
  add_hit-IsFull seen c [] i d none_yet h = (
    sym (
        hit_here seen c c.scene_uuid
          (ap (λ b. b && str_eq c.scene_uuid c.scene_uuid) i ∙ str_eq_refl c.scene_uuid)
        ∙ ap (λ xs. xs ++ (c ∷ [])) (none_yet refl)),
    tt,
  )
  add_hit-IsFull seen c (s ∷ scenes) i d none_yet h =
      elim (Bool-cases (str_eq s.uuid c.scene_uuid)) [
        | inl e ↦ rw e (
          ap (λ xs. xs ++ (c ∷ [])) h.0
              ∙ sym (
                  hit_here seen c s.uuid (
                    ap (λ b. b && str_eq c.scene_uuid s.uuid) i
                    ∙ str_eq_comm c.scene_uuid s.uuid
                    ∙ e)),
          others-IsFull seen c scenes
              (subst (λ u. any (has_uuid u) scenes ≡ false) (str_eq→eq s.uuid c.scene_uuid e) d.0)
              h.1,
        )
        | inr e ↦ rw e (
          h.0
              ∙ sym (
                  hit_elsewhere seen c s.uuid (
                    ap (λ b. b && str_eq c.scene_uuid s.uuid) i
                    ∙ str_eq_comm c.scene_uuid s.uuid
                    ∙ e)),
          add_hit-IsFull seen c scenes i d.1
              (λ n. none_yet (ap (λ b. b || any (has_uuid c.scene_uuid) scenes) e ∙ n)) h.1,
        )
      ]

  -- What the first loop keeps true of the scenes, for the candidates it has looked at.
  pub record IsCollected (seen : List SceneItemRef) (scenes : List SceneHits) : Type 0 where
    pub distinct : Distinct scenes
    pub full : All (IsFull seen) scenes
    pub missing : (u : Str) → any (has_uuid u) scenes ≡ false → hits_in u seen ≡ []

  round-IsCollected :
      (seen : List SceneItemRef) (c : SceneItemRef) (scenes : List SceneHits) (b : Bool)
      → is_hit source_uuid origin c ≡ b
      → IsCollected seen scenes
      → IsCollected (seen ++ (c ∷ [])) (if b then add_hit scenes c else scenes)
  round-IsCollected seen c scenes false e h = record {
    distinct = h.distinct;
    full = missed-IsFull seen c scenes e h.full;
    missing =
        λ u n. hit_elsewhere seen c u (ap (λ b. b && str_eq c.scene_uuid u) e) ∙ h.missing u n;
  }
  round-IsCollected seen c scenes true e h = record {
    distinct = add_hit-Distinct scenes c h.distinct;
    full = add_hit-IsFull seen c scenes e h.distinct (h.missing c.scene_uuid) h.full;
    missing = λ u n. later u (sym (add_hit-any u scenes c) ∙ n);
  }
    where
      first : (a b : Bool) → (a || b) ≡ false → a ≡ false
      first true b n = ground (arith, n)
      first false b n = refl

      second : (a b : Bool) → (a || b) ≡ false → b ≡ false
      second true b n = ground (arith, n)
      second false b n = n

      later :
          (u : Str)
          → (any (has_uuid u) scenes || str_eq c.scene_uuid u) ≡ false
          → hits_in u (seen ++ (c ∷ [])) ≡ []
      later u n =
          hit_elsewhere seen c u (
            ap (λ b. b && str_eq c.scene_uuid u) e
            ∙ second (any (has_uuid u) scenes) (str_eq c.scene_uuid u) n)
          ∙ h.missing u (first (any (has_uuid u) scenes) (str_eq c.scene_uuid u) n)

  append_assoc : (s t u : List SceneItemRef) → (s ++ t) ++ u ≡ s ++ (t ++ u)
  append_assoc [] t u = refl
  append_assoc (c ∷ s) t u = ap (◌∷◌ c) (append_assoc s t u)

  pub collect-IsCollected :
      (candidates seen : List SceneItemRef) (scenes : List SceneHits)
      → IsCollected seen scenes
      → IsCollected (seen ++ candidates) (collect source_uuid origin candidates scenes)
  collect-IsCollected [] seen scenes h =
      subst (λ xs. IsCollected xs scenes) (sym (append_nothing seen)) h
  collect-IsCollected (c ∷ candidates) seen scenes h =
      subst (λ xs. IsCollected xs (collect source_uuid origin (c ∷ candidates) scenes))
        (append_assoc seen (c ∷ []) candidates)
        (collect-IsCollected candidates (seen ++ (c ∷ []))
          (if is_hit source_uuid origin c then add_hit scenes c else scenes)
          (round-IsCollected seen c scenes (is_hit source_uuid origin c) refl h))
