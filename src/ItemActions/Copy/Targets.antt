-- ===== src/ItemActions/Copy/Targets.antt =====
-- src/core/ItemActions.cpp: which items a copied transform is written to.
use stream_multicast.Common.{
  ◌≡◌, ◌↔◌, refl, sym, ap, subst, ◌∙◌, inl, inr, Bool, true, false, ◌||◌, List, [], ◌∷◌,
  if◌then◌else◌, Str, str_eq, str_eq→eq, is_empty, any, All-mem, Mem-cons_cases, Memᴰ, arith,
  Bool-cases,
}
use stream_multicast.ItemActions.Copy.{
  SceneItemRef, CopyTarget, CopyPlan, SceneHits, collect, plan_scene, plan_scenes,
  plan_copy_transform,
}
use stream_multicast.ItemActions.Copy.Collect.{
  has_uuid, hits_in, IsFull, IsCollected, collect-IsCollected,
}

-- A scene that the transform is copied to, and the item.
abbrev pub Sole : List SceneHits → CopyTarget → Type 0
Sole scenes t =
    (s : SceneHits) × (c : SceneItemRef) × Memᴰ s scenes
    × (s.items ≡ c ∷ [])
    × (c.locked ≡ false)
    × (t ≡ record { scene_uuid = s.uuid; item_id = c.item_id })

Sole-later :
    (s : SceneHits) (scenes : List SceneHits) (t : CopyTarget) → Sole scenes t → Sole (s ∷ scenes) t
Sole-later s scenes t (x, c, m, one, free, same) = (x, c, Memᴰ.tail m, one, free, same)

target-Sole :
    (scenes : List SceneHits) (t : CopyTarget) → Memᴰ t (plan_scenes scenes).targets → Sole scenes t
unfolding plan_scenes
target-Sole [] t m = elim m [ ]
target-Sole (s ∷ scenes) t m = by_items s.items refl m (target-Sole scenes t)
  where
    by_items :
        (items : List SceneItemRef)
        → s.items ≡ items
        → Memᴰ t (plan_scene s items (plan_scenes scenes)).targets
        → (Memᴰ t (plan_scenes scenes).targets → Sole scenes t)
        → Sole (s ∷ scenes) t
    by_items [] e m rest = Sole-later s scenes t (rest m)
    by_items (c ∷ []) e m rest = elim (Bool-cases c.locked) [
      | inl l ↦ Sole-later s scenes t (rest (subst (λ b. Memᴰ t (by_lock c b).targets) l m))
      | inr f ↦ elim (Mem-cons_cases (subst (λ b. Memᴰ t (by_lock c b).targets) f m)) [
        | inl same ↦ (s, c, Memᴰ.head refl, e, f, same)
        | inr later ↦ Sole-later s scenes t (rest later)
      ]
    ]
      where
        by_lock : SceneItemRef → Bool → CopyPlan
        by_lock c b = plan_scene s (record c { locked = b } ∷ []) (plan_scenes scenes)
    by_items (c ∷ d ∷ items) e m rest = Sole-later s scenes t (rest m)

keeps_target :
    (s : SceneHits) (items : List SceneItemRef) (plan : CopyPlan) (t : CopyTarget)
    → Memᴰ t plan.targets
    → Memᴰ t (plan_scene s items plan).targets
keeps_target s [] plan t m = m
keeps_target s (c ∷ []) plan t m = pick c.locked
  where
    pick : (b : Bool) → Memᴰ t (plan_scene s (record c { locked = b } ∷ []) plan).targets
    pick true = m
    pick false = Memᴰ.tail m
keeps_target s (c ∷ d ∷ items) plan t m = m

new_target :
    (s : SceneHits) (c : SceneItemRef) (plan : CopyPlan)
    → c.locked ≡ false
    → Memᴰ
        (record { scene_uuid = s.uuid; item_id = c.item_id })
        (plan_scene s (c ∷ []) plan).targets
new_target s c plan e =
    subst
      (λ b.
        Memᴰ (record { scene_uuid = s.uuid; item_id = c.item_id })
          (plan_scene s (record c { locked = b } ∷ []) plan).targets)
      (sym e) (Memᴰ.head refl)

sole-target :
    (scenes : List SceneHits) (s : SceneHits) (c : SceneItemRef)
    → Memᴰ s scenes
    → s.items ≡ c ∷ []
    → c.locked ≡ false
    → Memᴰ (record { scene_uuid = s.uuid; item_id = c.item_id }) (plan_scenes scenes).targets
unfolding plan_scenes
sole-target [] s c m e f = elim m [ ]
sole-target (x ∷ scenes) s c m e f = elim (Mem-cons_cases m) [
  | inl same ↦
      subst
        (λ y.
          Memᴰ (record { scene_uuid = s.uuid; item_id = c.item_id })
            (plan_scene y y.items (plan_scenes scenes)).targets)
        same
        (subst
          (λ items.
            Memᴰ (record { scene_uuid = s.uuid; item_id = c.item_id })
              (plan_scene s items (plan_scenes scenes)).targets)
          (sym e) (new_target s c (plan_scenes scenes) f))
  | inr later ↦
      keeps_target x x.items (plan_scenes scenes)
        (record { scene_uuid = s.uuid; item_id = c.item_id }) (sole-target scenes s c later e f)
]

-- The scene of a list that has a uuid.
scene_with :
    (u : Str) (scenes : List SceneHits)
    → any (has_uuid u) scenes ≡ true
    → (s : SceneHits) × Memᴰ s scenes × (s.uuid ≡ u)
scene_with u [] e = ground (arith, e)
scene_with u (s ∷ scenes) e = elim (Bool-cases (str_eq s.uuid u)) [
  | inl h ↦ (s, Memᴰ.head refl, str_eq→eq s.uuid u h)
  | inr h ↦
      let (x, m, same) = scene_with u scenes (sym (ap (λ b. b || any (has_uuid u) scenes) h) ∙ e) in
      (x, Memᴰ.tail m, same)
]

-- What the model needs of std::stable_sort: the sorted list has the same scenes.
module _ (sort : List SceneHits → List SceneHits)
    (kept : (scenes : List SceneHits) (s : SceneHits) → Memᴰ s (sort scenes) ↔ Memᴰ s scenes)
    (source_uuid origin : Str) (candidates : List SceneItemRef) where
  abbrev scenes : List SceneHits
  scenes = collect source_uuid origin candidates []

  abbrev planned : CopyPlan
  planned = plan_scenes (sort scenes)

  abbrev none_planned : CopyPlan
  none_planned = record { targets = []; skipped = [] }

  collected : IsCollected source_uuid origin candidates scenes
  collected =
      collect-IsCollected source_uuid origin candidates [] []
        (record { distinct = tt; full = tt; missing = λ u n. refl })

  -- Each target is the only hit in its scene, and it is not locked: the transform is never written
  -- to the scene it comes from, to a locked item, or to one of several.
  pub copy_sound :
      (t : CopyTarget)
      → Memᴰ t (plan_copy_transform sort source_uuid origin candidates).targets
      → (c : SceneItemRef) × (hits_in source_uuid origin t.scene_uuid candidates ≡ c ∷ [])
        × (c.locked ≡ false)
        × (t.item_id ≡ c.item_id)
  unfolding plan_copy_transform
  copy_sound t m = elim (Bool-cases (is_empty source_uuid)) [
    | inl e ↦ elim (subst (λ b. Memᴰ t (if b then none_planned else planned).targets) e m) [ ]
    | inr e ↦
        let (s, c, there, one, free, same) =
          target-Sole (sort scenes) t
            (subst (λ b. Memᴰ t (if b then none_planned else planned).targets) e m) in
        let full =
          All-mem (IsFull source_uuid origin candidates) scenes collected.full
            ((kept scenes s).0 there) in
        (
          c,
          ap (λ x. hits_in source_uuid origin x.scene_uuid candidates) same ∙ sym full ∙ one,
          free,
          ap (λ x. x.item_id) same,
        )
  ]

  -- A scene with a single hit that is not locked is a target, unless the uuid of the source is empty.
  pub copy_complete :
      (u : Str) (c : SceneItemRef)
      → is_empty source_uuid ≡ false
      → hits_in source_uuid origin u candidates ≡ c ∷ []
      → c.locked ≡ false
      → Memᴰ
          (record { scene_uuid = u; item_id = c.item_id })
          (plan_copy_transform sort source_uuid origin candidates).targets
  unfolding plan_copy_transform
  copy_complete u c n e f = elim (Bool-cases (any (has_uuid u) scenes)) [
    | inl h ↦
        let (s, there, same) = scene_with u scenes h in
        let items =
          All-mem (IsFull source_uuid origin candidates) scenes collected.full there
          ∙ ap (λ x. hits_in source_uuid origin x candidates) same
          ∙ e in
        rw n (
          subst (λ x. Memᴰ (record { scene_uuid = x; item_id = c.item_id }) planned.targets) same
            (sole-target (sort scenes) s c ((kept scenes s).1 there) items f))
    | inr h ↦ ground (arith, sym (collected.missing u h) ∙ e)
  ]

  -- If the uuid of the source is not empty, the targets are the scenes with a single hit that is not
  -- locked, with its item: no other scene is changed, and none of these is left out.
  pub copy_iff :
      is_empty source_uuid ≡ false
      → (t : CopyTarget)
      → Memᴰ t (plan_copy_transform sort source_uuid origin candidates).targets ↔ (
          (c : SceneItemRef) × (hits_in source_uuid origin t.scene_uuid candidates ≡ c ∷ [])
          × (c.locked ≡ false)
          × (t.item_id ≡ c.item_id))
  copy_iff n t = (
    copy_sound t,
    λ (c, e, f, same).
        subst
          (λ i.
            Memᴰ (record { scene_uuid = t.scene_uuid; item_id = i })
              (plan_copy_transform sort source_uuid origin candidates).targets)
          (sym same) (copy_complete t.scene_uuid c n e f),
  )
