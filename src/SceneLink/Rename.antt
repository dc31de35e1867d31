-- ===== src/SceneLink/Rename.antt =====
-- src/core/SceneLink: the resolution, and what a rename of a scene does to it.
use stream_multicast.Common.{
  ◌≡◌, ◌≢◌, ◌⊎◌, refl, sym, ap, ◌∙◌, inl, inr, Bool, true, false, not, List, [], ◌∷◌, ◌++◌, Option,
  none, some, if◌then◌else◌, Str, codes, str_eq, str_eq→eq, str_eq_comm, Bool-cases,
}
use stream_multicast.Common.Assoc.{
  Assoc, map_option, lookup, erase, map_values, store-lookup, other-store, other-erase,
  lookup-map_values,
}
use stream_multicast.SceneLink.{
  SceneLinkSettings, contains, default_scene, by_entry, resolve_linked_scene, renamed, move_key,
  rename_scene_in_links,
}

-- Why a vertical scene was chosen.
pub record Chosen (main_scene : Str) (settings : SceneLinkSettings) (vertical_scenes : List Str)
    (s : Str) : Type 0 where
  pub is_on : settings.enabled ≡ true
  pub exists : contains vertical_scenes s ≡ true
  pub not_kept : lookup main_scene settings.explicit_map ≢ some []
  pub by_rule :
      (lookup main_scene settings.explicit_map ≡ some s)
      ⊎ ((s ≡ codes "V " ++ main_scene) ⊎ (s ≡ main_scene))

-- The outcome of a chain of two tests.
first_of :
    (b c : Bool) (x y s : Str)
    → (if b then some x else if c then some y else none) ≡ some s
    → ((b ≡ true) × (x ≡ s)) ⊎ ((c ≡ true) × (y ≡ s))
first_of true c x y s e = inl (refl, cc)
first_of false true x y s e = inr (refl, cc)
first_of false false x y s e = absurd (cc)

default-chosen :
    (m : Str) (vs : List Str) (s : Str)
    → default_scene m vs ≡ some s
    → (contains vs s ≡ true) × ((s ≡ codes "V " ++ m) ⊎ (s ≡ m))
default-chosen m vs s e =
    elim (first_of (contains vs (codes "V " ++ m)) (contains vs m) (codes "V " ++ m) m s e) [
      | inl p ↦ (ap (contains vs) (sym p.1) ∙ p.0, inl (sym p.1))
      | inr p ↦ (ap (contains vs) (sym p.1) ∙ p.0, inr (sym p.1))
    ]

entry-chosen :
    (o : Option Str) (m : Str) (vs : List Str) (s : Str)
    → by_entry o m vs ≡ some s
    → (contains vs s ≡ true) × (o ≢ some []) × ((o ≡ some s) ⊎ ((s ≡ codes "V " ++ m) ⊎ (s ≡ m)))
entry-chosen none m vs s e = let d = default-chosen m vs s e in (d.0, λ x. cc, inr d.1)
entry-chosen (some []) m vs s e = absurd (cc)
entry-chosen (some (c ∷ v)) m vs s e = elim (Bool-cases (contains vs (c ∷ v))) [
  | inl i ↦
      let same : c ∷ v ≡ s =
        some_inj (sym (ap (λ b. if b then some (c ∷ v) else default_scene m vs) i) ∙ e) in
      (ap (contains vs) (sym same) ∙ i, λ x. cc, inl (ap some same))
  | inr i ↦
      let d =
        default-chosen m vs s
          (sym (ap (λ b. if b then some (c ∷ v) else default_scene m vs) i) ∙ e) in
      (d.0, λ x. cc, inr d.1)
]
  where
    some_inj : {x y : Str} → some x ≡ some y → x ≡ y
    some_inj p = cc

-- A chosen scene is an existing vertical scene of an enabled link, for a main scene that is not set
-- to keep the current one; and it is the entry, "V " and the main scene, or its own name.
pub resolve-Chosen :
    (main_scene : Str) (settings : SceneLinkSettings) (vertical_scenes : List Str) (s : Str)
    → resolve_linked_scene main_scene settings vertical_scenes ≡ some s
    → Chosen main_scene settings vertical_scenes s
unfolding resolve_linked_scene
resolve-Chosen m settings vs s e = elim (Bool-cases settings.enabled) [
  | inl on ↦
      let c = entry-chosen (lookup m settings.explicit_map) m vs s (
        sym (ap (λ b. if not b then none else by_entry (lookup m settings.explicit_map) m vs) on)
        ∙ e) in
      record { is_on = on; exists = c.0; not_kept = c.1; by_rule = c.2 }
  | inr off ↦ absurd (
      none_some (
        sym (ap (λ b. if not b then none else by_entry (lookup m settings.explicit_map) m vs) off)
        ∙ e))
]
  where
    none_some : {x : Str} → ◌≡◌ {A = Option Str} none (some x) → ⊥
    none_some p = cc

moved_lookup :
    (o : Option Str) (old_name new_name : Str) (entries : Assoc Str)
    → lookup old_name entries ≡ o
    → lookup new_name entries ≡ none
    → lookup new_name (move_key o old_name new_name entries).0 ≡ o
moved_lookup none old_name new_name entries e f = f
moved_lookup (some v) old_name new_name entries e f =
    store-lookup new_name v (erase old_name entries)

other_lookup :
    (o : Option Str) (old_name new_name main_scene : Str) (entries : Assoc Str)
    → str_eq old_name main_scene ≡ false
    → str_eq new_name main_scene ≡ false
    → lookup main_scene (move_key o old_name new_name entries).0 ≡ lookup main_scene entries
other_lookup none old_name new_name m entries e f = refl
other_lookup (some v) old_name new_name m entries e f =
    other-store new_name m v (erase old_name entries) f ∙ other-erase old_name m entries e

-- After the rename of a scene to another name, which has no entry, the entry of a main scene, found
-- under its name after the rename, is its entry before, with the scene renamed in it, unless the
-- main scene has the new name already; and under the new name stands the renamed entry of the old
-- name, if there was one, for a main scene of that name too.
pub rename_follows :
    (settings : SceneLinkSettings) (old_name new_name main_scene : Str)
    → lookup new_name settings.explicit_map ≡ none
    → str_eq old_name new_name ≡ false
    → str_eq new_name main_scene ≡ false
    → let after = (rename_scene_in_links settings old_name new_name).0.explicit_map in
      (lookup (renamed old_name new_name main_scene) after
        ≡ map_option (renamed old_name new_name) (lookup main_scene settings.explicit_map))
      × (lookup new_name after
          ≡ map_option (renamed old_name new_name) (lookup old_name settings.explicit_map))
unfolding rename_scene_in_links
rename_follows settings old_name new_name m fresh differ n = rw differ (
  elim (Bool-cases (str_eq m old_name)) [
    | inl e ↦ rw e (
        moved
        ∙ ap (λ k. map_option ren (lookup k settings.explicit_map)) (sym (str_eq→eq m old_name e)))
    | inr e ↦ rw e (
        other_lookup (lookup old_name values) old_name new_name m values
          (str_eq_comm old_name m ∙ e) n
        ∙ lookup-map_values ren m settings.explicit_map)
  ],
  moved,
)
  where
    ren : Str → Str
    ren = renamed old_name new_name

    values : Assoc Str
    values = map_values (renamed old_name new_name) settings.explicit_map

    moved :
        lookup new_name (move_key (lookup old_name values) old_name new_name values).0
        ≡ map_option ren (lookup old_name settings.explicit_map)
    moved =
        moved_lookup (lookup old_name values) old_name new_name values refl
          (lookup-map_values ren new_name settings.explicit_map ∙ ap (map_option ren) fresh)
        ∙ lookup-map_values ren old_name settings.explicit_map
