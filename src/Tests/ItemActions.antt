-- ===== src/Tests/ItemActions.antt =====
-- src/core/ItemActions and LockPolicy on a few names and items.
use stream_multicast.Common.{
  ℕ, ◌≡◌, ◌↔◌, Memᴰ, ◌≤◌, ◌<◌, ◌⊎◌, refl, Bool, true, false, ◌&&◌, List, [], ◌∷◌, some, Str, codes,
  str_eq, arith,
}
use stream_multicast.Common.Int.{pos}
use stream_multicast.ItemActions.Names.{is_taken, numbered, unique_name, unique_name_lem}
use stream_multicast.ItemActions.Copy.{
  SceneItemRef, SceneHits, CopyTarget, plan_copy_transform, add_hit, plan_scenes,
  skipped_locked_count,
}
use stream_multicast.ItemActions.Copy.Collect.{hits_in}
use stream_multicast.ItemActions.Copy.Targets.{copy_iff}
use stream_multicast.ItemActions.Lock.{
  Item, contains_id, count_of, can_edit, editable_ids, editable_ids_lem,
}

abbrev names : List Str
names = codes "Text" ∷ codes "Text 2" ∷ codes "Text 4" ∷ []

second_free : unique_name 4 (codes "Text") names ≡ some (codes "Text 3")
unfolding unique_name str_eq
second_free = refl

unique_name_lem_example :
    (name : Str) × (unique_name 4 (codes "Text") names ≡ some name)
    × (is_taken names name ≡ false)
    × ((name ≡ codes "Text")
        ⊎ ((k : ℕ) × (name ≡ numbered (codes "Text") k)
            × (2 ≤ k)
            × (is_taken names (codes "Text") ≡ true)
            × ((j : ℕ) → 2 ≤ j → j < k → is_taken names (numbered (codes "Text") j) ≡ true)))
unique_name_lem_example = unique_name_lem (codes "Text") names 4 (omega arith)

abbrev items : List (Item Bool)
items =
    record { id = pos 1; locked = false; shape = true }
    ∷ record { id = pos 2; locked = true; shape = true }
    ∷ []

editable_ids_lem_example :
    (contains_id (editable_ids items (pos 2 ∷ pos 1 ∷ pos 1 ∷ [])) (pos 1)
      ≡ (contains_id (pos 2 ∷ pos 1 ∷ pos 1 ∷ []) (pos 1) && can_edit items (pos 1)))
    × (count_of (editable_ids items (pos 2 ∷ pos 1 ∷ pos 1 ∷ [])) (pos 1) ≤ 1)
editable_ids_lem_example = editable_ids_lem items (pos 2 ∷ pos 1 ∷ pos 1 ∷ []) (pos 1)

-- The source "s" stands once in "a", where it comes from, once in "b", and locked in "c".
abbrev candidates : List SceneItemRef
candidates =
    record {
      scene_uuid = codes "a";
      scene_name = codes "A";
      item_id = pos 1;
      source_uuid = codes "s";
      locked = false;
    }
    ∷ record {
      scene_uuid = codes "b";
      scene_name = codes "B";
      item_id = pos 2;
      source_uuid = codes "s";
      locked = false;
    }
    ∷ record {
      scene_uuid = codes "c";
      scene_name = codes "C";
      item_id = pos 3;
      source_uuid = codes "s";
      locked = true;
    }
    ∷ []

abbrev as_is : List SceneHits → List SceneHits
as_is scenes = scenes

abbrev target : CopyTarget
target = record { scene_uuid = codes "b"; item_id = pos 2 }

copied : (plan_copy_transform as_is (codes "s") (codes "a") candidates).targets ≡ target ∷ []
unfolding plan_copy_transform add_hit plan_scenes str_eq
copied = refl

one_locked : skipped_locked_count (plan_copy_transform as_is (codes "s") (codes "a") candidates) ≡ 1
unfolding plan_copy_transform add_hit plan_scenes str_eq skipped_locked_count
one_locked = refl

copy_iff_example :
    Memᴰ target (plan_copy_transform as_is (codes "s") (codes "a") candidates).targets ↔ (
      (c : SceneItemRef) × (hits_in (codes "s") (codes "a") target.scene_uuid candidates ≡ c ∷ [])
      × (c.locked ≡ false)
      × (target.item_id ≡ c.item_id))
copy_iff_example =
    copy_iff as_is (λ scenes s. (λ m. m, λ m. m)) (codes "s") (codes "a") candidates refl target
