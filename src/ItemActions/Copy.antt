-- ===== src/ItemActions/Copy.antt =====
-- src/core/ItemActions.cpp: plan_copy_transform(). The order by name and uuid, std::stable_sort, is a
-- parameter.
pub mod Collect
pub mod Targets
use stream_multicast.Common.{
  ℕ, ◌+◌, Bool, true, false, ◌&&◌, not, List, [], ◌∷◌, ◌++◌, if◌then◌else◌, Str, codes, str_eq,
  is_empty, length,
}
use stream_multicast.Common.Int.{ℤ}
use stream_multicast.VerticalRecord.Names.{to_string}

pub record SceneItemRef : Type 0 where
  pub scene_uuid : Str
  pub scene_name : Str
  pub item_id : ℤ
  pub source_uuid : Str
  pub locked : Bool

pub record CopyTarget : Type 0 where
  pub scene_uuid : Str
  pub item_id : ℤ

pub record CopySkip : Type 0 where
  pub scene_name : Str
  pub reason : Str
  pub locked : Bool

pub record CopyPlan : Type 0 where
  pub targets : List CopyTarget
  pub skipped : List CopySkip

pub record SceneHits : Type 0 where
  pub uuid : Str
  pub name : Str
  pub items : List SceneItemRef

-- A candidate that the first loop does not pass over.
abbrev pub is_hit : Str → Str → SceneItemRef → Bool
is_hit source_uuid origin c = str_eq c.source_uuid source_uuid && not (str_eq c.scene_uuid origin)

-- The candidate goes to the hits of its scene, or begins them.
unfoldable pub add_hit : List SceneHits → SceneItemRef → List SceneHits
add_hit [] c = record { uuid = c.scene_uuid; name = c.scene_name; items = c ∷ [] } ∷ []
add_hit (s ∷ scenes) c =
    let rest = add_hit scenes c in
    if str_eq s.uuid c.scene_uuid
    then record s { items = s.items ++ (c ∷ []) } ∷ scenes
    else s ∷ rest

abbrev pub collect : Str → Str → List SceneItemRef → List SceneHits → List SceneHits
collect source_uuid origin [] scenes = scenes
collect source_uuid origin (c ∷ candidates) scenes =
    collect source_uuid origin candidates
      (if is_hit source_uuid origin c then add_hit scenes c else scenes)

abbrev pub repeated_reason : ℕ → Str
repeated_reason n = codes "source appears " ++ (to_string n ++ codes " times")

-- A round of the second loop, by the items of the scene, of which there is at least one.
abbrev pub plan_scene : SceneHits → List SceneItemRef → CopyPlan → CopyPlan
plan_scene s [] plan = plan
plan_scene s (c ∷ []) plan =
    if c.locked
    then record plan {
      skipped =
          record { scene_name = s.name; reason = codes "locked"; locked = true } ∷ plan.skipped;
    }
    else record plan {
      targets = record { scene_uuid = s.uuid; item_id = c.item_id } ∷ plan.targets;
    }
plan_scene s (c ∷ d ∷ items) plan = record plan {
  skipped =
      record {
        scene_name = s.name;
        reason = repeated_reason (length (c ∷ d ∷ items));
        locked = false;
      }
      ∷ plan.skipped;
}

-- The second loop, from the last scene on.
unfoldable pub plan_scenes : List SceneHits → CopyPlan
plan_scenes [] = record { targets = []; skipped = [] }
plan_scenes (s ∷ scenes) = plan_scene s s.items (plan_scenes scenes)

unfoldable pub plan_copy_transform :
    (List SceneHits → List SceneHits) → Str → Str → List SceneItemRef → CopyPlan
plan_copy_transform sort source_uuid origin candidates =
    if is_empty source_uuid
    then record { targets = []; skipped = [] }
    else plan_scenes (sort (collect source_uuid origin candidates []))

unfoldable pub skipped_locked_count : CopyPlan → ℕ
skipped_locked_count plan = count plan.skipped
  where
    count : List CopySkip → ℕ
    count [] = 0
    count (s ∷ skips) = (if s.locked then 1 else 0) + count skips
