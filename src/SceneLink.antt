-- ===== src/SceneLink.antt =====
-- src/core/SceneLink: which vertical scene follows the main scene.
pub mod Rename
pub mod Stored
use stream_multicast.Common.{
  Bool, true, false, ◌||◌, not, List, ◌++◌, Option, none, some, if◌then◌else◌, is_empty, Str, codes,
  str_eq, any,
}
use stream_multicast.Common.Assoc.{Assoc, lookup, store, erase, map_values}

pub record SceneLinkSettings : Type 0 where
  pub enabled : Bool
  pub explicit_map : Assoc Str

-- `contains`
abbrev pub contains : List Str → Str → Bool
contains names name = any (λ n. str_eq n name) names

-- The rule by name: "V " and the main scene, or the main scene's own name.
abbrev pub default_scene : Str → List Str → Option Str
default_scene main_scene vertical_scenes =
    let prefixed = codes "V " ++ main_scene in
    if contains vertical_scenes prefixed
    then some prefixed
    else if contains vertical_scenes main_scene
    then some main_scene
    else none

abbrev pub by_entry : Option Str → Str → List Str → Option Str
by_entry none main_scene vertical_scenes = default_scene main_scene vertical_scenes
by_entry (some value) main_scene vertical_scenes =
    if is_empty value
    then none
    else if contains vertical_scenes value
    then some value
    else default_scene main_scene vertical_scenes

unfoldable pub resolve_linked_scene : Str → SceneLinkSettings → List Str → Option Str
resolve_linked_scene main_scene settings vertical_scenes =
    if not settings.enabled
    then none
    else by_entry (lookup main_scene settings.explicit_map) main_scene vertical_scenes

abbrev pub renamed : Str → Str → Str → Str
renamed old_name new_name value = if str_eq value old_name then new_name else value

-- Whether a value names the renamed scene.
abbrev pub names_scene : Str → Assoc Str → Bool
names_scene old_name entries = any (λ e. str_eq e.1 old_name) entries

-- The key moves with its value, already renamed.
abbrev pub move_key : Option Str → Str → Str → Assoc Str → Assoc Str × Bool
move_key none old_name new_name entries = (entries, false)
move_key (some value) old_name new_name entries =
    (store new_name value (erase old_name entries), true)

-- The settings after `rename_scene_in_links`, and its result.
unfoldable pub rename_scene_in_links : SceneLinkSettings → Str → Str → SceneLinkSettings × Bool
rename_scene_in_links settings old_name new_name =
    let values = map_values (renamed old_name new_name) settings.explicit_map in
    let (entries, moved) = move_key (lookup old_name values) old_name new_name values in
    if str_eq old_name new_name then (settings, false) else (
      record settings { explicit_map = entries },
      names_scene old_name settings.explicit_map || moved,
    )

-- `active` is the active vertical scene, or the destination of a running transition.
unfoldable pub scene_changed_needs_catch_up : Option Str → Str → Bool
scene_changed_needs_catch_up none active = false
scene_changed_needs_catch_up (some target) active = not (str_eq target active)
