-- ===== src/Tests/SceneLink.antt =====
-- src/core/SceneLink on concrete scenes (after tests/test_scene_link.cpp).
use stream_multicast.Common.{◌≡◌, refl, true, List, [], ◌∷◌, some, codes, str_eq, Str}
use stream_multicast.Common.Assoc.{lookup, map_option}
use stream_multicast.SceneLink.{
  SceneLinkSettings, resolve_linked_scene, renamed, rename_scene_in_links,
}
use stream_multicast.SceneLink.Stored.{
  scene_link_save, scene_link_load, IsStorableMap, scene_link_load-save,
}
use stream_multicast.ObsData.Docs.{docs, docs-IsObsData}
use stream_multicast.SceneLink.Rename.{rename_follows}

abbrev settings : SceneLinkSettings
settings = record {
  enabled = true;
  explicit_map = (codes "Cam", codes "V Cam") ∷ (codes "Game", codes "Tall") ∷ [];
}

abbrev scenes : List Str
scenes = codes "Tall" ∷ codes "V Chat" ∷ []

-- An entry of a scene that is gone falls back to the rule by name.
falls_back : resolve_linked_scene (codes "Chat") settings scenes ≡ some (codes "V Chat")
unfolding resolve_linked_scene lookup str_eq
falls_back = refl

rename_follows_example :
    let after = (rename_scene_in_links settings (codes "Game") (codes "Play")).0.explicit_map in
    (lookup (renamed (codes "Game") (codes "Play") (codes "Game")) after
      ≡ map_option
          (renamed (codes "Game") (codes "Play"))
          (lookup (codes "Game") settings.explicit_map))
    × (lookup (codes "Play") after
        ≡ map_option
            (renamed (codes "Game") (codes "Play"))
            (lookup (codes "Game") settings.explicit_map))
unfolding lookup str_eq
rename_follows_example =
    rename_follows settings (codes "Game") (codes "Play") (codes "Game") refl refl refl

settings-IsStorableMap : IsStorableMap settings.explicit_map
unfolding lookup str_eq
settings-IsStorableMap = (
  refl,
  (refl, (refl, (refl, tt))),
  (refl, (refl, (refl, (refl, (refl, tt))))),
  refl,
  (refl, (refl, (refl, (refl, (refl, tt)))), (refl, (refl, (refl, (refl, tt)))), refl, tt),
)

scene_link_load-save_example :
    let s' = scene_link_load docs (scene_link_save docs docs.create settings) in
    (s'.enabled ≡ true)
    × ((main : Str) → lookup main s'.explicit_map ≡ lookup main settings.explicit_map)
scene_link_load-save_example =
    scene_link_load-save docs docs-IsObsData docs.create settings settings-IsStorableMap
