-- ===== src/VerticalTransition/Stored.antt =====
-- src/core/VerticalTransition.cpp: the settings in the data of the scene collection. A null pointer in
-- place of the document is left out.
use stream_multicast.Common.{
  ◌≡◌, refl, ap, ◌∙◌, List, [], ◌∷◌, some, if◌then◌else◌, Str, codes, str_eq,
}
use stream_multicast.ObsData.{Value, string_value, ObsData, IsObsData, c_str}
use stream_multicast.ObsData.Docs.{set_all, held_after, view-set_all}
use stream_multicast.Endpoint.Roundtrip.{IsText, c_str_text}
use stream_multicast.VerticalTransition.{
  VerticalTransitionMode, follow, cut, custom, VerticalTransitionSettings,
}

abbrev pub mode_name : VerticalTransitionMode → Str
mode_name cut = codes "cut"
mode_name custom = codes "custom"
mode_name follow = codes "follow"

unfoldable pub parse_vertical_transition_mode : Str → VerticalTransitionMode
parse_vertical_transition_mode name =
    if str_eq name (codes "cut")
    then cut
    else if str_eq name (codes "custom")
    then custom
    else follow

abbrev pub transition_rows : {D : Type 0} → VerticalTransitionSettings → List (Str × Value D)
transition_rows s =
    (codes "streammulticast_vertical_transition_mode", string_value (mode_name s.mode))
    ∷ (codes "streammulticast_vertical_transition_custom", string_value (c_str s.custom_name))
    ∷ (codes "streammulticast_vertical_stinger_path", string_value (c_str s.stinger_path))
    ∷ (codes "streammulticast_vertical_stinger_source", string_value (c_str s.stinger_source))
    ∷ []

unfoldable pub vertical_transition_save :
    {D : Type 0} → ObsData D → D → VerticalTransitionSettings → D
vertical_transition_save o doc s = set_all o doc (transition_rows s)

unfoldable pub vertical_transition_load : {D : Type 0} → ObsData D → D → VerticalTransitionSettings
vertical_transition_load o doc = record {
  mode =
      parse_vertical_transition_mode
        (o.get_string doc (codes "streammulticast_vertical_transition_mode"));
  custom_name = o.get_string doc (codes "streammulticast_vertical_transition_custom");
  stinger_path = o.get_string doc (codes "streammulticast_vertical_stinger_path");
  stinger_source = o.get_string doc (codes "streammulticast_vertical_stinger_source");
}

-- Each mode is read back from its name.
pub parse-mode_name :
    (m : VerticalTransitionMode) → parse_vertical_transition_mode (mode_name m) ≡ m
unfolding parse_vertical_transition_mode str_eq
parse-mode_name follow = refl
parse-mode_name cut = refl
parse-mode_name custom = refl

-- Settings without zero bytes in their texts are read back as they were saved, whatever the document
-- held before.
pub transition_load-save :
    {D : Type 0} (o : ObsData D) (h : IsObsData o) (doc : D) (s : VerticalTransitionSettings)
    → IsText s.custom_name
    → IsText s.stinger_path
    → IsText s.stinger_source
    → vertical_transition_load o (vertical_transition_save o doc s) ≡ s
unfolding vertical_transition_save vertical_transition_load str_eq
transition_load-save {D} o h doc s t u v = λ i. record {
  mode =
      (ap parse_vertical_transition_mode (
            h.get_string-some saved (codes "streammulticast_vertical_transition_mode")
              (mode_name s.mode) (held (codes "streammulticast_vertical_transition_mode")))
          ∙ parse-mode_name s.mode)
        i;
  custom_name =
      text (codes "streammulticast_vertical_transition_custom") s.custom_name
        (held (codes "streammulticast_vertical_transition_custom")) t i;
  stinger_path =
      text (codes "streammulticast_vertical_stinger_path") s.stinger_path
        (held (codes "streammulticast_vertical_stinger_path")) u i;
  stinger_source =
      text (codes "streammulticast_vertical_stinger_source") s.stinger_source
        (held (codes "streammulticast_vertical_stinger_source")) v i;
}
  where
    saved : D
    saved = set_all o doc (transition_rows s)

    held : (key : Str) → h.view saved key ≡ held_after (transition_rows s) key (h.view doc key)
    held key = view-set_all o h (transition_rows s) doc key

    text :
        (key x : Str)
        → h.view saved key ≡ some (string_value (c_str x))
        → IsText x
        → o.get_string saved key ≡ x
    text key x e t = h.get_string-some saved key (c_str x) e ∙ c_str_text x t
