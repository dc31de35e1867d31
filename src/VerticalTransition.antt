-- ===== src/VerticalTransition.antt =====
-- src/core/VerticalTransition: what the transition of the vertical canvas does.
pub mod Stinger
pub mod Stored
use stream_multicast.Common.{
  ℕ, suc, ◌+◌, ◌%◌, ◌^◌, Bool, true, false, ◌&&◌, ◌||◌, not, List, [], ◌∷◌, ◌++◌, Option, none,
  some, if◌then◌else◌, Str, codes, is_empty, str_eq, ◌==◌,
}
use stream_multicast.Common.Int.{ℤ, pos, pos_part, eq_ℤ, ltb_ℤ}
use stream_multicast.Common.Text.{take, drop}
use stream_multicast.ObsData.{ObsData, c_str}
use stream_multicast.VerticalRecord.Folder.{is_sep}
use stream_multicast.VerticalRecord.Names.{find_last_of}

pub data VerticalTransitionMode : Type 0 where
  follow cut custom : VerticalTransitionMode

pub record VerticalTransitionSettings : Type 0 where
  pub mode : VerticalTransitionMode
  pub custom_name : Str
  pub stinger_path : Str
  pub stinger_source : Str

abbrev pub cut_transition_id : Str
cut_transition_id = codes "cut_transition"

abbrev pub fade_transition_id : Str
fade_transition_id = codes "fade_transition"

abbrev pub stinger_transition_id : Str
stinger_transition_id = codes "obs_stinger_transition"

pub record PathParts : Type 0 where
  pub dir : Str
  pub stem : Str
  pub ext : Str

abbrev pub name_start : Option ℕ → ℕ
name_start none = 0
name_start (some sep) = suc sep

abbrev pub split_name : Str → Str → Option ℕ → PathParts
split_name dir name none = record { dir = dir; stem = name; ext = [] }
split_name dir name (some dot) =
    if dot == 0
    then record { dir = dir; stem = name; ext = [] }
    else record { dir = dir; stem = take dot name; ext = drop dot name }

unfoldable pub split_path : Str → PathParts
split_path path =
    let start = name_start (find_last_of is_sep path) in
    split_name (take start path) (drop start path) (find_last_of (λ c. c == 46) (drop start path))

-- A test of the files that exist; `none` is the empty function.
abbrev pub FileExists : Type 0
FileExists = Option (Str → Bool)

unfoldable pub suffixed_vertical_file : Str → FileExists → Str
suffixed_vertical_file path none = []
suffixed_vertical_file path (some exists) =
    let p = split_path path in
    let candidate = p.dir ++ (p.stem ++ (codes "-vertical" ++ p.ext)) in
    if is_empty path || is_empty p.stem then [] else if exists candidate then candidate else []

abbrev pub generic_file : Str → Str
generic_file path = let p = split_path path in p.dir ++ (codes "stinger-vertical" ++ p.ext)

unfoldable pub vertical_stinger_file : Str → Str → Str → FileExists → Str
vertical_stinger_file path configured configured_for none = []
vertical_stinger_file path configured configured_for (some exists) =
    let suffixed = suffixed_vertical_file path (some exists) in
    if not (is_empty configured) && str_eq configured_for path && exists configured
    then configured
    else if not (is_empty suffixed)
    then suffixed
    else if is_empty path
    then []
    else if exists (generic_file path)
    then generic_file path
    else []

pub record TransitionDesc (D : Type 0) : Type 0 where
  pub id : Str
  pub settings : Option D
  pub duration_ms : ℕ

pub record VerticalTransitionPlan : Type 0 where
  pub instant : Bool
  pub id : Str
  pub settings_json : Str
  pub duration_ms : ℕ
  pub fade_fallback : Bool

abbrev pub instant_plan : VerticalTransitionPlan
instant_plan = record {
  instant = true;
  id = [];
  settings_json = [];
  duration_ms = 0;
  fade_fallback = false;
}

abbrev pub pick_source :
    {D : Type 0}
    → VerticalTransitionMode
    → TransitionDesc D
    → Option (TransitionDesc D)
    → TransitionDesc D
pick_source custom main (some c) = c
pick_source custom main none = main
pick_source follow main named = main
pick_source cut main named = main

abbrev pub text_of : Option Str → Str
text_of none = codes "{}"
text_of (some json) = json

-- `json` is obs_data_get_json, of which nothing is known.
module _ {D : Type 0} (o : ObsData D) (json : D → Option Str) where
  abbrev pub copy_of : Option D → D
  copy_of none = o.create
  copy_of (some settings) = o.apply o.create settings

  abbrev pub separate_matte : D → Bool
  separate_matte copy =
      o.get_bool copy (codes "track_matte_enabled")
      && eq_ℤ (o.get_int copy (codes "track_matte_layout")) (pos 2)

  -- The vertical video and the settings, after the look for the vertical matte.
  abbrev pub with_matte : FileExists → D → Str → Str × D
  with_matte exists copy vertical =
      let matte = suffixed_vertical_file (o.get_string copy (codes "track_matte_path")) exists in
      if not (not (is_empty vertical) && separate_matte copy)
      then (vertical, copy)
      else if is_empty matte
      then ([], copy)
      else (vertical, o.set_string copy (codes "track_matte_path") (c_str matte))

  abbrev pub fade_plan : TransitionDesc D → D → VerticalTransitionPlan
  fade_plan source copy =
      let point = o.get_int copy (codes "transition_point") in
      let point_in_ms = eq_ℤ (o.get_int copy (codes "tp_type")) (pos 0) && ltb_ℤ (pos 0) point in
      record {
        instant = false;
        id = fade_transition_id;
        settings_json = codes "{}";
        duration_ms = if point_in_ms then pos_part point % 2 ^ 32 else source.duration_ms;
        fade_fallback = true;
      }

  abbrev pub same_plan : TransitionDesc D → D → VerticalTransitionPlan
  same_plan source copy = record {
    instant = false;
    id = source.id;
    settings_json = text_of (json copy);
    duration_ms = source.duration_ms;
    fade_fallback = false;
  }

  abbrev pub vertical_copy : D → Str → D
  vertical_copy copy vertical =
      o.set_int (o.set_string copy (codes "path") (c_str vertical)) (codes "audio_monitoring")
        (pos 0)

  abbrev pub stinger_plan : TransitionDesc D → Str × D → VerticalTransitionPlan
  stinger_plan source (vertical, copy) =
      if is_empty vertical
      then fade_plan source copy
      else same_plan source (vertical_copy copy vertical)

  abbrev pub plan_of :
      VerticalTransitionSettings → TransitionDesc D → FileExists → VerticalTransitionPlan
  plan_of settings source exists =
      let copy = copy_of source.settings in
      if is_empty source.id || str_eq source.id cut_transition_id
      then instant_plan
      else if str_eq source.id stinger_transition_id
      then stinger_plan source (
          with_matte exists copy (
            vertical_stinger_file (o.get_string copy (codes "path")) settings.stinger_path
              settings.stinger_source exists))
      else same_plan source copy

  abbrev pub plan_by_mode :
      VerticalTransitionMode
      → VerticalTransitionSettings
      → TransitionDesc D
      → Option (TransitionDesc D)
      → FileExists
      → VerticalTransitionPlan
  plan_by_mode cut settings main named exists = instant_plan
  plan_by_mode follow settings main named exists =
      plan_of settings (pick_source follow main named) exists
  plan_by_mode custom settings main named exists =
      plan_of settings (pick_source custom main named) exists

  unfoldable pub decide_vertical_transition :
      VerticalTransitionSettings
      → TransitionDesc D
      → Option (TransitionDesc D)
      → FileExists
      → VerticalTransitionPlan
  decide_vertical_transition settings main named exists =
      plan_by_mode settings.mode settings main named exists

unfoldable pub main_transition_duration_ms : Str → Str → ℤ → ℤ → ℕ
main_transition_duration_ms started_name override_name override_duration frontend_duration =
    if not (is_empty override_name)
      && str_eq override_name started_name
      && ltb_ℤ (pos 0) override_duration
    then pos_part override_duration % 2 ^ 32
    else pos_part frontend_duration
