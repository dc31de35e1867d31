-- ===== src/VerticalTransition/Stinger.antt =====
-- src/core/VerticalTransition.cpp: the vertical canvas never shows the wide video of a stinger.
use stream_multicast.Common.{
  ◌≡◌, ◌⊎◌, refl, sym, ap, ◌∙◌, inl, inr, Bool, true, false, ◌&&◌, ◌||◌, not, [], ◌∷◌, ◌++◌, Option,
  none, some, if◌then◌else◌, Str, codes, is_empty, str_eq, str_eq_refl, arith, Bool-cases,
}
use stream_multicast.Common.Int.{pos}
use stream_multicast.ObsData.{string_value, int_value, ObsData, IsObsData, c_str}
use stream_multicast.VerticalTransition.{
  VerticalTransitionMode, follow, cut, custom, VerticalTransitionSettings, TransitionDesc,
  FileExists, split_path, suffixed_vertical_file, generic_file, vertical_stinger_file, instant_plan,
  pick_source, text_of, copy_of, separate_matte, with_matte, same_plan, vertical_copy, stinger_plan,
  plan_by_mode, decide_vertical_transition, stinger_transition_id, cut_transition_id,
}

-- A file that exists, or none.
abbrev is_there : FileExists → Str → Bool
is_there none v = is_empty v
is_there (some exists) v = is_empty v || exists v

when_there : (e : Str → Bool) (v : Str) → is_there (some e) (if e v then v else []) ≡ true
when_there e v = elim (Bool-cases (e v)) [
  | inl t ↦ rw t (either (is_empty v) (e v) t)
  | inr f ↦ rw f refl
]
  where
    either : (a b : Bool) → b ≡ true → (a || b) ≡ true
    either true b h = refl
    either false b h = h

if_there :
    (e : Str → Bool) (b : Bool) (x y : Str)
    → (b ≡ true → is_there (some e) x ≡ true)
    → is_there (some e) y ≡ true
    → is_there (some e) (if b then x else y) ≡ true
if_there e true x y h k = h refl
if_there e false x y h k = k

suffixed-is_there :
    (path : Str) (exists : FileExists) → is_there exists (suffixed_vertical_file path exists) ≡ true
unfolding suffixed_vertical_file
suffixed-is_there path none = refl
suffixed-is_there path (some e) =
    let p = split_path path in
    if_there e (is_empty path || is_empty p.stem) [] _ (λ h. refl)
      (when_there e (p.dir ++ (p.stem ++ (codes "-vertical" ++ p.ext))))

stinger_file-is_there :
    (path configured configured_for : Str) (exists : FileExists)
    → is_there exists (vertical_stinger_file path configured configured_for exists) ≡ true
unfolding vertical_stinger_file
stinger_file-is_there path configured configured_for none = refl
stinger_file-is_there path configured configured_for (some e) =
    if_there e (not (is_empty configured) && str_eq configured_for path && e configured) configured
      _
      (last (not (is_empty configured)) (str_eq configured_for path) (e configured)
        (is_empty configured))
      (if_there e (not (is_empty (suffixed_vertical_file path (some e))))
        (suffixed_vertical_file path (some e)) _ (λ h. suffixed-is_there path (some e))
        (if_there e (is_empty path) [] _ (λ h. refl) (when_there e (generic_file path))))
  where
    last : (a b c d : Bool) → (a && b && c) ≡ true → (d || c) ≡ true
    last a b c d h = ground (arith, h)

module _ {D : Type 0} (o : ObsData D) (h : IsObsData o) (json : D → Option Str) where
  -- The settings of a stinger on the vertical canvas: the video is one that exists, it is silent, and
  -- a matte in a file of its own is one that exists, too.
  pub record IsVertical (exists : FileExists) (source : D) (video text : Str) : Type 0 where
    pub copy : D
    pub written : text ≡ text_of (json copy)
    pub there : (is_empty video ≡ false) × (is_there exists video ≡ true)
    pub plays : h.view copy (codes "path") ≡ some (string_value (c_str video))
    pub silent : h.view copy (codes "audio_monitoring") ≡ some (int_value (pos 0))
    pub matte :
        (separate_matte o json source ≡ false)
        ⊎ ((m : Str) × (is_empty m ≡ false)
            × (is_there exists m ≡ true)
            × (h.view copy (codes "track_matte_path") ≡ some (string_value (c_str m))))

  pub view-vertical_copy :
      (copy : D) (v k : Str)
      → h.view (vertical_copy o json copy v) k ≡ (
          if str_eq (codes "audio_monitoring") k
          then some (int_value (pos 0))
          else if str_eq (codes "path") k
          then some (string_value (c_str v))
          else h.view copy k)
  view-vertical_copy copy v k =
      h.view-set_int (o.set_string copy (codes "path") (c_str v)) (codes "audio_monitoring") (pos 0)
        k
      ∙ ap (λ x. if str_eq (codes "audio_monitoring") k then some (int_value (pos 0)) else x)
          (h.view-set_string copy (codes "path") (c_str v) k)

  -- What with_matte returns for a vertical video, by whether a separate matte is needed and found.
  abbrev matte_pair : D → Str → Bool → Str → Str × D
  matte_pair source v b m =
      if not b
      then (v, source)
      else if is_empty m
      then ([], source)
      else (v, o.set_string source (codes "track_matte_path") (c_str m))

  pair-Vertical :
      (exists : FileExists) (source : D) (t : TransitionDesc D) (v m : Str) (b : Bool)
      → is_empty v ≡ false
      → is_there exists v ≡ true
      → is_there exists m ≡ true
      → separate_matte o json source ≡ b
      → (stinger_plan o json t (matte_pair source v b m)).fade_fallback ≡ false
      → IsVertical exists source v (stinger_plan o json t (matte_pair source v b m)).settings_json
  unfolding str_eq
  pair-Vertical exists source t [] m b n e k s f = ground (arith, n)
  pair-Vertical exists source t (c ∷ v) m false n e k s f = record {
    copy = vertical_copy o json source (c ∷ v);
    written = refl;
    there = (refl, e);
    plays = view-vertical_copy source (c ∷ v) (codes "path");
    silent = view-vertical_copy source (c ∷ v) (codes "audio_monitoring");
    matte = inl s;
  }
  pair-Vertical exists source t (c ∷ v) [] true n e k s f = ground (arith, f)
  pair-Vertical exists source t (c ∷ v) (x ∷ m) true n e k s f =
      let masked = o.set_string source (codes "track_matte_path") (c_str (x ∷ m)) in
      record {
        copy = vertical_copy o json masked (c ∷ v);
        written = refl;
        there = (refl, e);
        plays = view-vertical_copy masked (c ∷ v) (codes "path");
        silent = view-vertical_copy masked (c ∷ v) (codes "audio_monitoring");
        matte = inr (
          x ∷ m,
          refl,
          k,
          view-vertical_copy masked (c ∷ v) (codes "track_matte_path")
              ∙ h.view-set_string source (codes "track_matte_path") (c_str (x ∷ m))
                  (codes "track_matte_path"),
        );
      }

  stinger-Vertical :
      (exists : FileExists) (source : D) (t : TransitionDesc D) (v : Str)
      → is_there exists v ≡ true
      → (stinger_plan o json t (with_matte o json exists source v)).fade_fallback ≡ false
      → IsVertical exists source v
          (stinger_plan o json t (with_matte o json exists source v)).settings_json
  stinger-Vertical exists source t [] e f = ground (arith, f)
  stinger-Vertical exists source t (c ∷ v) e f =
      pair-Vertical exists source t (c ∷ v)
        (suffixed_vertical_file (o.get_string source (codes "track_matte_path")) exists)
        (separate_matte o json source) refl e
        (suffixed-is_there (o.get_string source (codes "track_matte_path")) exists) refl f

  no_fade :
      (t : TransitionDesc D) (pair : Str × D)
      → (stinger_plan o json t pair).id ≡ stinger_transition_id
      → (stinger_plan o json t pair).fade_fallback ≡ false
  no_fade t ([], copy) e = ground (arith, e)
  no_fade t (c ∷ v, copy) e = refl

  -- The video that is chosen for the settings of a stinger.
  abbrev pub video_of : VerticalTransitionSettings → FileExists → D → Str
  video_of settings exists source =
      vertical_stinger_file (o.get_string source (codes "path")) settings.stinger_path
        settings.stinger_source exists

  plan-Vertical :
      (settings : VerticalTransitionSettings) (t : TransitionDesc D) (exists : FileExists)
      (a b : Bool)
      → str_eq t.id stinger_transition_id ≡ b
      → (let copy = copy_of o json t.settings in
          let pair = with_matte o json exists copy (
            vertical_stinger_file
              (o.get_string copy (codes "path"))
              settings.stinger_path
              settings.stinger_source
              exists) in
          let p =
            if a
            then instant_plan
            else if b
            then stinger_plan o json t pair
            else same_plan o json t copy in
          p.id ≡ stinger_transition_id
          → IsVertical exists copy (video_of settings exists copy) p.settings_json)
  plan-Vertical settings t exists true b s e = ground (arith, e)
  plan-Vertical settings t exists false true s e =
      let copy = copy_of o json t.settings in
      let v =
        vertical_stinger_file (o.get_string copy (codes "path")) settings.stinger_path
          settings.stinger_source exists in
      stinger-Vertical exists copy t v
        (stinger_file-is_there (o.get_string copy (codes "path")) settings.stinger_path
          settings.stinger_source exists)
        (no_fade t (with_matte o json exists copy v) e)
  plan-Vertical settings t exists false false s e = ground (
    arith,
    sym (ap (λ i. str_eq i stinger_transition_id) e ∙ str_eq_refl stinger_transition_id) ∙ s,
  )

  by_mode :
      (m : VerticalTransitionMode) (settings : VerticalTransitionSettings) (main : TransitionDesc D)
      (named : Option (TransitionDesc D)) (exists : FileExists)
      → (plan_by_mode o json m settings main named exists).id ≡ stinger_transition_id
      → IsVertical exists
          (copy_of o json (pick_source m main named).settings)
          (video_of settings exists (copy_of o json (pick_source m main named).settings))
          (plan_by_mode o json m settings main named exists).settings_json
  by_mode cut settings main named exists e = ground (arith, e)
  by_mode follow settings main named exists e =
      plan-Vertical settings main exists (is_empty main.id || str_eq main.id cut_transition_id)
        (str_eq main.id stinger_transition_id) refl e
  by_mode custom settings main named exists e =
      let t = pick_source custom main named in
      plan-Vertical settings t exists (is_empty t.id || str_eq t.id cut_transition_id)
        (str_eq t.id stinger_transition_id) refl e

  -- Whatever transition is followed and whatever files exist: a stinger that the vertical canvas shows
  -- plays the video that vertical_stinger_file() chooses, which exists, in silence, and if its matte is
  -- a file of its own, one that exists.
  pub decide-IsVertical :
      (settings : VerticalTransitionSettings) (main : TransitionDesc D)
      (named : Option (TransitionDesc D)) (exists : FileExists)
      → (decide_vertical_transition o json settings main named exists).id ≡ stinger_transition_id
      → (let source = copy_of o json (pick_source settings.mode main named).settings in
          IsVertical exists source
            (video_of settings exists source)
            (decide_vertical_transition o json settings main named exists).settings_json)
  unfolding decide_vertical_transition
  decide-IsVertical settings main named exists e =
      by_mode settings.mode settings main named exists e
