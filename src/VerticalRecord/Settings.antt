-- ===== src/VerticalRecord/Settings.antt =====
-- src/core/VerticalRecord.cpp: the settings file of the recording and of the replay buffer. A null
-- pointer in place of the document is left out.
use stream_multicast.Common.{
  ◌≡◌, ap, ◌∙◌, Bool, true, List, [], ◌∷◌, Option, none, some, arith, if◌then◌else◌, Str, codes,
  str_eq,
}
use stream_multicast.Common.Int.{ℤ, pos, ◌≤ℤ◌, ltb_ℤ}
use stream_multicast.ObsData.{
  Value, string_value, int_value, bool_value, obj_value, ObsData, IsObsData, c_str,
}
use stream_multicast.ObsData.Docs.{set_all, held_after, view-set_all}
use stream_multicast.Endpoint.Stored.{string_or, int_or, bool_or}
use stream_multicast.Endpoint.Roundtrip.{
  IsText, IsInt, c_str_text, string_or_held, int_or_held, bool_or_held,
}

pub record VerticalReplaySettings : Type 0 where
  pub enabled_with_main_replay : Bool
  pub seconds : ℤ
  pub max_size_mb : ℤ
  pub folder : Str

pub record VerticalRecordSettings : Type 0 where
  pub record_with_main : Bool
  pub folder : Str
  pub replay : VerticalReplaySettings

abbrev pub default_replay : VerticalReplaySettings
default_replay = record {
  enabled_with_main_replay = true;
  seconds = pos 30;
  max_size_mb = pos 512;
  folder = codes "E:\\Videos\\Clips\\vertical";
}

-- `std::clamp`
abbrev pub clamp_ℤ : ℤ → ℤ → ℤ → ℤ
clamp_ℤ n low high = if ltb_ℤ n low then low else if ltb_ℤ high n then high else n

abbrev pub clamp_vertical_replay_settings : VerticalReplaySettings → VerticalReplaySettings
clamp_vertical_replay_settings s = record s {
  seconds = clamp_ℤ s.seconds (pos 30) (pos 60);
  max_size_mb = clamp_ℤ s.max_size_mb (pos 64) (pos 2048);
}

abbrev pub replay_rows : {D : Type 0} → VerticalReplaySettings → List (Str × Value D)
replay_rows r =
    (codes "enabled_with_main_replay", bool_value r.enabled_with_main_replay)
    ∷ (codes "seconds", int_value r.seconds)
    ∷ (codes "max_size_mb", int_value r.max_size_mb)
    ∷ (codes "folder", string_value (c_str r.folder))
    ∷ []

abbrev pub settings_rows : {D : Type 0} → ObsData D → VerticalRecordSettings → List (Str × Value D)
settings_rows o s =
    (codes "record_with_main", bool_value s.record_with_main)
    ∷ (codes "folder", string_value (c_str s.folder))
    ∷ (
      codes "replay",
      obj_value (set_all o o.create (replay_rows (clamp_vertical_replay_settings s.replay))),
    )
    ∷ []

unfoldable pub vertical_record_settings_save :
    {D : Type 0} → ObsData D → D → VerticalRecordSettings → D
vertical_record_settings_save o doc s = set_all o doc (settings_rows o s)

abbrev pub load_replay : {D : Type 0} → ObsData D → Option D → VerticalReplaySettings
load_replay o none = default_replay
load_replay o (some replay) = record {
  enabled_with_main_replay = bool_or o replay true (codes "enabled_with_main_replay");
  seconds = int_or o replay (pos 30) (codes "seconds");
  max_size_mb = int_or o replay (pos 512) (codes "max_size_mb");
  folder = string_or o replay default_replay.folder (codes "folder");
}

unfoldable pub vertical_record_settings_load : {D : Type 0} → ObsData D → D → VerticalRecordSettings
vertical_record_settings_load o doc = record {
  record_with_main = bool_or o doc true (codes "record_with_main");
  folder = o.get_string doc (codes "folder");
  replay = clamp_vertical_replay_settings (load_replay o (o.get_obj doc (codes "replay")));
}

clamp_range :
    (n low high : ℤ) → low ≤ℤ high → (low ≤ℤ clamp_ℤ n low high) × (clamp_ℤ n low high ≤ℤ high)
clamp_range n low high h = ground (arith, h)

clamp_twice :
    (n low high : ℤ) → low ≤ℤ high → clamp_ℤ (clamp_ℤ n low high) low high ≡ clamp_ℤ n low high
clamp_twice n low high h = ground (arith, h)

clamp_fits : (n : ℤ) → IsInt (clamp_ℤ n (pos 30) (pos 60))
clamp_fits n = ground arith

size_fits : (n : ℤ) → IsInt (clamp_ℤ n (pos 64) (pos 2048))
size_fits n = ground arith

-- Settings without zero bytes in their texts are read back as they were written, with the length and
-- the size of the replay buffer clamped, over a document that may hold anything before.
pub load-save :
    {D : Type 0} (o : ObsData D) (h : IsObsData o) (doc : D) (s : VerticalRecordSettings)
    → IsText s.folder
    → IsText s.replay.folder
    → vertical_record_settings_load o (vertical_record_settings_save o doc s)
      ≡ record s { replay = clamp_vertical_replay_settings s.replay }
unfolding vertical_record_settings_save vertical_record_settings_load str_eq
load-save {D} o h doc s t u = λ i. record {
  record_with_main =
      bool_or_held o h saved true (codes "record_with_main") s.record_with_main
        (held (codes "record_with_main")) i;
  folder =
      (h.get_string-some saved (codes "folder") (c_str s.folder) (held (codes "folder"))
          ∙ c_str_text s.folder t)
        i;
  replay =
      (ap (λ d. clamp_vertical_replay_settings (load_replay o d))
            (h.get_obj-some saved (codes "replay") inner (held (codes "replay")))
          ∙ loaded)
        i;
}
  where
    saved : D
    saved = set_all o doc (settings_rows o s)

    clamped : VerticalReplaySettings
    clamped = clamp_vertical_replay_settings s.replay

    inner : D
    inner = set_all o o.create (replay_rows clamped)

    held : (key : Str) → h.view saved key ≡ held_after (settings_rows o s) key (h.view doc key)
    held key = view-set_all o h (settings_rows o s) doc key

    kept : (key : Str) → h.view inner key ≡ held_after (replay_rows clamped) key none
    kept key =
        view-set_all o h (replay_rows clamped) o.create key
        ∙ ap (held_after (replay_rows clamped) key) (h.view-create key)

    loaded : clamp_vertical_replay_settings (load_replay o (some inner)) ≡ clamped
    loaded = λ i. record {
      enabled_with_main_replay =
          bool_or_held o h inner true (codes "enabled_with_main_replay")
            clamped.enabled_with_main_replay (kept (codes "enabled_with_main_replay")) i;
      seconds =
          (ap (λ n. clamp_ℤ n (pos 30) (pos 60))
                (int_or_held o h inner (pos 30) (codes "seconds") clamped.seconds
                  (kept (codes "seconds")) (clamp_fits s.replay.seconds))
              ∙ clamp_twice s.replay.seconds (pos 30) (pos 60) (omega arith))
            i;
      max_size_mb =
          (ap (λ n. clamp_ℤ n (pos 64) (pos 2048))
                (int_or_held o h inner (pos 512) (codes "max_size_mb") clamped.max_size_mb
                  (kept (codes "max_size_mb")) (size_fits s.replay.max_size_mb))
              ∙ clamp_twice s.replay.max_size_mb (pos 64) (pos 2048) (omega arith))
            i;
      folder =
          string_or_held o h inner default_replay.folder (codes "folder") clamped.folder
            (kept (codes "folder")) u i;
    }

-- Whatever the file holds, the replay buffer is 30 to 60 seconds long and has 64 to 2048 megabytes.
pub loaded_range :
    {D : Type 0} (o : ObsData D) (doc : D)
    → (let r = (vertical_record_settings_load o doc).replay in
        (pos 30 ≤ℤ r.seconds)
        × (r.seconds ≤ℤ pos 60)
        × (pos 64 ≤ℤ r.max_size_mb)
        × (r.max_size_mb ≤ℤ pos 2048))
unfolding vertical_record_settings_load
loaded_range o doc =
    let r = load_replay o (o.get_obj doc (codes "replay")) in
    let a = clamp_range r.seconds (pos 30) (pos 60) (omega arith) in
    let b = clamp_range r.max_size_mb (pos 64) (pos 2048) (omega arith) in (a.0, a.1, b.0, b.1)
