-- ===== src/Tests/VerticalRecord.antt =====
-- src/core/VerticalRecord on concrete names, folders and settings.
use stream_multicast.Common.{
  ◌≡◌, ◌≤◌, ◌<◌, ◌⊎◌, refl, ℕ, Bool, true, false, ◌&&◌, not, ◌++◌, [], ◌∷◌, some, none,
  if◌then◌else◌, Str, codes, str_eq,
}
use stream_multicast.Common.Int.{eq_ℤ, pos}
use stream_multicast.Recovery.{encode_error}
use stream_multicast.VerticalRecord.Folder.{
  folder, resolve_vertical_record_folder, path_is_on_drive_c, on_drive_c, is_absolute,
}
use stream_multicast.VerticalRecord.Names.{
  Tm, format_record_file_stem, vertical_record_numbered_path, vertical_record_file_path,
  clip_file_stem, scene_part, shorten, remux_target_path,
}
use stream_multicast.VerticalRecord.Names.Clip.{
  IsSafe, IsSceneName, clip_file_stem-IsSafe, stem_format,
}
use stream_multicast.VerticalRecord.Names.Path.{file_path_first_free, recording_never_on_c}
use stream_multicast.VerticalRecord.Encoder.{
  x264_choice, is_nvenc, vertical_record_runtime_fallback, runtime_fallback_lem,
}
use stream_multicast.VerticalRecord.Settings.{VerticalRecordSettings, default_replay}

abbrev noon : Tm
noon = record { year = 126; mon = 9; mday = 4; hour = 12; min = 0; sec = 7 }

clip_name : clip_file_stem noon (codes "a/b. ") ≡ codes "2026-10-04 12-00-07-a_b"
unfolding clip_file_stem format_record_file_stem scene_part shorten
clip_name = refl

remuxed_name : remux_target_path (codes "E:/a.b/clip") ≡ codes "E:/a.b/clip.mp4"
unfolding remux_target_path
remuxed_name = refl

share_refused :
    resolve_vertical_record_folder [] (codes "//?/UNC/pc/c$/v/")
    ≡ on_drive_c (codes "//?/UNC/pc/c$/v")
unfolding resolve_vertical_record_folder is_absolute path_is_on_drive_c
share_refused = refl

clip_file_stem-IsSafe_example :
    IsSafe (clip_file_stem noon (codes "a/b. "))
    × (clip_file_stem noon (codes "a/b. ")
        ≡ format_record_file_stem (codes "%CCYY-%MM-%DD %hh-%mm-%ss") noon
          ++ (45 ∷ scene_part (codes "a/b. ")))
    × IsSceneName (scene_part (codes "a/b. "))
clip_file_stem-IsSafe_example = clip_file_stem-IsSafe noon (codes "a/b. ")

-- The first two names are taken.
abbrev taken : Str → Bool
taken p = if str_eq p (codes "E:/v/x.mkv") then true else str_eq p (codes "E:/v/x (2).mkv")

file_path_first_free_example :
    (k : ℕ) × (vertical_record_file_path (codes "E:/v") (codes "x") (some taken) (codes ".mkv")
      ≡ vertical_record_numbered_path (codes "E:/v") (codes "x") k (codes ".mkv"))
    × (1 ≤ k)
    × (k ≤ 999)
    × ((j : ℕ)
        → 1 ≤ j
        → j < k
        → taken (vertical_record_numbered_path (codes "E:/v") (codes "x") j (codes ".mkv")) ≡ true)
    × ((taken (vertical_record_numbered_path (codes "E:/v") (codes "x") k (codes ".mkv")) ≡ false)
        ⊎ (k ≡ 999))
file_path_first_free_example = file_path_first_free (codes "E:/v") (codes "x") taken (codes ".mkv")

accepted : resolve_vertical_record_folder (codes "E:/rec/") [] ≡ folder (codes "E:/rec/Vertical")
unfolding resolve_vertical_record_folder is_absolute path_is_on_drive_c
accepted = refl

recording_never_on_c_example :
    (path_is_on_drive_c (
        vertical_record_file_path
          (codes "E:/rec/Vertical")
          (format_record_file_stem stem_format noon)
          (some taken)
          (codes ".mkv"))
      ≡ false)
    × (path_is_on_drive_c (
          vertical_record_file_path
            (codes "E:/rec/Vertical")
            (clip_file_stem noon (codes "C:"))
            (some taken)
            (codes ".mkv"))
        ≡ false)
recording_never_on_c_example =
    recording_never_on_c (codes "E:/rec/") [] (codes "E:/rec/Vertical") noon (codes "C:") taken
      (codes ".mkv") accepted

runtime_fallback_lem_example :
    (vertical_record_runtime_fallback encode_error
        (codes "jim_hevc_nvenc")
        false
        (codes "obs_nvenc_hevc_tex" ∷ [])
      ≡ (if eq_ℤ encode_error encode_error && (not false && is_nvenc (codes "jim_hevc_nvenc"))
          then some x264_choice
          else none))
    × (vertical_record_runtime_fallback encode_error x264_choice.type_id false [] ≡ none)
runtime_fallback_lem_example =
    runtime_fallback_lem encode_error (codes "jim_hevc_nvenc") false
      (codes "obs_nvenc_hevc_tex" ∷ []) []

abbrev settings : VerticalRecordSettings
settings = record {
  record_with_main = false;
  folder = codes "E";
  replay = record default_replay { seconds = pos 90; folder = [] };
}
