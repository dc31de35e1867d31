-- ===== src/VerticalRecord/Folder.antt =====
-- src/core/VerticalRecord.cpp: the folder of the recordings, which is never on drive C. Letters are
-- compared as the functions of <cctype> do in the "C" locale.
pub mod DriveC
use stream_multicast.Common.{
  ℕ, ◌+◌, ◌≡◌, Bool, true, false, ◌&&◌, ◌||◌, not, List, [], ◌∷◌, ◌++◌, if◌then◌else◌, Str, codes,
  is_empty, ◌==◌, leb,
}
use stream_multicast.Common.Text.{drop_back, before, from}

abbrev pub slash : ℕ
slash = 47

abbrev pub backslash : ℕ
backslash = 92

abbrev pub is_sep : ℕ → Bool
is_sep c = c == slash || c == backslash

-- The first byte stays.
abbrev pub trim_trailing_separators : Str → Str
trim_trailing_separators [] = []
trim_trailing_separators (c ∷ s) = c ∷ drop_back is_sep s

-- `std::toupper(c) == upper`, for the code of an upper case letter.
abbrev pub is_letter : ℕ → ℕ → Bool
is_letter upper c = c == upper || c == 32 + upper

abbrev pub is_alpha : ℕ → Bool
is_alpha c = leb 65 c && leb c 90 || leb 97 c && leb c 122

-- What follows the prefix: "UNC\host\share" is "\\host\share".
abbrev pub without_unc : Str → Str
without_unc [] = []
without_unc (u ∷ []) = u ∷ []
without_unc (u ∷ n ∷ []) = u ∷ n ∷ []
without_unc (u ∷ n ∷ c ∷ []) = u ∷ n ∷ c ∷ []
without_unc (u ∷ n ∷ c ∷ s ∷ rest) =
    if is_letter 85 u && is_letter 78 n && is_letter 67 c && is_sep s
    then backslash ∷ backslash ∷ rest
    else u ∷ n ∷ c ∷ s ∷ rest

abbrev pub without_namespace_prefix : Str → Str
without_namespace_prefix [] = []
without_namespace_prefix (a ∷ []) = a ∷ []
without_namespace_prefix (a ∷ b ∷ []) = a ∷ b ∷ []
without_namespace_prefix (a ∷ b ∷ c ∷ []) = a ∷ b ∷ c ∷ []
without_namespace_prefix (a ∷ b ∷ c ∷ d ∷ rest) =
    if not (is_sep a) || not (is_sep b) || (not (c == 63) && not (c == 46)) || not (is_sep d)
    then a ∷ b ∷ c ∷ d ∷ rest
    else without_unc rest

-- The share, from the separator after the host on.
abbrev pub share_from : Str → Str
share_from [] = []
share_from (s ∷ rest) = before is_sep rest

abbrev pub unc_share : Str → Str
unc_share [] = []
unc_share (a ∷ []) = []
unc_share (a ∷ b ∷ []) = []
unc_share (a ∷ b ∷ c ∷ rest) =
    if not (is_sep a) || not (is_sep b) || is_sep c then [] else share_from (from is_sep (c ∷ rest))

abbrev pub is_drive : Str → Bool
is_drive [] = false
is_drive (a ∷ []) = false
is_drive (a ∷ b ∷ rest) = is_alpha a && b == 58

-- The tests of `is_absolute` on a path without the prefix.
abbrev pub is_rooted : Str → Bool
is_rooted [] = false
is_rooted (a ∷ []) = false
is_rooted (a ∷ b ∷ []) = is_drive (a ∷ b ∷ [])
is_rooted (a ∷ b ∷ c ∷ rest) =
    if is_drive (a ∷ b ∷ c ∷ rest) then is_sep c else is_sep a && is_sep b && not (is_sep c)

unfoldable pub is_absolute : Str → Bool
is_absolute path = is_rooted (without_namespace_prefix path)

abbrev pub is_c_drive : Str → Bool
is_c_drive [] = false
is_c_drive (a ∷ []) = false
is_c_drive (a ∷ b ∷ rest) = (a == 67 || a == 99) && b == 58

-- `share` is "C$" or "c$".
abbrev pub is_c_share : Str → Bool
is_c_share [] = false
is_c_share (a ∷ []) = false
is_c_share (a ∷ b ∷ []) = (a == 67 || a == 99) && b == 36
is_c_share (a ∷ b ∷ c ∷ rest) = false

unfoldable pub path_is_on_drive_c : Str → Bool
path_is_on_drive_c path =
    let p = without_namespace_prefix path in if is_c_drive p then true else is_c_share (unc_share p)

-- The result: the folder, or why it was refused.
pub data VerticalRecordFolder : Type 0 where
  folder : Str → VerticalRecordFolder
  main_path_unknown : VerticalRecordFolder
  not_absolute on_drive_c : Str → VerticalRecordFolder

abbrev pub check_folder : Str → VerticalRecordFolder
check_folder f =
    if not (is_absolute f)
    then not_absolute f
    else if path_is_on_drive_c f
    then on_drive_c f
    else folder f

unfoldable pub resolve_vertical_record_folder : Str → Str → VerticalRecordFolder
resolve_vertical_record_folder main_record_path configured =
    if not (is_empty configured)
    then check_folder (trim_trailing_separators configured)
    else if is_empty main_record_path
    then main_path_unknown
    else check_folder (trim_trailing_separators main_record_path ++ codes "/Vertical")
