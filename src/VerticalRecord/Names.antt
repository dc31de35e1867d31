-- ===== src/VerticalRecord/Names.antt =====
-- src/core/VerticalRecord.cpp: the names of the files. A number is printed with its decimal digits; a
-- std::tm is that of local_time(), with no negative field.
pub mod Format
pub mod Clip
pub mod Path
pub mod Remux
use stream_multicast.Common.{
  ℕ, zero, suc, ◌+◌, ◌-◌, ◌/◌, ◌%◌, ◌≡◌, Bool, true, false, ◌&&◌, ◌||◌, not, List, [], ◌∷◌, ◌++◌,
  Option, none, some, if◌then◌else◌, Str, codes, is_empty, ◌==◌, leb, ltb, length, map, any,
}
use stream_multicast.Common.Text.{take, drop_back, starts_with}
use stream_multicast.VerticalRecord.Folder.{slash, is_sep, trim_trailing_separators}

-- The digits of a number before `acc`; as much fuel as the number plus one is enough.
abbrev pub digits : ℕ → ℕ → Str → Str
digits zero n acc = acc
digits (suc fuel) n acc =
    let acc' = (48 + n % 10) ∷ acc in
    let rest = digits fuel (n / 10) acc' in if ltb n 10 then acc' else rest

-- `std::to_string` and "%02d".
abbrev pub to_string : ℕ → Str
to_string n = digits (suc n) n []

abbrev pub two_digits : ℕ → Str
two_digits v = if ltb v 10 then 48 ∷ to_string v else to_string v

pub record Tm : Type 0 where
  pub year : ℕ
  pub mon : ℕ
  pub mday : ℕ
  pub hour : ℕ
  pub min : ℕ
  pub sec : ℕ

abbrev pub percent : ℕ
percent = 37

abbrev pub format_codes : Tm → List (Str × Str)
format_codes time =
    (codes "%CCYY", to_string (time.year + 1900))
    ∷ (codes "%YY", two_digits ((time.year + 1900) % 100))
    ∷ (codes "%MM", two_digits (time.mon + 1))
    ∷ (codes "%DD", two_digits time.mday)
    ∷ (codes "%hh", two_digits time.hour)
    ∷ (codes "%mm", two_digits time.min)
    ∷ (codes "%ss", two_digits time.sec)
    ∷ (codes "%%", codes "%")
    ∷ []

-- The first code at the front of the text.
abbrev pub match_code : List (Str × Str) → Str → Option (Str × Str)
match_code [] s = none
match_code ((code, value) ∷ rest) s =
    if starts_with code s then some (code, value) else match_code rest s

-- The loop, with the number of bytes that a code has still to skip.
abbrev pub expand : List (Str × Str) → ℕ → Str → Str
expand table n [] = []
expand table (suc n) (c ∷ s) = expand table n s
expand table zero (c ∷ s) =
    let found = if c == percent then match_code table (c ∷ s) else none in
    elim found [
      | none ↦ c ∷ expand table zero s
      | some (code, value) ↦ value ++ expand table (length code - 1) s
    ]

unfoldable pub format_record_file_stem : Str → Tm → Str
format_record_file_stem format time = expand (format_codes time) 0 format

unfoldable pub vertical_record_numbered_path : Str → Str → ℕ → Str → Str
vertical_record_numbered_path folder stem n extension =
    let base = trim_trailing_separators folder ++ (slash ∷ stem) in
    if leb n 1
    then base ++ extension
    else base ++ (codes " (" ++ (to_string n ++ (codes ")" ++ extension)))

-- The loop from `n` on, of which `left` rounds are left before 1000.
abbrev pub first_free : (Str → Bool) → (ℕ → Str) → ℕ → ℕ → Str → Str
first_free exists candidate n zero path = path
first_free exists candidate n (suc left) path =
    let rest = first_free exists candidate (suc n) left (candidate n) in
    if exists path then rest else path

unfoldable pub vertical_record_file_path : Str → Str → Option (Str → Bool) → Str → Str
vertical_record_file_path folder stem none extension =
    vertical_record_numbered_path folder stem 1 extension
vertical_record_file_path folder stem (some exists) extension =
    first_free exists (λ n. vertical_record_numbered_path folder stem n extension) 2 998
      (vertical_record_numbered_path folder stem 1 extension)

abbrev pub is_forbidden : ℕ → Bool
is_forbidden c = ltb c 32 || c == 127 || any (λ d. c == d) (codes "\\/:*?\"<>|")

abbrev pub max_scene_bytes : ℕ
max_scene_bytes = 80

abbrev pub byte_at : ℕ → Str → ℕ
byte_at n [] = 0
byte_at zero (c ∷ s) = c
byte_at (suc n) (c ∷ s) = byte_at n s

-- `(c & 0xC0) == 0x80`, of a byte.
abbrev pub continues : ℕ → Bool
continues c = c / 64 == 2

-- The loop that moves `cut` off the continuation bytes.
unfoldable pub back_off : Str → ℕ → ℕ
back_off scene zero = zero
back_off scene (suc k) =
    let rest = back_off scene k in if continues (byte_at (suc k) scene) then rest else suc k

unfoldable pub shorten : Str → Str
shorten scene =
    if ltb max_scene_bytes (length scene)
    then take (back_off scene max_scene_bytes) scene
    else scene

abbrev pub is_dot_or_space : ℕ → Bool
is_dot_or_space c = c == 46 || c == 32

-- The name of the scene as it stands in the file's name.
unfoldable pub scene_part : Str → Str
scene_part scene_name =
    let scene =
      drop_back is_dot_or_space
        (shorten (map (λ c. if is_forbidden c then 95 else c) scene_name)) in
    if is_empty scene then codes "vertical" else scene

unfoldable pub clip_file_stem : Tm → Str → Str
clip_file_stem date scene_name =
    format_record_file_stem (codes "%CCYY-%MM-%DD %hh-%mm-%ss") date ++ (45 ∷ scene_part scene_name)

-- `find_last_of`
abbrev pub find_last_of : (ℕ → Bool) → Str → Option ℕ
find_last_of p [] = none
find_last_of p (c ∷ s) = elim (find_last_of p s) [
  | none ↦ if p c then some 0 else none
  | some n ↦ some (suc n)
]

-- What is kept of a path with a dot at one place and a separator at another.
abbrev pub remuxed : Str → Option ℕ → Option ℕ → Str
remuxed path none sep = path ++ codes ".mp4"
remuxed path (some dot) none = take dot path ++ codes ".mp4"
remuxed path (some dot) (some sep) =
    if ltb dot sep then path ++ codes ".mp4" else take dot path ++ codes ".mp4"

unfoldable pub remux_target_path : Str → Str
remux_target_path path = remuxed path (find_last_of (λ c. c == 46) path) (find_last_of is_sep path)
