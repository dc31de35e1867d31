-- ===== src/VerticalRecord/Names/Path.antt =====
-- src/core/VerticalRecord.cpp: the paths of the files, which are free and not on drive C.
use stream_multicast.Common.{
  ℕ, zero, suc, ◌+◌, ◌≤◌, ◌<◌, ◌≡◌, ◌⊎◌, refl, ap, subst, ◌∙◌, inl, inr, Bool, true, false, ◌&&◌,
  not, [], ◌∷◌, ◌++◌, some, if◌then◌else◌, Str, codes, is_empty, leb, ltb, arith, Bool-cases,
}
use stream_multicast.Common.Text.{drop_back}
use stream_multicast.VerticalRecord.Folder.{
  is_sep, slash, trim_trailing_separators, resolve_vertical_record_folder, check_folder,
  VerticalRecordFolder, folder, main_path_unknown, not_absolute, on_drive_c, is_absolute,
  path_is_on_drive_c,
}
use stream_multicast.VerticalRecord.Folder.DriveC.{starts_with_digit, path_is_on_drive_c-below}
use stream_multicast.VerticalRecord.Names.Clip.{
  starts_append, clip_starts, record_starts, stem_format,
}
use stream_multicast.VerticalRecord.Names.{
  Tm, format_record_file_stem, clip_file_stem, first_free, vertical_record_numbered_path,
  vertical_record_file_path,
}

-- The candidate that the loop ends with, counted from the one before `n`.
pub first_free_lem :
    (exists : Str → Bool) (candidate : ℕ → Str) (n left : ℕ)
    → (k : ℕ) × (first_free exists candidate (suc n) left (candidate n) ≡ candidate k)
      × (n ≤ k)
      × (k ≤ n + left)
      × ((j : ℕ) → n ≤ j → j < k → exists (candidate j) ≡ true)
      × ((exists (candidate k) ≡ false) ⊎ (k ≡ n + left))
first_free_lem exists candidate n zero =
    (n, refl, omega arith, omega arith, (λ j l u. ground (arith, l, u)), inr (omega arith))
first_free_lem exists candidate n (suc left) = elim (Bool-cases (exists (candidate n))) [
  | inl e ↦
      let (k, same, low, high, taken, end) = first_free_lem exists candidate (suc n) left in
      rw e (
        k,
        same,
        omega (arith, low),
        omega (arith, high),
        (λ j l u. elim (Bool-cases (ltb n j)) [
          | inl a ↦ taken j (ground (arith, a)) u
          | inr b ↦ subst (λ i. exists (candidate i) ≡ true) (same_index n j b l) e
        ]),
        (elim end [ inl a ↦ inl a | inr b ↦ inr (omega (arith, b)) ]),
      )
  | inr e ↦ rw e (n, refl, omega arith, omega arith, (λ j l u. ground (arith, l, u)), inl e)
]
  where
    same_index : (n j : ℕ) → ltb n j ≡ false → n ≤ j → n ≡ j
    same_index n j e l = ground (arith, e, l)

-- The path is the first of "<stem>", "<stem> (2)", up to "<stem> (999)" that does not exist, and the
-- last of them if all exist.
pub file_path_first_free :
    (f stem : Str) (exists : Str → Bool) (extension : Str)
    → (k : ℕ) × (vertical_record_file_path f stem (some exists) extension
        ≡ vertical_record_numbered_path f stem k extension)
      × (1 ≤ k)
      × (k ≤ 999)
      × ((j : ℕ) → 1 ≤ j → j < k → exists (vertical_record_numbered_path f stem j extension) ≡ true)
      × ((exists (vertical_record_numbered_path f stem k extension) ≡ false) ⊎ (k ≡ 999))
unfolding vertical_record_file_path
file_path_first_free f stem exists extension =
    first_free_lem exists (λ n. vertical_record_numbered_path f stem n extension) 1 998

-- Trimming twice trims no more.
drop_back_twice : (p : ℕ → Bool) (s : Str) → drop_back p (drop_back p s) ≡ drop_back p s
drop_back_twice p [] = refl
drop_back_twice p (c ∷ s) = elim (Bool-cases (is_empty (drop_back p s) && p c)) [
  | inl e ↦ rw e refl
  | inr e ↦ rw e (
      ap (λ t. if is_empty t && p c then [] else c ∷ t) (drop_back_twice p s)
      ∙ ap (λ b. if b then [] else c ∷ drop_back p s) e)
]

append_assoc : (s t u : Str) → (s ++ t) ++ u ≡ s ++ (t ++ u)
append_assoc [] t u = refl
append_assoc (c ∷ s) t u = ap (◌∷◌ c) (append_assoc s t u)

append_there : (s t : Str) → is_empty t ≡ false → is_empty (s ++ t) ≡ false
append_there [] t n = n
append_there (c ∷ s) t n = refl

-- A text whose end is kept is kept.
drop_back_kept :
    (p : ℕ → Bool) (s t : Str)
    → drop_back p t ≡ t
    → is_empty t ≡ false
    → drop_back p (s ++ t) ≡ s ++ t
drop_back_kept p [] t h n = h
drop_back_kept p (c ∷ s) t h n =
    ap (λ r. if is_empty r && p c then [] else c ∷ r) (drop_back_kept p s t h n)
    ∙ ap (λ b. if b && p c then [] else c ∷ (s ++ t)) (append_there s t n)

abbrev IsTrimmed : Str → Type 0
IsTrimmed f = trim_trailing_separators f ≡ f

trim-IsTrimmed : (s : Str) → IsTrimmed (trim_trailing_separators s)
trim-IsTrimmed [] = refl
trim-IsTrimmed (c ∷ s) = ap (◌∷◌ c) (drop_back_twice is_sep s)

vertical-IsTrimmed : (s : Str) → IsTrimmed (s ++ codes "/Vertical")
vertical-IsTrimmed [] = refl
vertical-IsTrimmed (c ∷ s) = ap (◌∷◌ c) (drop_back_kept is_sep s (codes "/Vertical") refl refl)

-- An accepted folder is absolute, not on drive C, and has no separator at its end.
pub record IsGood (f : Str) : Type 0 where
  pub absolute : is_absolute f ≡ true
  pub not_c : path_is_on_drive_c f ≡ false
  pub trimmed : trim_trailing_separators f ≡ f

abbrev GoodIfAny : VerticalRecordFolder → Type 0
GoodIfAny (folder f) = IsGood f
GoodIfAny main_path_unknown = Unit
GoodIfAny (not_absolute f) = Unit
GoodIfAny (on_drive_c f) = Unit

check-Good : (f : Str) → IsTrimmed f → GoodIfAny (check_folder f)
check-Good f t = elim (Bool-cases (is_absolute f)) [
  | inr e ↦ rw e tt
  | inl e ↦ elim (Bool-cases (path_is_on_drive_c f)) [
    | inl c ↦ rw (e, c) tt
    | inr c ↦ rw (e, c) (record { absolute = e; not_c = c; trimmed = t })
  ]
]

resolved-IsGood :
    (main configured f : Str) → resolve_vertical_record_folder main configured ≡ folder f → IsGood f
unfolding resolve_vertical_record_folder
resolved-IsGood main configured f e = subst GoodIfAny e (outcome main configured)
  where
    outcome :
        (main configured : Str)
        → GoodIfAny (
            if not (is_empty configured)
            then check_folder (trim_trailing_separators configured)
            else if is_empty main
            then main_path_unknown
            else check_folder (trim_trailing_separators main ++ codes "/Vertical"))
    outcome main (c ∷ s) = check-Good (trim_trailing_separators (c ∷ s)) (trim-IsTrimmed (c ∷ s))
    outcome [] [] = tt
    outcome (c ∷ s) [] =
        check-Good (trim_trailing_separators (c ∷ s) ++ codes "/Vertical")
          (vertical-IsTrimmed (trim_trailing_separators (c ∷ s)))

numbered_off_c :
    (f stem : Str) (n : ℕ) (extension : Str)
    → IsGood f
    → starts_with_digit stem ≡ true
    → path_is_on_drive_c (vertical_record_numbered_path f stem n extension) ≡ false
unfolding vertical_record_numbered_path
numbered_off_c f stem n extension g d = elim (Bool-cases (leb n 1)) [
  | inl e ↦ rw (e, g.trimmed) (below extension)
  | inr e ↦ rw (e, g.trimmed) (below _)
]
  where
    below : (tail : Str) → path_is_on_drive_c ((f ++ (slash ∷ stem)) ++ tail) ≡ false
    below tail =
        ap path_is_on_drive_c (append_assoc f (slash ∷ stem) tail)
        ∙ path_is_on_drive_c-below f (stem ++ tail) g.absolute (starts_append stem tail d)
        ∙ g.not_c

-- Whatever the settings are, the file of a recording and of a clip, in a folder that was accepted,
-- is not on drive C.
pub recording_never_on_c :
    (main configured f : Str) (date : Tm) (scene : Str) (exists : Str → Bool) (extension : Str)
    → resolve_vertical_record_folder main configured ≡ folder f
    → (path_is_on_drive_c (
          vertical_record_file_path f
            (format_record_file_stem stem_format date)
            (some exists)
            extension)
        ≡ false)
      × (path_is_on_drive_c
            (vertical_record_file_path f (clip_file_stem date scene) (some exists) extension)
          ≡ false)
recording_never_on_c main configured f date scene exists extension e = (
  off_c (format_record_file_stem stem_format date) (record_starts date),
  off_c (clip_file_stem date scene) (clip_starts date scene),
)
  where
    off_c :
        (stem : Str)
        → starts_with_digit stem ≡ true
        → path_is_on_drive_c (vertical_record_file_path f stem (some exists) extension) ≡ false
    off_c stem d =
        let (k, same, low, high, taken, end) = file_path_first_free f stem exists extension in
        ap path_is_on_drive_c same
        ∙ numbered_off_c f stem k extension (resolved-IsGood main configured f e) d
