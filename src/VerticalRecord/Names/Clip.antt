-- ===== src/VerticalRecord/Names/Clip.antt =====
-- src/core/VerticalRecord.cpp: clip_file_stem() is a name that Windows takes.
use stream_multicast.Common.{
  ℕ, zero, suc, ◌+◌, ◌≤◌, ◌≡◌, ◌⊎◌, refl, sym, ap, subst, ◌∙◌, inl, inr, Bool, true, false, ◌&&◌,
  [], ◌∷◌, ◌++◌, if◌then◌else◌, Str, codes, is_empty, ltb, length, map, All, All-append, arith,
  Bool-cases,
}
use stream_multicast.Common.Text.{take, drop_back}
use stream_multicast.VerticalRecord.Names.{
  to_string, two_digits, Tm, format_codes, expand, format_record_file_stem, is_forbidden, byte_at,
  continues, back_off, shorten, is_dot_or_space, scene_part, clip_file_stem,
}
use stream_multicast.VerticalRecord.Folder.DriveC.{starts_with_digit}
use stream_multicast.VerticalRecord.Names.Format.{
  is_digit, IsDigits, to_string-IsDigits, to_string_starts, two_digits-IsDigits,
}

abbrev pub IsSafe : Str → Type 0
IsSafe s = All (λ c. is_forbidden c ≡ false) s

abbrev pub last_is : (ℕ → Bool) → Str → Bool
last_is p [] = false
last_is p (c ∷ []) = p c
last_is p (c ∷ d ∷ s) = last_is p (d ∷ s)

replaced-IsSafe : (s : Str) → IsSafe (map (λ c. if is_forbidden c then 95 else c) s)
replaced-IsSafe [] = tt
replaced-IsSafe (c ∷ s) = elim (Bool-cases (is_forbidden c)) [
  | inl e ↦ (ap (λ b. is_forbidden (if b then 95 else c)) e, replaced-IsSafe s)
  | inr e ↦ (ap (λ b. is_forbidden (if b then 95 else c)) e ∙ e, replaced-IsSafe s)
]

take-IsSafe : (n : ℕ) (s : Str) → IsSafe s → IsSafe (take n s)
take-IsSafe zero s h = tt
take-IsSafe (suc n) [] h = tt
take-IsSafe (suc n) (c ∷ s) h = (h.0, take-IsSafe n s h.1)

either_IsSafe : (b : Bool) (s t : Str) → IsSafe s → IsSafe t → IsSafe (if b then s else t)
either_IsSafe true s t h k = h
either_IsSafe false s t h k = k

drop_back-IsSafe : (p : ℕ → Bool) (s : Str) → IsSafe s → IsSafe (drop_back p s)
drop_back-IsSafe p [] h = tt
drop_back-IsSafe p (c ∷ s) h =
    either_IsSafe (is_empty (drop_back p s) && p c) [] (c ∷ drop_back p s) tt
      (h.0, drop_back-IsSafe p s h.1)

length-take : (n : ℕ) (s : Str) → length (take n s) ≤ n
length-take zero s = omega arith
length-take (suc n) [] = omega arith
length-take (suc n) (c ∷ s) = omega (arith, length-take n s)

length-drop_back : (p : ℕ → Bool) (s : Str) → length (drop_back p s) ≤ length s
length-drop_back p [] = omega arith
length-drop_back p (c ∷ s) = ground (arith, length-drop_back p s)

last_kept :
    (p : ℕ → Bool) (c : ℕ) (rest : Str)
    → last_is p rest ≡ false
    → last_is p (if is_empty rest && p c then [] else c ∷ rest) ≡ false
last_kept p c [] h = elim (Bool-cases (p c)) [ inl e ↦ rw e refl | inr e ↦ rw e e ]
last_kept p c (d ∷ rest) h = h

pub last-drop_back : (p : ℕ → Bool) (s : Str) → last_is p (drop_back p s) ≡ false
last-drop_back p [] = refl
last-drop_back p (c ∷ s) = last_kept p c (drop_back p s) (last-drop_back p s)

back_off-le : (s : Str) (k : ℕ) → back_off s k ≤ k
unfolding back_off
back_off-le s zero = omega arith
back_off-le s (suc k) = ground (arith, back_off-le s k)

shorten-IsSafe : (s : Str) → IsSafe s → IsSafe (shorten s)
unfolding shorten
shorten-IsSafe s h =
    either_IsSafe (ltb 80 (length s)) (take (back_off s 80) s) s (take-IsSafe (back_off s 80) s h) h

length-shorten : (s : Str) → length (shorten s) ≤ 80
unfolding shorten
length-shorten s = elim (Bool-cases (ltb 80 (length s))) [
  | inl e ↦ rw e (omega (arith, length-take (back_off s 80) s, back_off-le s 80))
  | inr e ↦ rw e (at_most (length s) e)
]
  where
    at_most : (n : ℕ) → ltb 80 n ≡ false → n ≤ 80
    at_most n e = ground (arith, e)

-- The cut is at the front or before a byte that begins a character.
pub cut_between_characters :
    (s : Str) (k : ℕ) → (back_off s k ≡ 0) ⊎ (continues (byte_at (back_off s k) s) ≡ false)
unfolding back_off
cut_between_characters s zero = inl refl
cut_between_characters s (suc k) = elim (Bool-cases (continues (byte_at (suc k) s))) [
  | inl e ↦ rw e (cut_between_characters s k)
  | inr e ↦ rw e (inr e)
]

date_stem :
    (t : Tm)
    → format_record_file_stem (codes "%CCYY-%MM-%DD %hh-%mm-%ss") t
      ≡ to_string (t.year + 1900)
        ++ (45
            ∷ (two_digits (t.mon + 1)
                ++ (45
                    ∷ (two_digits t.mday
                        ++ (32
                            ∷ (two_digits t.hour
                                ++ (45
                                    ∷ (two_digits t.min ++ (45 ∷ (two_digits t.sec ++ []))))))))))
unfolding format_record_file_stem
date_stem t = refl

-- The name of the scene in the file's name: safe, of 1 to 80 bytes, and without a dot or a space at
-- its end.
pub record IsSceneName (s : Str) : Type 0 where
  pub safe : IsSafe s
  pub short : length s ≤ 80
  pub there : is_empty s ≡ false
  pub ended : last_is is_dot_or_space s ≡ false

scene_part-IsSceneName : (name : Str) → IsSceneName (scene_part name)
unfolding scene_part
scene_part-IsSceneName name =
    pick cleaned (drop_back-IsSafe is_dot_or_space _ (shorten-IsSafe _ (replaced-IsSafe name)))
      small (last-drop_back is_dot_or_space (shorten replaced))
  where
    replaced : Str
    replaced = map (λ c. if is_forbidden c then 95 else c) name

    cleaned : Str
    cleaned = drop_back is_dot_or_space (shorten replaced)

    small : length cleaned ≤ 80
    small =
        omega (arith, length-drop_back is_dot_or_space (shorten replaced), length-shorten replaced)

    pick :
        (s : Str)
        → IsSafe s
        → length s ≤ 80
        → last_is is_dot_or_space s ≡ false
        → IsSceneName (if is_empty s then codes "vertical" else s)
    pick [] h l e = record {
      safe = (refl, (refl, (refl, (refl, (refl, (refl, (refl, (refl, tt))))))));
      short = omega arith;
      there = refl;
      ended = refl;
    }
    pick (c ∷ s) h l e = record { safe = h; short = l; there = refl; ended = e }

digits-IsSafe : (s : Str) → IsDigits s → IsSafe s
digits-IsSafe [] h = tt
digits-IsSafe (c ∷ s) h = (allowed c h.0, digits-IsSafe s h.1)
  where
    allowed : (c : ℕ) → is_digit c ≡ true → is_forbidden c ≡ false
    allowed c h = ground (arith, h)

-- A printed number before a safe text.
printed-IsSafe : (s t : Str) → IsDigits s → IsSafe t → IsSafe (s ++ t)
printed-IsSafe s t h k = All-append (λ c. is_forbidden c ≡ false) s t (digits-IsSafe s h) k

date-IsSafe : (t : Tm) → IsSafe (format_record_file_stem (codes "%CCYY-%MM-%DD %hh-%mm-%ss") t)
date-IsSafe t = subst IsSafe (sym (date_stem t)) (
    printed-IsSafe (to_string (t.year + 1900)) _ (to_string-IsDigits (t.year + 1900)) (
      refl,
      printed-IsSafe (two_digits (t.mon + 1)) _ (two_digits-IsDigits (t.mon + 1)) (
        refl,
        printed-IsSafe (two_digits t.mday) _ (two_digits-IsDigits t.mday) (
          refl,
          printed-IsSafe (two_digits t.hour) _ (two_digits-IsDigits t.hour) (
            refl,
            printed-IsSafe (two_digits t.min) _ (two_digits-IsDigits t.min)
                (refl, printed-IsSafe (two_digits t.sec) [] (two_digits-IsDigits t.sec) tt),
          ),
        ),
      ),
    ))

-- The name of a clip is the date, a dash and a name of the scene; no byte of it is forbidden in a
-- file's name, the name of the scene has 1 to 80 bytes and no dot or space at its end.
pub clip_file_stem-IsSafe :
    (date : Tm) (name : Str)
    → IsSafe (clip_file_stem date name)
      × (clip_file_stem date name
          ≡ format_record_file_stem (codes "%CCYY-%MM-%DD %hh-%mm-%ss") date
            ++ (45 ∷ scene_part name))
      × IsSceneName (scene_part name)
unfolding clip_file_stem
clip_file_stem-IsSafe date name = (
  All-append (λ c. is_forbidden c ≡ false)
      (format_record_file_stem (codes "%CCYY-%MM-%DD %hh-%mm-%ss") date) (45 ∷ scene_part name)
      (date-IsSafe date) (refl, (scene_part-IsSceneName name).safe),
  refl,
  scene_part-IsSceneName name,
)

pub starts_append : (s t : Str) → starts_with_digit s ≡ true → starts_with_digit (s ++ t) ≡ true
starts_append [] t h = ground (arith, h)
starts_append (c ∷ s) t h = h

-- A format that begins with the year gives a text that begins with a digit.
year_first :
    (t : Tm) (s : Str)
    → expand (format_codes t) 0 (codes "%CCYY" ++ s)
      ≡ to_string (t.year + 1900) ++ expand (format_codes t) 0 s
year_first t s = refl

pub year_starts :
    (t : Tm) (s : Str) → starts_with_digit (format_record_file_stem (codes "%CCYY" ++ s) t) ≡ true
unfolding format_record_file_stem
year_starts t s =
    ap starts_with_digit (year_first t s)
    ∙ starts_append (to_string (t.year + 1900)) (expand (format_codes t) 0 s)
        (to_string_starts (t.year + 1900))

-- The names of clips and of recordings begin with a digit.
pub clip_starts : (date : Tm) (name : Str) → starts_with_digit (clip_file_stem date name) ≡ true
unfolding clip_file_stem
clip_starts date name =
    starts_append (format_record_file_stem (codes "%CCYY-%MM-%DD %hh-%mm-%ss") date)
      (45 ∷ scene_part name) (year_starts date (codes "-%MM-%DD %hh-%mm-%ss"))

abbrev pub stem_format : Str
stem_format = codes "%CCYY-%MM-%DD %hh-%mm-%ss Vertical"

pub record_starts :
    (date : Tm) → starts_with_digit (format_record_file_stem stem_format date) ≡ true
record_starts date = year_starts date (codes "-%MM-%DD %hh-%mm-%ss Vertical")
