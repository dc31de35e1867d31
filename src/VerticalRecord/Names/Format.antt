-- ===== src/VerticalRecord/Names/Format.antt =====
-- src/core/VerticalRecord.cpp: format_record_file_stem() and the numbers that it prints.
use stream_multicast.Common.{
  ℕ, zero, suc, ◌+◌, ◌-◌, ◌*◌, ◌/◌, ◌%◌, ◌<◌, ◌≡◌, refl, sym, ap, ◌∙◌, inl, inr, Bool, true, false,
  ◌&&◌, List, [], ◌∷◌, ◌++◌, none, some, if◌then◌else◌, Str, ◌==◌, leb, ltb, length, All, arith,
  Bool-cases,
}
use stream_multicast.VerticalRecord.Folder.DriveC.{starts_with_digit}
use stream_multicast.VerticalRecord.Names.{
  digits, to_string, two_digits, Tm, percent, format_codes, match_code, expand,
  format_record_file_stem,
}

abbrev pub is_digit : ℕ → Bool
is_digit c = leb 48 c && leb c 57

abbrev pub IsDigits : Str → Type 0
IsDigits s = All (λ c. is_digit c ≡ true) s

either :
    (b : Bool) (s t : Str)
    → starts_with_digit s ≡ true
    → starts_with_digit t ≡ true
    → starts_with_digit (if b then s else t) ≡ true
either true s t h k = h
either false s t h k = k

digit_is : (n : ℕ) → is_digit (48 + n % 10) ≡ true
digit_is n = ground arith

digits-IsDigits : (fuel n : ℕ) (acc : Str) → IsDigits acc → IsDigits (digits fuel n acc)
digits-IsDigits zero n acc h = h
digits-IsDigits (suc fuel) n acc h = elim (Bool-cases (ltb n 10)) [
  | inl e ↦ rw e (digit_is n, h)
  | inr e ↦ rw e (digits-IsDigits fuel (n / 10) ((48 + n % 10) ∷ acc) (digit_is n, h))
]

pub to_string-IsDigits : (n : ℕ) → IsDigits (to_string n)
to_string-IsDigits n = digits-IsDigits (suc n) n [] tt

pub to_string_starts : (n : ℕ) → starts_with_digit (to_string n) ≡ true
to_string_starts n = digits_start n n []
  where
    digits_start : (fuel n : ℕ) (acc : Str) → starts_with_digit (digits (suc fuel) n acc) ≡ true
    digits_start zero n acc =
        either (ltb n 10) ((48 + n % 10) ∷ acc) ((48 + n % 10) ∷ acc) (digit_is n) (digit_is n)
    digits_start (suc fuel) n acc =
        either (ltb n 10) ((48 + n % 10) ∷ acc) _ (digit_is n)
          (digits_start fuel (n / 10) ((48 + n % 10) ∷ acc))

pub two_digits-IsDigits : (n : ℕ) → IsDigits (two_digits n)
two_digits-IsDigits n =
    either (ltb n 10) (48 ∷ to_string n) (to_string n) (refl, to_string-IsDigits n)
      (to_string-IsDigits n)
  where
    either : (b : Bool) (s t : Str) → IsDigits s → IsDigits t → IsDigits (if b then s else t)
    either true s t h k = h
    either false s t h k = k

-- What the digits mean, and that the fuel is enough for all of them.
abbrev pub value : ℕ → Str → ℕ
value v [] = v
value v (c ∷ s) = value (10 * v + (c - 48)) s

digits-value : (fuel n : ℕ) (acc : Str) → n < fuel → value 0 (digits fuel n acc) ≡ value n acc
digits-value zero n acc h = omega (arith, h)
digits-value (suc fuel) n acc h = elim (Bool-cases (ltb n 10)) [
  | inl e ↦ rw e (ap (λ v. value v acc) (last n e))
  | inr e ↦ rw e (
      digits-value fuel (n / 10) ((48 + n % 10) ∷ acc) (shorter fuel n h e)
      ∙ ap (λ v. value v acc) (split n))
]
  where
    last : (n : ℕ) → ltb n 10 ≡ true → 10 * 0 + (48 + n % 10 - 48) ≡ n
    last n e = ground (arith, e)

    split : (n : ℕ) → 10 * (n / 10) + (48 + n % 10 - 48) ≡ n
    split n = omega arith

    shorter : (fuel n : ℕ) → n < suc fuel → ltb n 10 ≡ false → n / 10 < fuel
    shorter fuel n h e = ground (arith, h, e)

-- A printed number is the decimal notation of the number.
pub to_string_lem : (n : ℕ) → value 0 (to_string n) ≡ n
to_string_lem n = digits-value (suc n) n [] (omega arith)

pub to_string_injective : (m n : ℕ) → to_string m ≡ to_string n → m ≡ n
to_string_injective m n e = sym (to_string_lem m) ∙ ap (value 0) e ∙ to_string_lem n

-- A text with each percent sign doubled.
abbrev pub escape : Str → Str
escape [] = []
escape (c ∷ s) = if c == percent then percent ∷ percent ∷ escape s else c ∷ escape s

pub expand_plain :
    (table : List (Str × Str)) (c : ℕ) (s : Str)
    → c == percent ≡ false
    → expand table 0 (c ∷ s) ≡ c ∷ expand table 0 s
expand_plain table c s e =
    ap
      (λ b. elim (if b then match_code table (c ∷ s) else none) as (λ o. Str) [
        | none ↦ c ∷ expand table 0 s
        | some p ↦ p.1 ++ expand table (length p.0 - 1) s
      ])
      e

-- Any text can be written as a format: the percent signs doubled, it is what the format expands to.
pub format-escape : (s : Str) (time : Tm) → format_record_file_stem (escape s) time ≡ s
unfolding format_record_file_stem
format-escape [] time = refl
format-escape (c ∷ s) time = elim (Bool-cases (c == percent)) [
  | inl e ↦ rw e (ground (arith, e, format-escape s time))
  | inr e ↦
      rw e (expand_plain (format_codes time) c (escape s) e ∙ ap (◌∷◌ c) (format-escape s time))
]
