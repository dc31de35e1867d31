-- ===== src/VerticalRecord/Folder/DriveC.antt =====
-- src/core/VerticalRecord.cpp: what an accepted folder says of the paths below it.
use stream_multicast.Common.{
  ℕ, ◌≡◌, refl, ap, ◌∙◌, inl, inr, Bool, true, false, ◌&&◌, ◌||◌, not, [], ◌∷◌, ◌++◌, if◌then◌else◌,
  Str, ◌==◌, leb, arith, Bool-cases,
}
use stream_multicast.Common.Text.{before, from}
use stream_multicast.VerticalRecord.Folder.{
  slash, is_sep, is_letter, without_unc, without_namespace_prefix, share_from, unc_share, is_rooted,
  is_absolute, is_c_drive, is_c_share, path_is_on_drive_c,
}

-- A text that begins with a decimal digit, as the time in a file's name does.
abbrev pub starts_with_digit : Str → Bool
starts_with_digit [] = false
starts_with_digit (c ∷ s) = leb 48 c && leb c 57

abbrev below : Str → Str → Str
below f s = f ++ (slash ∷ s)

before-below : (f s : Str) → before is_sep (below f s) ≡ before is_sep f
before-below [] s = refl
before-below (c ∷ f) s = ground (arith, before-below f s)

-- A share that begins with a digit is not that of drive C.
digit_share : (s : Str) → starts_with_digit s ≡ true → is_c_share (before is_sep s) ≡ false
digit_share [] h = ground (arith, h)
digit_share (a ∷ []) h = ground (arith, h)
digit_share (a ∷ b ∷ []) h = ground (arith, h)
digit_share (a ∷ b ∷ c ∷ s) h = ground (arith, h)

share_from-below :
    (f s : Str)
    → starts_with_digit s ≡ true
    → is_c_share (share_from (from is_sep (below f s))) ≡ is_c_share (share_from (from is_sep f))
share_from-below [] s h = digit_share s h
share_from-below (c ∷ f) s h = elim (Bool-cases (is_sep c)) [
  | inl e ↦ rw e (ap is_c_share (before-below f s))
  | inr e ↦ rw e (share_from-below f s h)
]

abbrev on_c : Str → Bool
on_c p = if is_c_drive p then true else is_c_share (unc_share p)

-- The same for a path that is rooted and has no prefix.
on_c-below :
    (p s : Str) → is_rooted p ≡ true → starts_with_digit s ≡ true → on_c (below p s) ≡ on_c p
on_c-below [] s r h = ground (arith, r)
on_c-below (a ∷ []) s r h = ground (arith, r)
on_c-below (a ∷ b ∷ []) s r h = ground (arith, r)
on_c-below (a ∷ b ∷ c ∷ rest) s r h = ground (arith, r, share_from-below (c ∷ rest) s h)

without_unc-below :
    (p s : Str)
    → is_rooted (without_unc p) ≡ true
    → without_unc (below p s) ≡ below (without_unc p) s
without_unc-below [] s r = ground (arith, r)
without_unc-below (a ∷ []) s r = ground (arith, r)
without_unc-below (a ∷ b ∷ []) [] r = refl
without_unc-below (a ∷ b ∷ []) (x ∷ s) r = ground (arith, r)
without_unc-below (a ∷ b ∷ c ∷ []) s r = ground (arith, r)
without_unc-below (a ∷ b ∷ c ∷ d ∷ rest) s r =
    elim (Bool-cases (is_letter 85 a && is_letter 78 b && is_letter 67 c && is_sep d)) [
      | inl e ↦ rw e refl
      | inr e ↦ rw e refl
    ]

-- What begins with a digit is no path to drive C, with or without a prefix before it.
digit_path : (s : Str) → starts_with_digit s ≡ true → on_c (without_unc s) ≡ false
digit_path [] h = ground (arith, h)
digit_path (a ∷ []) h = ground (arith, h)
digit_path (a ∷ b ∷ []) h = ground (arith, h)
digit_path (a ∷ b ∷ c ∷ []) h = ground (arith, h)
digit_path (a ∷ b ∷ c ∷ d ∷ s) h = ground (arith, h)

-- The test that a path has no prefix.
abbrev no_prefix : ℕ → ℕ → ℕ → ℕ → Bool
no_prefix a b c d =
    not (is_sep a) || not (is_sep b) || (not (c == 63) && not (c == 46)) || not (is_sep d)

below_prefix :
    (a b c d : ℕ) (rest s : Str) (free : Bool)
    → is_rooted (if free then a ∷ b ∷ c ∷ d ∷ rest else without_unc rest) ≡ true
    → starts_with_digit s ≡ true
    → on_c (if free then a ∷ b ∷ c ∷ d ∷ (below rest s) else without_unc (below rest s))
      ≡ on_c (if free then a ∷ b ∷ c ∷ d ∷ rest else without_unc rest)
below_prefix a b c d rest s true r h = on_c-below (a ∷ b ∷ c ∷ d ∷ rest) s r h
below_prefix a b c d rest s false r h =
    ap on_c (without_unc-below rest s r) ∙ on_c-below (without_unc rest) s r h

three_below :
    (a b c : ℕ) (s : Str)
    → is_rooted (a ∷ b ∷ c ∷ []) ≡ true
    → starts_with_digit s ≡ true
    → on_c (without_namespace_prefix (below (a ∷ b ∷ c ∷ []) s)) ≡ on_c (a ∷ b ∷ c ∷ [])
three_below a b c s r h = elim (Bool-cases (no_prefix a b c slash)) [
  | inl e ↦ rw e (on_c-below (a ∷ b ∷ c ∷ []) s r h)
  | inr e ↦ rw e (digit_path s h ∙ ground (arith, e))
]

without_prefix-below :
    (p s : Str)
    → is_rooted (without_namespace_prefix p) ≡ true
    → starts_with_digit s ≡ true
    → on_c (without_namespace_prefix (below p s)) ≡ on_c (without_namespace_prefix p)
without_prefix-below [] s r h = ground (arith, r)
without_prefix-below (a ∷ []) s r h = ground (arith, r)
without_prefix-below (a ∷ b ∷ []) [] r h = ground (arith, h)
without_prefix-below (a ∷ b ∷ []) (x ∷ s) r h =
    ap on_c (ap (λ t. if t then a ∷ b ∷ slash ∷ x ∷ s else without_unc s) (first a b x r))
    ∙ on_c-below (a ∷ b ∷ []) (x ∷ s) r h
  where
    first : (a b x : ℕ) → is_rooted (a ∷ b ∷ []) ≡ true → no_prefix a b slash x ≡ true
    first a b x r = ground (arith, r)
without_prefix-below (a ∷ b ∷ c ∷ []) s r h = three_below a b c s r h
without_prefix-below (a ∷ b ∷ c ∷ d ∷ rest) s r h =
    below_prefix a b c d rest s (no_prefix a b c d) r h

pub path_is_on_drive_c-below :
    (f s : Str)
    → is_absolute f ≡ true
    → starts_with_digit s ≡ true
    → path_is_on_drive_c (f ++ (slash ∷ s)) ≡ path_is_on_drive_c f
unfolding is_absolute path_is_on_drive_c
path_is_on_drive_c-below f s a h = without_prefix-below f s a h
