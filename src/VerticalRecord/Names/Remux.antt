-- ===== src/VerticalRecord/Names/Remux.antt =====
-- src/core/VerticalRecord.cpp: remux_target_path() and the extension of a path.
use stream_multicast.Common.{
  ℕ, suc, ◌<◌, ◌≡◌, refl, sym, ap, ◌∙◌, inl, inr, Bool, true, false, [], ◌∷◌, ◌++◌, Option, none,
  some, if◌then◌else◌, Str, codes, ◌==◌, ltb, length, All, arith, Bool-cases,
}
use stream_multicast.Common.Text.{take, take-append_length}
use stream_multicast.VerticalRecord.Folder.{is_sep}
use stream_multicast.VerticalRecord.Names.{find_last_of, remuxed, remux_target_path}

-- The position in a text with one more byte before it.
abbrev shifted : Bool → Option ℕ → Option ℕ
shifted here none = if here then some 0 else none
shifted here (some n) = some (suc n)

last_none : (p : ℕ → Bool) (s : Str) → All (λ c. p c ≡ false) s → find_last_of p s ≡ none
last_none p [] h = refl
last_none p (c ∷ s) h =
    ap (shifted (p c)) (last_none p s h.1) ∙ ap (λ b. if b then some 0 else none) h.0

last_some :
    (p : ℕ → Bool) (s t : Str) (c : ℕ)
    → p c ≡ true
    → All (λ c. p c ≡ false) t
    → find_last_of p (s ++ (c ∷ t)) ≡ some (length s)
last_some p [] t c e h =
    ap (shifted (p c)) (last_none p t h) ∙ ap (λ b. if b then some 0 else none) e
last_some p (x ∷ s) t c e h = ap (shifted (p x)) (last_some p s t c e h)

last_before :
    (p : ℕ → Bool) (s t : Str)
    → All (λ c. p c ≡ false) t
    → find_last_of p (s ++ t) ≡ find_last_of p s
last_before p [] t h = last_none p t h
last_before p (c ∷ s) t h = ap (shifted (p c)) (last_before p s t h)

last_inside : (p : ℕ → Bool) (s : Str) (n : ℕ) → find_last_of p s ≡ some n → n < length s
last_inside p [] n e = ground (arith, e)
last_inside p (c ∷ s) n e = inside (p c) (find_last_of p s) n e (last_inside p s)
  where
    inside :
        (b : Bool) (o : Option ℕ) (n : ℕ)
        → shifted b o ≡ some n
        → ((m : ℕ) → o ≡ some m → m < length s)
        → n < suc (length s)
    inside true none n e h = ground (arith, e)
    inside false none n e h = ground (arith, e)
    inside b (some m) n e h = ground (arith, e, h m refl)

abbrev is_dot : ℕ → Bool
is_dot c = c == 46

-- Neither a dot nor a separator.
abbrev pub IsPlain : Str → Type 0
IsPlain s = All (λ c. (is_dot c ≡ false) × (is_sep c ≡ false)) s

no_dot : (s : Str) → IsPlain s → All (λ c. is_dot c ≡ false) s
no_dot [] h = tt
no_dot (c ∷ s) h = (h.0.0, no_dot s h.1)

no_sep : (s : Str) → IsPlain s → All (λ c. is_sep c ≡ false) s
no_sep [] h = tt
no_sep (c ∷ s) h = (h.0.1, no_sep s h.1)

-- A dot that no separator follows is kept out, with what follows it.
cut_there :
    (path : Str) (n : ℕ) (sep : Option ℕ)
    → ((m : ℕ) → sep ≡ some m → m < n)
    → remuxed path (some n) sep ≡ take n path ++ codes ".mp4"
cut_there path n none h = refl
cut_there path n (some m) h =
    ap (λ b. if b then path ++ codes ".mp4" else take n path ++ codes ".mp4") (after n m (h m refl))
  where
    after : (n m : ℕ) → m < n → ltb n m ≡ false
    after n m h = ground (arith, h)

-- The extension of a path that has one is replaced.
pub remux-extension :
    (base ext : Str) → IsPlain ext → remux_target_path (base ++ (46 ∷ ext)) ≡ base ++ codes ".mp4"
unfolding remux_target_path
remux-extension base ext h =
    ap (λ o. remuxed (base ++ (46 ∷ ext)) o (find_last_of is_sep (base ++ (46 ∷ ext))))
      (last_some is_dot base ext 46 refl (no_dot ext h))
    ∙ cut_there (base ++ (46 ∷ ext)) (length base) (find_last_of is_sep (base ++ (46 ∷ ext)))
        (λ m e.
          last_inside is_sep base m
            (sym (last_before is_sep base (46 ∷ ext) (refl, no_sep ext h)) ∙ e))
    ∙ ap (λ s. s ++ codes ".mp4") (take-append_length base (46 ∷ ext))

-- A path without an extension, in a folder whose name may have a dot, gets one.
pub remux-plain :
    (dir name : Str) (sep : ℕ)
    → is_sep sep ≡ true
    → IsPlain name
    → remux_target_path (dir ++ (sep ∷ name)) ≡ (dir ++ (sep ∷ name)) ++ codes ".mp4"
unfolding remux_target_path
remux-plain dir name sep e h =
    ap (remuxed path (find_last_of is_dot path)) (last_some is_sep dir name sep e (no_sep name h))
    ∙ ap (λ o. remuxed path o (some (length dir)))
        (last_before is_dot dir (sep ∷ name) (sep_no_dot sep e, no_dot name h))
    ∙ added (find_last_of is_dot dir) (λ n. last_inside is_dot dir n)
  where
    path : Str
    path = dir ++ (sep ∷ name)

    sep_no_dot : (c : ℕ) → is_sep c ≡ true → is_dot c ≡ false
    sep_no_dot c e = ground (arith, e)

    earlier : (n m : ℕ) → n < m → ltb n m ≡ true
    earlier n m h = ground (arith, h)

    added :
        (o : Option ℕ)
        → ((n : ℕ) → o ≡ some n → n < length dir)
        → remuxed path o (some (length dir)) ≡ path ++ codes ".mp4"
    added none h = refl
    added (some n) h =
        ap (λ b. if b then path ++ codes ".mp4" else take n path ++ codes ".mp4")
          (earlier n (length dir) (h n refl))

-- Whatever the path, the target is some text with the extension ".mp4".
remuxed_shape :
    (path : Str) (dot sep : Option ℕ) → (base : Str) × (remuxed path dot sep ≡ base ++ codes ".mp4")
remuxed_shape path none sep = (path, refl)
remuxed_shape path (some n) none = (take n path, refl)
remuxed_shape path (some n) (some m) = elim (Bool-cases (ltb n m)) [
  | inl e ↦ (path, rw e refl)
  | inr e ↦ (take n path, rw e refl)
]

-- The target of a target is the target itself.
pub remux_twice : (path : Str) → remux_target_path (remux_target_path path) ≡ remux_target_path path
unfolding remux_target_path
remux_twice path =
    let (base, e) = remuxed_shape path (find_last_of is_dot path) (find_last_of is_sep path) in
    ap remux_target_path e
    ∙ remux-extension base (codes "mp4") ((refl, refl), ((refl, refl), ((refl, refl), tt)))
    ∙ sym e
