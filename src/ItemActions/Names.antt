-- ===== src/ItemActions/Names.antt =====
-- src/core/ItemActions.cpp: unique_name(). Its loop has no bound of its own; fuel for one round more
-- than there are names is enough.
use stream_multicast.Common.{
  ℕ, zero, suc, ◌+◌, ◌≤◌, ◌<◌, ◌≡◌, ◌⊎◌, refl, sym, ap, subst, ◌∙◌, ltb, inl, inr, Bool, true,
  false, ◌||◌, not, List, [], ◌∷◌, ◌++◌, Option, none, some, if◌then◌else◌, Str, str_eq, str_eq→eq,
  arith, any, length, Bool-cases,
}
use stream_multicast.VerticalRecord.Names.{to_string}
use stream_multicast.VerticalRecord.Names.Format.{to_string_injective}

abbrev pub is_taken : List Str → Str → Bool
is_taken existing n = any (λ e. str_eq e n) existing

abbrev pub numbered : Str → ℕ → Str
numbered base i = base ++ (32 ∷ to_string i)

-- The loop from `i` on; `none` is a loop that is still running.
abbrev pub search_name : ℕ → Str → List Str → ℕ → Option Str
search_name zero base existing i = none
search_name (suc fuel) base existing i =
    let rest = search_name fuel base existing (suc i) in
    if not (is_taken existing (numbered base i)) then some (numbered base i) else rest

unfoldable pub unique_name : ℕ → Str → List Str → Option Str
unique_name fuel base existing =
    if not (is_taken existing base) then some base else search_name fuel base existing 2

-- The list without the first entry that is the name.
abbrev without : Str → List Str → List Str
without name [] = []
without name (x ∷ xs) = let rest = without name xs in if str_eq x name then xs else x ∷ rest

length-without :
    (name : Str) (xs : List Str)
    → is_taken xs name ≡ true
    → suc (length (without name xs)) ≡ length xs
length-without name [] h = ground (arith, h)
length-without name (x ∷ xs) h = ground (arith, h, length-without name xs)

taken-without :
    (name other : Str) (xs : List Str)
    → str_eq name other ≡ false
    → is_taken (without name xs) other ≡ is_taken xs other
taken-without name other [] h = refl
taken-without name other (x ∷ xs) h = elim (Bool-cases (str_eq x name)) [
  | inl e ↦
      rw e
        (sym (ap (λ b. b || is_taken xs other) (ap (λ y. str_eq y other) (str_eq→eq x name e) ∙ h)))
  | inr e ↦ rw e (ap (λ b. str_eq x other || b) (taken-without name other xs h))
]

append_cancel : (s t u : Str) → s ++ t ≡ s ++ u → t ≡ u
append_cancel [] t u e = e
append_cancel (c ∷ s) t u e = append_cancel s t u (ap tail_of e)
  where
    tail_of : Str → Str
    tail_of [] = []
    tail_of (x ∷ xs) = xs

-- Different numbers give different names.
numbered_differ :
    (base : Str) (i j : ℕ) → i < j → str_eq (numbered base i) (numbered base j) ≡ false
numbered_differ base i j l = elim (Bool-cases (str_eq (numbered base i) (numbered base j))) [
  | inr e ↦ e
  | inl e ↦ ground (
    arith,
    l,
    to_string_injective i j (
        ap tail_of (
          append_cancel base (32 ∷ to_string i) (32 ∷ to_string j)
            (str_eq→eq (numbered base i) (numbered base j) e))),
  )
]
  where
    tail_of : Str → Str
    tail_of [] = []
    tail_of (x ∷ xs) = xs

-- So many names in a row can only be taken by as many entries.
pigeonhole :
    (base : Str) (k i : ℕ) (xs : List Str)
    → ((j : ℕ) → i ≤ j → j < i + k → is_taken xs (numbered base j) ≡ true)
    → k ≤ length xs
pigeonhole base zero i xs h = omega arith
pigeonhole base (suc k) i xs h =
    let rest = pigeonhole base k (suc i) (without (numbered base i) xs) (λ j l u.
      taken-without (numbered base i) (numbered base j) xs
        (numbered_differ base i j (omega (arith, l)))
      ∙ h j (omega (arith, l)) (omega (arith, u))) in
    omega (arith, rest, length-without (numbered base i) xs (h i (omega arith) (omega arith)))

-- What the loop has found: a free name, the first one, or none among the numbers that it tried.
pub data Found (base : Str) (existing : List Str) (i fuel : ℕ) : Option Str → Type 0 where
  found :
      (k : ℕ)
      → i ≤ k
      → is_taken existing (numbered base k) ≡ false
      → ((j : ℕ) → i ≤ j → j < k → is_taken existing (numbered base j) ≡ true)
      → Found base existing i fuel (some (numbered base k))
  running :
      ((j : ℕ) → i ≤ j → j < i + fuel → is_taken existing (numbered base j) ≡ true)
      → Found base existing i fuel none

later_taken :
    (base : Str) (existing : List Str) (i n : ℕ)
    → is_taken existing (numbered base i) ≡ true
    → ((j : ℕ) → suc i ≤ j → j < n → is_taken existing (numbered base j) ≡ true)
    → (j : ℕ) → i ≤ j
    → j < n
    → is_taken existing (numbered base j) ≡ true
later_taken base existing i n t h j l u = elim (Bool-cases (ltb i j)) [
  | inl e ↦ h j (ground (arith, e)) u
  | inr e ↦ subst (λ k. is_taken existing (numbered base k) ≡ true) (same i j e l) t
]
  where
    same : (i j : ℕ) → ltb i j ≡ false → i ≤ j → i ≡ j
    same i j e l = ground (arith, e, l)

search-Found :
    (fuel : ℕ) (base : Str) (existing : List Str) (i : ℕ)
    → Found base existing i fuel (search_name fuel base existing i)
search-Found zero base existing i = running (λ j l u. ground (arith, l, u))
search-Found (suc fuel) base existing i = elim (Bool-cases (is_taken existing (numbered base i))) [
  | inr e ↦ rw e (found i (omega arith) e (λ j l u. ground (arith, l, u)))
  | inl e ↦
      rw e
        (widen (search_name fuel base existing (suc i)) e (search-Found fuel base existing (suc i)))
]
  where
    widen :
        (o : Option Str)
        → is_taken existing (numbered base i) ≡ true
        → Found base existing (suc i) fuel o
        → Found base existing i (suc fuel) o
    widen o e (found k l f t) = found k (omega (arith, l)) f (later_taken base existing i k e t)
    widen o e (running t) =
        running (λ j l u. later_taken base existing i (suc i + fuel) e t j l (omega (arith, u)))

-- With more rounds than there are names the loop ends, at a name that is not taken: it is the base,
-- or, only if the base is taken, the first of "base 2", "base 3" and so on that is free.
pub unique_name_lem :
    (base : Str) (existing : List Str) (fuel : ℕ)
    → length existing < fuel
    → (name : Str) × (unique_name fuel base existing ≡ some name)
      × (is_taken existing name ≡ false)
      × ((name ≡ base)
          ⊎ ((k : ℕ) × (name ≡ numbered base k)
              × (2 ≤ k)
              × (is_taken existing base ≡ true)
              × ((j : ℕ) → 2 ≤ j → j < k → is_taken existing (numbered base j) ≡ true)))
unfolding unique_name
unique_name_lem base existing fuel l = elim (Bool-cases (is_taken existing base)) [
  | inr e ↦ rw e (base, refl, e, inl refl)
  | inl e ↦
      let searched = ap (λ b. if not b then some base else search_name fuel base existing 2) e in
      let (name, s, free, which) =
        ends e (search_name fuel base existing 2) (search-Found fuel base existing 2) in
      (name, searched ∙ s, free, which)
]
  where
    ends :
        is_taken existing base ≡ true
        → (o : Option Str) → Found base existing 2 fuel o
        → (name : Str) × (o ≡ some name)
          × (is_taken existing name ≡ false)
          × ((name ≡ base)
              ⊎ ((k : ℕ) × (name ≡ numbered base k)
                  × (2 ≤ k)
                  × (is_taken existing base ≡ true)
                  × ((j : ℕ) → 2 ≤ j → j < k → is_taken existing (numbered base j) ≡ true)))
    ends e o (found k low f t) = (numbered base k, refl, f, inr (k, refl, low, e, t))
    ends e o (running t) = ground (arith, l, pigeonhole base fuel 2 existing t)
