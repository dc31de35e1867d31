-- ===== src/Common/Assoc.antt =====
-- std::map<std::string, A>, as the list of its entries by ascending keys.
use mathlib.Core.Path.{◌≡◌, refl, ap}
use mathlib.Core.Logic.{inl, inr}
use mathlib.Core.Bool.{Bool, true, false, ◌&&◌, ◌||◌}
use mathlib.Core.Option.{Option, none, some}
use mathlib.Core.List.{List, [], ◌∷◌}
use stream_multicast.Common.Tests.{
  Str, ltb, ◌==◌, if◌then◌else◌, str_eq, str_eq_refl, str_eq→eq, Bool-cases,
}

abbrev pub Assoc {ℓ} : Type ℓ → Type ℓ
Assoc A = List (Str × A)

unfoldable pub str_lt : Str → Str → Bool
str_lt s [] = false
str_lt [] (d ∷ t) = true
str_lt (c ∷ s) (d ∷ t) = let rest = str_lt s t in ltb c d || ((c == d) && rest)

abbrev pub map_option {ℓ κ} : {A : Type ℓ} {B : Type κ} → (A → B) → Option A → Option B
map_option f none = none
map_option f (some a) = some (f a)

module _ {ℓ} {A : Type ℓ} where
  -- `find`
  unfoldable pub lookup : Str → Assoc A → Option A
  lookup key [] = none
  lookup key ((k, a) ∷ rest) = if str_eq k key then some a else lookup key rest

  -- Replaces the value of the key, or inserts it in its place.
  unfoldable pub store : Str → A → Assoc A → Assoc A
  store key a [] = (key, a) ∷ []
  store key a ((k, old) ∷ rest) =
      let stored = store key a rest in
      if str_eq k key
      then (k, a) ∷ rest
      else if str_lt key k
      then (key, a) ∷ (k, old) ∷ rest
      else (k, old) ∷ stored

  unfoldable pub erase : Str → Assoc A → Assoc A
  erase key [] = []
  erase key ((k, a) ∷ rest) =
      let erased = erase key rest in if str_eq k key then rest else (k, a) ∷ erased

  unfoldable pub map_values : (A → A) → Assoc A → Assoc A
  map_values f [] = []
  map_values f ((k, a) ∷ rest) = (k, f a) ∷ map_values f rest

  pub store-lookup : (key : Str) (a : A) (m : Assoc A) → lookup key (store key a m) ≡ some a
  unfolding store lookup
  store-lookup key a [] = rw (str_eq_refl key) refl
  store-lookup key a ((k, old) ∷ rest) = elim (Bool-cases (str_eq k key)) [
    | inl e ↦ rw (e, e) refl
    | inr e ↦ elim (Bool-cases (str_lt key k)) [
      | inl l ↦ rw (e, l, str_eq_refl key) refl
      | inr l ↦ rw (e, l, e) (store-lookup key a rest)
    ]
  ]

  pub other-store :
      (key other : Str) (a : A) (m : Assoc A)
      → str_eq key other ≡ false
      → lookup other (store key a m) ≡ lookup other m
  unfolding store lookup
  other-store key other a [] n = rw n refl
  other-store key other a ((k, old) ∷ rest) n = elim (Bool-cases (str_eq k key)) [
    | inl e ↦ rw e (rw (ap (λ x. str_eq x other) (str_eq→eq k key e)) (rw n refl))
    | inr e ↦ elim (Bool-cases (str_lt key k)) [
      | inl l ↦ rw (e, l, n) refl
      | inr l ↦
          rw (e, l)
            (ap (λ r. if str_eq k other then some old else r) (other-store key other a rest n))
    ]
  ]

  pub other-erase :
      (key other : Str) (m : Assoc A)
      → str_eq key other ≡ false
      → lookup other (erase key m) ≡ lookup other m
  unfolding erase lookup
  other-erase key other [] n = refl
  other-erase key other ((k, old) ∷ rest) n = elim (Bool-cases (str_eq k key)) [
    | inl e ↦ rw e (rw (ap (λ x. str_eq x other) (str_eq→eq k key e)) (rw n refl))
    | inr e ↦ rw e (ap (λ r. if str_eq k other then some old else r) (other-erase key other rest n))
  ]

  pub lookup-map_values :
      (f : A → A) (key : Str) (m : Assoc A)
      → lookup key (map_values f m) ≡ map_option f (lookup key m)
  unfolding lookup map_values
  lookup-map_values f key [] = refl
  lookup-map_values f key ((k, a) ∷ rest) = elim (Bool-cases (str_eq k key)) [
    | inl e ↦ rw e refl
    | inr e ↦ rw e (lookup-map_values f key rest)
  ]
