-- ===== src/Common/Text.antt =====
-- The operations of `std::string` that the components use, on the bytes of a text.
use Prim.Native.Nat.{ℕ, zero, suc, ◌-◌}
use mathlib.Core.Path.{◌≡◌, refl, ap}
use mathlib.Core.Bool.{Bool, true, false, ◌&&◌}
use mathlib.Core.Option.{Option, none, some}
use mathlib.Core.List.{[], ◌∷◌, ◌++◌}
use native.Mathlib.Omega.{arith}
use stream_multicast.Common.Tests.{leb, ◌==◌, if◌then◌else◌, is_empty, Str, str_eq}
use stream_multicast.Common.Lists.{length, All}

abbrev pub take : ℕ → Str → Str
take zero s = []
take (suc n) [] = []
take (suc n) (c ∷ s) = c ∷ take n s

abbrev pub drop : ℕ → Str → Str
drop zero s = s
drop (suc n) [] = []
drop (suc n) (c ∷ s) = drop n s

-- The text from its first byte that fails the test on.
abbrev pub drop_front : (ℕ → Bool) → Str → Str
drop_front p [] = []
drop_front p (c ∷ s) = if p c then drop_front p s else c ∷ s

-- The text up to its last byte that fails the test.
abbrev pub drop_back : (ℕ → Bool) → Str → Str
drop_back p [] = []
drop_back p (c ∷ s) = let rest = drop_back p s in if is_empty rest && p c then [] else c ∷ rest

-- The bytes before the first one that passes the test, and the bytes from there on.
abbrev pub before : (ℕ → Bool) → Str → Str
before p [] = []
before p (c ∷ s) = if p c then [] else c ∷ before p s

abbrev pub from : (ℕ → Bool) → Str → Str
from p [] = []
from p (c ∷ s) = if p c then c ∷ s else from p s

abbrev pub starts_with : Str → Str → Bool
starts_with [] s = true
starts_with (x ∷ xs) [] = false
starts_with (x ∷ xs) (y ∷ ys) = x == y && starts_with xs ys

-- `s.find(sub)`: the first position at which `sub` stands in `s`.
abbrev pub find : Str → Str → Option ℕ
find sub [] = if is_empty sub then some 0 else none
find sub (c ∷ s) =
    if starts_with sub (c ∷ s)
    then some 0
    else elim (find sub s) [ none ↦ none | some n ↦ some (suc n) ]

abbrev pub ends_with : Str → Str → Bool
ends_with sub s = leb (length sub) (length s) && str_eq (drop (length s - length sub) s) sub

pub drop_back-append :
    (p : ℕ → Bool) (s t : Str) → All (λ c. p c ≡ true) t → drop_back p (s ++ t) ≡ drop_back p s
drop_back-append p [] [] h = refl
drop_back-append p [] (c ∷ t) h = ground (arith, drop_back-append p [] t h.1)
drop_back-append p (x ∷ s) t h = ground (arith, drop_back-append p s t h)

pub drop_front-append :
    (p : ℕ → Bool) (s t : Str) → All (λ c. p c ≡ true) s → drop_front p (s ++ t) ≡ drop_front p t
drop_front-append p [] t h = refl
drop_front-append p (c ∷ s) t h = ground (arith, drop_front-append p s t h.1)

pub before-append :
    (p : ℕ → Bool) (s t : Str) → All (λ c. p c ≡ false) s → before p (s ++ t) ≡ s ++ before p t
before-append p [] t h = refl
before-append p (c ∷ s) t h = ground (arith, before-append p s t h.1)

pub from-append : (p : ℕ → Bool) (s t : Str) → All (λ c. p c ≡ false) s → from p (s ++ t) ≡ from p t
from-append p [] t h = refl
from-append p (c ∷ s) t h = ground (arith, from-append p s t h.1)

pub take-append_length : (s t : Str) → take (length s) (s ++ t) ≡ s
take-append_length [] [] = refl
take-append_length [] (c ∷ t) = refl
take-append_length (c ∷ s) t = ap (◌∷◌ c) (take-append_length s t)

pub drop-append_length : (s t : Str) → drop (length s) (s ++ t) ≡ t
drop-append_length [] t = refl
drop-append_length (c ∷ s) t = drop-append_length s t
