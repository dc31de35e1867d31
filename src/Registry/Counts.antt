-- ===== src/Registry/Counts.antt =====
-- How many endpoints have an id.
use stream_multicast.Common.{
  ℕ, suc, ◌+◌, ◌-◌, ◌≤◌, ◌≡◌, refl, sym, ap, ◌∙◌, inl, inr, false, List, [], ◌∷◌, ◌++◌, Option,
  none, some, arith, if◌then◌else◌, Str, str_eq, str_eq→eq, Bool-cases, find_if,
}
use stream_multicast.Common.Int.{pos}
use stream_multicast.Endpoint.{Endpoint}
use stream_multicast.Registry.{has_id, replace, erase_first, place_found, place_all}

abbrev pub count_id : List Endpoint → Str → ℕ
count_id [] id = 0
count_id (e ∷ es) id = (if has_id id e then 1 else 0) + count_id es id

pub count-append :
    (xs ys : List Endpoint) (id : Str) → count_id (xs ++ ys) id ≡ count_id xs id + count_id ys id
count-append [] ys id = omega arith
count-append (x ∷ xs) ys id = omega (arith, count-append xs ys id)

-- An endpoint is found exactly if some has the id.
pub found-count :
    (id : Str) (es : List Endpoint) (e : Endpoint)
    → find_if (has_id id) es ≡ some e
    → 1 ≤ count_id es id
found-count id [] e f = ground arith
found-count id (x ∷ es) e f = ground (arith, f, found-count id es e)

pub unfound-count :
    (id : Str) (es : List Endpoint) → find_if (has_id id) es ≡ none → count_id es id ≡ 0
unfound-count id [] f = refl
unfound-count id (x ∷ es) f = ground (arith, f, unfound-count id es)

pub replace-count :
    (ep : Endpoint) (es : List Endpoint) (id : Str) → count_id (replace ep es) id ≡ count_id es id
unfolding replace
replace-count ep [] id = refl
replace-count ep (e ∷ es) id = elim (Bool-cases (has_id ep.id e)) [
  | inl h ↦
      rw h
        (ap (λ x. (if str_eq x id then 1 else 0) + count_id es id) (sym (str_eq→eq e.id ep.id h)))
  | inr h ↦ rw h (omega (arith, replace-count ep es id))
]

pub erase-count_self :
    (id : Str) (es : List Endpoint) → count_id (erase_first id es) id ≡ count_id es id - 1
unfolding erase_first
erase-count_self id [] = refl
erase-count_self id (e ∷ es) = elim (Bool-cases (has_id id e)) [
  | inl h ↦ rw h (omega arith)
  | inr h ↦ ground (arith, h, erase-count_self id es)
]

pub erase-count_other :
    (id other : Str) (es : List Endpoint)
    → str_eq id other ≡ false
    → count_id (erase_first id es) other ≡ count_id es other
unfolding erase_first
erase-count_other id other [] n = refl
erase-count_other id other (e ∷ es) n = elim (Bool-cases (has_id id e)) [
  | inl h ↦ rw h (
      omega (
        arith,
        ap {B = ℕ} (λ b. if b then 1 else 0) (ap (λ x. str_eq x other) (str_eq→eq e.id id h) ∙ n),
      ))
  | inr h ↦ rw h (omega (arith, erase-count_other id other es n))
]

place_found-count :
    (id : Str) (i : ℕ) (eps : List Endpoint) (found : Option Endpoint) (j : Str)
    → count_id (place_found id i eps found).0 j ≡ count_id eps j
place_found-count id i eps none j = refl
place_found-count id i eps (some ep) j = replace-count (record ep { sort_order = pos i }) eps j

pub place_all-count :
    (ids : List Str) (i : ℕ) (eps : List Endpoint) (j : Str)
    → count_id (place_all ids i eps).0 j ≡ count_id eps j
unfolding place_all
place_all-count [] i eps j = refl
place_all-count (id ∷ ids) i eps j =
    place_all-count ids (suc i) (place_found id i eps (find_if (has_id id) eps)).0 j
    ∙ place_found-count id i eps (find_if (has_id id) eps) j
