-- ===== src/ItemActions/Lock.antt =====
-- src/core/LockPolicy.cpp: which items an edit may change. Of an item only the id and the lock are
-- read here; what else it has is the type `P`.
use stream_multicast.Common.{
  ℕ, ◌+◌, ◌≤◌, ◌≡◌, refl, sym, ap, ◌∙◌, inl, inr, Bool, true, false, ◌&&◌, ◌||◌, not, List, [], ◌∷◌,
  ◌++◌, Option, none, some, if◌then◌else◌, arith, any, Bool-cases, All, find_if,
}
use stream_multicast.Common.Int.{ℤ, eq_ℤ, eq_ℤ_iff}

pub record Item (P : Type 0) : Type 0 where
  pub id : ℤ
  pub locked : Bool
  pub shape : P

-- `may_write`
abbrev pub may_write : Bool → Bool
may_write locked = not locked

abbrev pub contains_id : List ℤ → ℤ → Bool
contains_id ids id = any (λ i. eq_ℤ i id) ids

module _ {P : Type 0} where
  abbrev pub find_item : List (Item P) → ℤ → Option (Item P)
  find_item items id = find_if (λ it. eq_ℤ it.id id) items

  abbrev pub is_writable : Option (Item P) → Bool
  is_writable none = false
  is_writable (some it) = may_write it.locked

  unfoldable pub can_edit : List (Item P) → ℤ → Bool
  can_edit items id = is_writable (find_item items id)

  abbrev pub editable_from : List (Item P) → List ℤ → List ℤ → List ℤ
  editable_from items [] out = out
  editable_from items (id ∷ selection) out = editable_from items selection (
      if is_writable (find_item items id) && not (contains_id out id)
      then out ++ (id ∷ [])
      else out)

  unfoldable pub editable_ids : List (Item P) → List ℤ → List ℤ
  editable_ids items selection = editable_from items selection []

  unfoldable pub lock_all_changes : List (Item P) → Bool → List ℤ
  lock_all_changes [] lock = []
  lock_all_changes (it ∷ items) lock =
      let rest = lock_all_changes items lock in
      if it.locked
      then (if lock then rest else it.id ∷ rest)
      else (if lock then it.id ∷ rest else rest)

abbrev pub count_of : List ℤ → ℤ → ℕ
count_of [] id = 0
count_of (i ∷ ids) id = (if eq_ℤ i id then 1 else 0) + count_of ids id

contains_append :
    (xs ys : List ℤ) (id : ℤ) → contains_id (xs ++ ys) id ≡ (contains_id xs id || contains_id ys id)
contains_append [] ys id = refl
contains_append (x ∷ xs) ys id = ground (arith, contains_append xs ys id)

count_append : (xs ys : List ℤ) (id : ℤ) → count_of (xs ++ ys) id ≡ count_of xs id + count_of ys id
count_append [] ys id = omega arith
count_append (x ∷ xs) ys id = omega (arith, count_append xs ys id)

count_none : (xs : List ℤ) (id : ℤ) → contains_id xs id ≡ false → count_of xs id ≡ 0
count_none [] id h = refl
count_none (x ∷ xs) id h = ground (arith, h, count_none xs id)

-- An id that is appended if it may be edited and is not there.
round_contains_by :
    (out : List ℤ) (i id : ℤ) (b c d : Bool)
    → (eq_ℤ i id ≡ true → (b ≡ d) × (c ≡ contains_id out id))
    → contains_id (if b && not c then out ++ (i ∷ []) else out) id
      ≡ (contains_id out id || (eq_ℤ i id && d))
round_contains_by out i id true false d h =
    contains_append out (i ∷ []) id ∙ pick (contains_id out id) (eq_ℤ i id) d (λ e. (h e).0)
  where
    pick : (a b d : Bool) → (b ≡ true → true ≡ d) → (a || (b || false)) ≡ (a || (b && d))
    pick true b d h = refl
    pick false true d h = h refl
    pick false false d h = refl
round_contains_by out i id true true d h = pick (contains_id out id) (eq_ℤ i id) d (λ e. (h e).1)
  where
    pick : (a b d : Bool) → (b ≡ true → true ≡ a) → a ≡ (a || (b && d))
    pick true b d h = refl
    pick false true d h = ground (arith, h)
    pick false false d h = refl
round_contains_by out i id false c d h = pick (contains_id out id) (eq_ℤ i id) d (λ e. (h e).0)
  where
    pick : (a b d : Bool) → (b ≡ true → false ≡ d) → a ≡ (a || (b && d))
    pick true b d h = refl
    pick false true d h = h refl
    pick false false d h = refl

round_count_by :
    (out : List ℤ) (i id : ℤ) (b c : Bool)
    → (eq_ℤ i id ≡ true → c ≡ contains_id out id)
    → count_of out id ≤ 1
    → count_of (if b && not c then out ++ (i ∷ []) else out) id ≤ 1
round_count_by out i id true false h l = elim (Bool-cases (eq_ℤ i id)) [
  | inl e ↦ omega (
    arith,
    count_append out (i ∷ []) id,
    count_none out id (sym (h e)),
    ap {B = ℕ} (λ b. if b then 1 else 0) e,
  )
  | inr e ↦ omega (arith, count_append out (i ∷ []) id, l, ap {B = ℕ} (λ b. if b then 1 else 0) e)
]
round_count_by out i id true true h l = l
round_count_by out i id false c h l = l

-- The loop.
module _ {P : Type 0} (items : List (Item P)) where
  abbrev round : List ℤ → ℤ → List ℤ
  round out id =
      if is_writable (find_item items id) && not (contains_id out id) then out ++ (id ∷ []) else out

  round_contains :
      (out : List ℤ) (i id : ℤ)
      → contains_id (round out i) id ≡ (contains_id out id || (eq_ℤ i id && can_edit items id))
  unfolding can_edit
  round_contains out i id =
      round_contains_by out i id (is_writable (find_item items i)) (contains_id out i)
        (can_edit items id)
        (λ e.
          (ap (can_edit items) ((eq_ℤ_iff i id).0 e), ap (contains_id out) ((eq_ℤ_iff i id).0 e)))

  round_count : (out : List ℤ) (i id : ℤ) → count_of out id ≤ 1 → count_of (round out i) id ≤ 1
  round_count out i id h =
      round_count_by out i id (is_writable (find_item items i)) (contains_id out i)
        (λ e. ap (contains_id out) ((eq_ℤ_iff i id).0 e)) h

  from_contains :
      (selection out : List ℤ) (id : ℤ)
      → contains_id (editable_from items selection out) id
        ≡ (contains_id out id || (contains_id selection id && can_edit items id))
  from_contains [] out id = ground arith
  from_contains (i ∷ selection) out id =
      ground (arith, from_contains selection (round out i) id, round_contains out i id)

  from_count :
      (selection out : List ℤ) (id : ℤ)
      → count_of out id ≤ 1
      → count_of (editable_from items selection out) id ≤ 1
  from_count [] out id h = h
  from_count (i ∷ selection) out id h =
      from_count selection (round out i) id (round_count out i id h)

  -- The editable ids are those of the selection that may be edited, and each stands there once.
  pub editable_ids_lem :
      (selection : List ℤ) (id : ℤ)
      → (contains_id (editable_ids items selection) id
          ≡ (contains_id selection id && can_edit items id))
        × (count_of (editable_ids items selection) id ≤ 1)
  unfolding editable_ids
  editable_ids_lem selection id =
      (from_contains selection [] id, from_count selection [] id (omega arith))

-- The lock that the caller writes to the items whose ids it was given.
abbrev pub locked_after : List ℤ → Bool → ℤ → Bool → Bool
locked_after ids lock id locked = if contains_id ids id then lock else locked

module _ {P : Type 0} where
  reached :
      (items : List (Item P)) (lock : Bool) (ids : List ℤ)
      → ((id : ℤ) → contains_id (lock_all_changes items lock) id ≡ true → contains_id ids id ≡ true)
      → All (λ it. locked_after ids lock it.id it.locked ≡ lock) items
  unfolding lock_all_changes
  reached [] lock ids h = tt
  reached (it ∷ items) lock ids h =
      (ground (arith, h it.id), reached items lock ids (λ id e. h id (ground (arith, e))))

  -- Once the lock is written to the items that lock_all_changes() names, every item has it.
  pub lock_all_lem :
      (items : List (Item P)) (lock : Bool)
      → All (λ it. locked_after (lock_all_changes items lock) lock it.id it.locked ≡ lock) items
  lock_all_lem items lock = reached items lock (lock_all_changes items lock) (λ id e. e)
