-- ===== src/Registry/Valid.antt =====
-- src/core/EndpointRegistry: the operations as steps, and each endpoint with its one controller.
use stream_multicast.Common.{
  ℕ, suc, ◌+◌, ◌-◌, ◌≤◌, ◌≡◌, refl, sym, ap, subst, ◌∙◌, inl, inr, Bool, List, [], ◌∷◌, ◌++◌,
  Option, none, some, arith, if◌then◌else◌, Str, str_eq, str_eq→eq, Bool-cases, find_if,
}
use stream_multicast.Common.Int.{ℤ, pos, ◌+ℤ◌}
use stream_multicast.Endpoint.{Endpoint}
use stream_multicast.Registry.{
  Registry, Effect, has_id, set_controller, add, replace, update_found, update_endpoint, remove,
  remove_found, reorder, place_all, construct, make_all, recreate, register_observer,
  unregister_observer, erase_first, max_order,
}
use stream_multicast.Registry.Counts.{
  count_id, count-append, unfound-count, replace-count, erase-count_self, erase-count_other,
  place_all-count,
}

-- A call on the registry: the registry after it and its effects.
pub data Step (sort : List Endpoint → List Endpoint) (r : Registry)
    : Registry × List Effect → Type 0 where
  adds : (ep : Endpoint) → Step sort r (add r ep)
  updates : (ep : Endpoint) (running : Bool) → Step sort r (update_endpoint r ep running)
  removes : (id : Str) → Step sort r (remove r id)
  reorders : (ids : List Str) → Step sort r (reorder sort r ids)
  registers : Step sort r ((register_observer r).0, [])
  unregisters : (token : ℕ) → Step sort r (unregister_observer r token, [])

-- Only an addition asks for a new id, which the registry does not test.
abbrev pub IsFresh :
    {sort : List Endpoint → List Endpoint} {r : Registry} {after : Registry × List Effect}
    → Step sort r after
    → Type 0
IsFresh {r = r} (adds ep) = find_if (has_id ep.id) r.endpoints ≡ none
IsFresh (updates ep running) = Unit {0}
IsFresh (removes id) = Unit {0}
IsFresh (reorders ids) = Unit {0}
IsFresh registers = Unit {0}
IsFresh (unregisters token) = Unit {0}

-- The registries from a store without an id twice, by calls that add under new ids.
pub data Reach (sort : List Endpoint → List Endpoint) : Registry → Type 0 where
  constructs :
      (loaded : List Endpoint)
      → ((id : Str) → count_id loaded id ≤ 1)
      → Reach sort (construct sort loaded)
  then_does :
      {r : Registry} {after : Registry × List Effect}
      → Reach sort r
      → (step : Step sort r after) → IsFresh step
      → Reach sort after.0

abbrev pub held : Option ℕ → ℕ
held none = 0
held (some c) = 1

-- An id has as many endpoints as controllers.
pub IsValid : Registry → Type 0
IsValid r = (id : Str) → held (r.controllers id) ≡ count_id r.endpoints id

-- An added endpoint, as it is stored.
placed-count :
    (es : List Endpoint) (ep : Endpoint) (order : ℤ) (id : Str)
    → count_id (es ++ (record ep { sort_order = order } ∷ [])) id
      ≡ count_id es id + (if str_eq ep.id id then 1 else 0)
placed-count es ep order id =
    omega (arith, count-append es (record ep { sort_order = order } ∷ []) id)

add-IsValid :
    (r : Registry) (ep : Endpoint)
    → find_if (has_id ep.id) r.endpoints ≡ none
    → IsValid r
    → IsValid (add r ep).0
unfolding add IsValid
add-IsValid r ep f h id =
    let c = placed-count r.endpoints ep (max_order r.endpoints (pos 0) +ℤ pos 1) id in
    elim (Bool-cases (str_eq ep.id id)) [
      | inl e ↦ rw c (
          rw e (
            omega (
              arith,
              subst (λ i. count_id r.endpoints i ≡ 0) (str_eq→eq ep.id id e)
                  (unfound-count ep.id r.endpoints f),
            )))
      | inr e ↦ rw c (rw e (omega (arith, h id)))
    ]

-- A controller takes the place of the one that the id had.
recreate-held :
    (r : Registry) (id j : Str) (old : Option ℕ)
    → r.controllers id ≡ old
    → held ((recreate r id old).0.controllers j) ≡ held (r.controllers j)
recreate-held r id j none e = refl
recreate-held r id j (some c) e = elim (Bool-cases (str_eq id j)) [
  | inl s ↦ rw s (sym (ap held (subst (λ i. r.controllers i ≡ some c) (str_eq→eq id j s) e)))
  | inr s ↦ rw s refl
]

recreate-endpoints :
    (r : Registry) (id : Str) (old : Option ℕ) → (recreate r id old).0.endpoints ≡ r.endpoints
recreate-endpoints r id none = refl
recreate-endpoints r id (some c) = refl

update-IsValid :
    (r : Registry) (ep : Endpoint) (running : Bool) (found : Option Endpoint)
    → IsValid r
    → IsValid (update_found r ep running found).0
unfolding IsValid
update-IsValid r ep running none h = h
update-IsValid r ep running (some old) h = λ id.
    recreate-held (record r { endpoints = replace ep r.endpoints }) ep.id id (r.controllers ep.id)
      refl
    ∙ h id
    ∙ sym (replace-count ep r.endpoints id)
    ∙ sym (
        ap (λ es. count_id es id)
          (recreate-endpoints (record r { endpoints = replace ep r.endpoints }) ep.id
            (r.controllers ep.id)))

held_le_one : (c : Option ℕ) → held c ≤ 1
held_le_one none = omega arith
held_le_one (some c) = omega arith

remove-IsValid :
    (r : Registry) (id : Str) (found : Option Endpoint)
    → IsValid r
    → IsValid (remove_found r id found).0
unfolding IsValid
remove-IsValid r id none h = h
remove-IsValid r id (some old) h = λ j. elim (Bool-cases (str_eq id j)) [
  | inl e ↦ rw e (
      omega (
        arith,
        subst (λ i. count_id (erase_first id r.endpoints) i ≡ count_id r.endpoints i - 1)
            (str_eq→eq id j e) (erase-count_self id r.endpoints),
        h j,
        held_le_one (r.controllers j),
      ))
  | inr e ↦ rw e (omega (arith, erase-count_other id j r.endpoints e, h j))
]

-- A store without an id twice makes one controller for each endpoint.
make_all-IsValid :
    (eps : List Endpoint) (r : Registry)
    → ((id : Str) → count_id eps id + count_id r.endpoints id ≤ 1)
    → IsValid r
    → IsValid (make_all eps r)
unfolding IsValid
make_all-IsValid [] r u h = h
make_all-IsValid (ep ∷ eps) r u h =
    make_all-IsValid eps
      (record r {
        endpoints = r.endpoints ++ (ep ∷ []);
        controllers = set_controller r.controllers ep.id (some r.next_controller);
        next_controller = suc r.next_controller;
      })
      (λ id. omega (arith, u id, count-append r.endpoints (ep ∷ []) id))
      (λ id. elim (Bool-cases (str_eq ep.id id)) [
        | inl e ↦ rw e (
            omega (
              arith,
              u id,
              ap {B = ℕ} (λ b. if b then 1 else 0) e,
              count-append r.endpoints (ep ∷ []) id,
            ))
        | inr e ↦ rw e (
            omega (
              arith,
              h id,
              ap {B = ℕ} (λ b. if b then 1 else 0) e,
              count-append r.endpoints (ep ∷ []) id,
            ))
      ])

-- What the model needs of std::sort: it drops and doubles no endpoint.
module _ (sort : List Endpoint → List Endpoint)
    (kept : (es : List Endpoint) (id : Str) → count_id (sort es) id ≡ count_id es id) where
  Step-IsValid :
      {r : Registry} {after : Registry × List Effect}
      → (step : Step sort r after) → IsFresh step
      → IsValid r
      → IsValid after.0
  unfolding update_endpoint remove reorder register_observer unregister_observer IsValid
  Step-IsValid {r} (adds ep) f h = add-IsValid r ep f h
  Step-IsValid {r} (updates ep running) f h =
      update-IsValid r ep running (find_if (has_id ep.id) r.endpoints) h
  Step-IsValid {r} (removes id) f h = remove-IsValid r id (find_if (has_id id) r.endpoints) h
  Step-IsValid {r} (reorders ids) f h = λ id.
      h id ∙ sym (kept (place_all ids 0 r.endpoints).0 id ∙ place_all-count ids 0 r.endpoints id)
  Step-IsValid {r} registers f h = h
  Step-IsValid {r} (unregisters token) f h = h

  -- In every registry that is reached each id has at most one endpoint, and a controller exactly
  -- if it has an endpoint; the store has no id twice, and an endpoint is added under a new id.
  pub each_has_one_controller :
      {r : Registry}
      → Reach sort r
      → (id : Str)
      → (held (r.controllers id) ≡ count_id r.endpoints id) × (count_id r.endpoints id ≤ 1)
  unfolding IsValid construct
  each_has_one_controller {r} reach id =
      let e = valid reach id in (e, omega (arith, e, held_le_one (r.controllers id)))
    where
      valid : {r : Registry} → Reach sort r → IsValid r
      valid (constructs loaded once) =
          make_all-IsValid (sort loaded) _ (λ id. omega (arith, once id, kept loaded id))
            (λ id. refl)
      valid (then_does reach step fresh) = Step-IsValid step fresh (valid reach)
