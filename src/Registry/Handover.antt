-- ===== src/Registry/Handover.antt =====
-- src/core/EndpointRegistry: no controller is lost, and of an endpoint one plays.
use stream_multicast.Common.{
  ℕ, ◌+◌, ◌≡◌, ◌⊎◌, refl, sym, subst, ◌∙◌, inl, inr, Bool, true, false, List, [], ◌∷◌, ◌++◌, Option,
  none, some, arith, if◌then◌else◌, Str, str_eq, str_eq→eq, str_eq_refl, Bool-cases, Option-cases,
  find_if,
}
use stream_multicast.Endpoint.{Endpoint}
use stream_multicast.Registry.{
  Registry, Effect, ChangeKind, made, stopped, enqueued, saved, has_id, set_controller, add,
  replace, update_found, update_endpoint, remove, remove_found, reorder, place_all,
  register_observer, unregister_observer, notify, notify_all, restart, added, erase_first,
}
use stream_multicast.Registry.Counts.{count_id, unfound-count}
use stream_multicast.Registry.Valid.{
  Step, IsFresh, adds, updates, removes, reorders, registers, unregisters, Reach, held,
  each_has_one_controller,
}
use stream_multicast.Registry.Effects.{
  makes, hands_over, is_it, one_if, playing, one_plays, are_reports, reports-IsSilent,
  append-reports, notify-reports, notify_all-reports,
}

-- What the effects owe the id, from its controller before them to the one after them.
pub record Owes (before after : Option ℕ) (id : Str) (fx : List Effect) : Type 0 where
  pub conserved :
      (c : ℕ)
      → makes id c fx + one_if (is_it c before) ≡ hands_over id c fx + one_if (is_it c after)
  pub one : (p : Option ℕ) → (p ≡ none) ⊎ (p ≡ before) → one_plays id p fx ≡ true
  pub owned :
      (p : Option ℕ)
      → (p ≡ none) ⊎ (p ≡ before)
      → (playing id p fx ≡ none) ⊎ (playing id p fx ≡ after)

pub silent-Owes :
    (before : Option ℕ) (id : Str) (fx : List Effect)
    → are_reports fx ≡ true
    → Owes before before id fx
silent-Owes before id fx e =
    let s = reports-IsSilent id fx e in
    record {
      conserved = λ c. omega (arith, s.no_make c, s.no_hand c);
      one = λ p h. s.plays_one p;
      owned = λ p h. elim h [ inl n ↦ inl (s.plays_on p ∙ n) | inr a ↦ inr (s.plays_on p ∙ a) ];
    }

module _ (i id : Str) (fx : List Effect) (quiet : are_reports fx ≡ true) where
  make-Owes :
      (before : Option ℕ) (n : ℕ)
      → (str_eq i id ≡ true → before ≡ none)
      → Owes before (if str_eq i id then some n else before) id (made i n ∷ fx)
  make-Owes before n free =
      let s = reports-IsSilent id fx quiet in
      record {
        conserved = λ c. ground (arith, s.no_make c, s.no_hand c, free);
        one = λ p h. s.plays_one p;
        owned = λ p h. ground (arith, s.plays_on p, h, free);
      }

  retire-Owes :
      (before : Option ℕ) (c : ℕ)
      → (str_eq i id ≡ true → before ≡ some c)
      → Owes before (if str_eq i id then none else before) id (stopped i c ∷ enqueued i c ∷ fx)
  retire-Owes before c own =
      let s = reports-IsSilent id fx quiet in
      record {
        conserved = λ d. ground (arith, s.no_make d, s.no_hand d, own);
        one = λ p h. ground (arith, s.plays_one p, s.plays_one none, h, own);
        owned = λ p h. ground (arith, s.plays_on p, s.plays_on none, h, own);
      }

  replace-Owes :
      (before : Option ℕ) (c n : ℕ) (running : Bool)
      → (str_eq i id ≡ true → before ≡ some c)
      → Owes before
          (if str_eq i id then some n else before)
          id
          (made i n ∷ stopped i c ∷ enqueued i c ∷ (restart running i (some n) ++ fx))
  replace-Owes before c n true own =
      let s = reports-IsSilent id fx quiet in
      record {
        conserved = λ d. ground (arith, s.no_make d, s.no_hand d, own);
        one = λ p h. ground (arith, s.plays_one p, s.plays_one none, s.plays_one (some n), h, own);
        owned = λ p h. ground (arith, s.plays_on p, s.plays_on none, s.plays_on (some n), h, own);
      }
  replace-Owes before c n false own =
      let s = reports-IsSilent id fx quiet in
      record {
        conserved = λ d. ground (arith, s.no_make d, s.no_hand d, own);
        one = λ p h. ground (arith, s.plays_one p, s.plays_one none, s.plays_one (some n), h, own);
        owned = λ p h. ground (arith, s.plays_on p, s.plays_on none, s.plays_on (some n), h, own);
      }

-- The reports that each operation ends with.
told-reports :
    (r : Registry) (kind : ChangeKind) (ep : Endpoint) (es : List Endpoint)
    → are_reports (notify r kind ep ++ (saved es ∷ [])) ≡ true
told-reports r kind ep es =
    append-reports (notify r kind ep) (saved es ∷ []) (notify-reports r.observers kind ep) refl

pub own_id :
    (controllers : Str → Option ℕ) (i id : Str) (o : Option ℕ)
    → controllers i ≡ o
    → str_eq i id ≡ true
    → controllers id ≡ o
own_id controllers i id o e s = subst (λ j. controllers j ≡ o) (str_eq→eq i id s) e

pub set_none :
    (controllers : Str → Option ℕ) (i id : Str)
    → controllers i ≡ none
    → set_controller controllers i none id ≡ controllers id
set_none controllers i id e = elim (Bool-cases (str_eq i id)) [
  | inl s ↦ rw s (sym (own_id controllers i id none e s))
  | inr s ↦ rw s refl
]

update-Owes :
    (r : Registry) (ep : Endpoint) (running : Bool) (found : Option Endpoint) (id : Str)
    → (let after = update_found r ep running found in
        Owes (r.controllers id) (after.0.controllers id) id after.1)
update-Owes r ep running none id = silent-Owes (r.controllers id) id [] refl
update-Owes r ep running (some old) id = elim (Option-cases (r.controllers ep.id)) [
  | inl e ↦ rw e (
      silent-Owes (r.controllers id) id _
        (told-reports r ChangeKind.updated ep (replace ep r.endpoints)))
  | inr (c, e) ↦
      rw (e, str_eq_refl ep.id)
        (replace-Owes ep.id id _ (told-reports r ChangeKind.updated ep (replace ep r.endpoints))
          (r.controllers id) c r.next_controller running (own_id r.controllers ep.id id (some c) e))
]

remove-Owes :
    (r : Registry) (i : Str) (found : Option Endpoint) (id : Str)
    → (let after = remove_found r i found in
        Owes (r.controllers id) (after.0.controllers id) id after.1)
remove-Owes r i none id = silent-Owes (r.controllers id) id [] refl
remove-Owes r i (some old) id = elim (Option-cases (r.controllers i)) [
  | inl e ↦
      rw (e, set_none r.controllers i id e)
        (silent-Owes (r.controllers id) id _
          (told-reports r ChangeKind.removed old (erase_first i r.endpoints)))
  | inr (c, e) ↦ rw e (
      retire-Owes i id _ (told-reports r ChangeKind.removed old (erase_first i r.endpoints))
        (r.controllers id) c (own_id r.controllers i id (some c) e))
]

module _ (sort : List Endpoint → List Endpoint)
    (kept : (es : List Endpoint) (id : Str) → count_id (sort es) id ≡ count_id es id) where
  no_held : (c : Option ℕ) → held c ≡ 0 → c ≡ none
  no_held none e = refl
  no_held (some c) e = ground (arith, e)

  Step-Owes :
      {r : Registry} {after : Registry × List Effect}
      → Reach sort r
      → (step : Step sort r after) → IsFresh step
      → (id : Str) → Owes (r.controllers id) (after.0.controllers id) id after.1
  unfolding add update_endpoint remove reorder register_observer unregister_observer
  Step-Owes {r} reach (adds ep) f id =
      make-Owes ep.id id _ (told-reports r added _ _) (r.controllers id) r.next_controller (
        own_id r.controllers ep.id id none (
          no_held (r.controllers ep.id) (
            (each_has_one_controller sort kept reach ep.id).0 ∙ unfound-count ep.id r.endpoints f)))
  Step-Owes {r} reach (updates ep running) f id =
      update-Owes r ep running (find_if (has_id ep.id) r.endpoints) id
  Step-Owes {r} reach (removes i) f id = remove-Owes r i (find_if (has_id i) r.endpoints) id
  Step-Owes {r} reach (reorders ids) f id = silent-Owes (r.controllers id) id _ (
      append-reports (notify_all r (place_all ids 0 r.endpoints).1) _
        (notify_all-reports r (place_all ids 0 r.endpoints).1) refl)
  Step-Owes {r} reach registers f id = silent-Owes (r.controllers id) id [] refl
  Step-Owes {r} reach (unregisters token) f id = silent-Owes (r.controllers id) id [] refl

  -- In a registry that is reached from a store without an id twice, where endpoints are only added
  -- under new ids and sorting keeps the endpoints, no operation loses or doubles a controller, if an
  -- addition is under a new id too: those that the operation makes, and the one that the id has
  -- before it, are as many as those that it hands to the reaper and the one that the id has after.
  pub none_is_lost :
      {r : Registry} {after : Registry × List Effect}
      → Reach sort r
      → (step : Step sort r after) → IsFresh step
      → (id : Str) (c : ℕ)
      → makes id c after.1 + one_if (is_it c (r.controllers id))
        ≡ hands_over id c after.1 + one_if (is_it c (after.0.controllers id))
  none_is_lost {r} {after} reach step fresh id c = (Step-Owes reach step fresh id).conserved c

  -- In a registry that is reached from a store without an id twice, where endpoints are only added
  -- under new ids and sorting keeps the endpoints: if no controller of an id plays but the one that
  -- the registry has, then no operation, an addition under a new id included, starts one while
  -- another plays or hands over one that plays, and afterwards none plays but the one that the
  -- registry then has.
  pub one_stream_each :
      {r : Registry} {after : Registry × List Effect}
      → Reach sort r
      → (step : Step sort r after) → IsFresh step
      → (id : Str) (p : Option ℕ) → (p ≡ none) ⊎ (p ≡ r.controllers id)
      → (one_plays id p after.1 ≡ true)
        × ((playing id p after.1 ≡ none) ⊎ (playing id p after.1 ≡ after.0.controllers id))
  one_stream_each {r} {after} reach step fresh id p h =
      let o = Step-Owes reach step fresh id in (o.one p h, o.owned p h)
