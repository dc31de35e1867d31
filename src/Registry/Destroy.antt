-- ===== src/Registry/Destroy.antt =====
-- src/core/EndpointRegistry: the destructor.
use stream_multicast.Common.{
  ℕ, ◌≡◌, refl, sym, ap, subst, ◌∙◌, inl, inr, true, List, [], ◌∷◌, Option, none, some, arith,
  if◌then◌else◌, Str, str_eq, str_eq_refl, Bool-cases, Option-cases, Memᴰ,
}
use stream_multicast.Registry.{Registry, Effect, stopped, enqueued, set_controller, destroy}
use stream_multicast.Registry.Effects.{makes, hands_over, playing, one_plays}
use stream_multicast.Registry.Handover.{Owes, silent-Owes, own_id, set_none}

-- A controller is stopped and handed over before the rest.
retire_first-Owes :
    (i id : Str) (before after : Option ℕ) (c : ℕ) (fx : List Effect)
    → (str_eq i id ≡ true → before ≡ some c)
    → Owes (if str_eq i id then none else before) after id fx
    → Owes before after id (stopped i c ∷ enqueued i c ∷ fx)
retire_first-Owes i id before after c fx own o = elim (Bool-cases (str_eq i id)) [
  | inl e ↦
      let b = own e in
      let q = subst (λ x. Owes (if x then none else before) after id fx) e o in
      record {
        conserved = λ d. ground (arith, b, e, q.conserved d);
        one = λ p h. ground (arith, b, e, h, q.one none (inl refl));
        owned = λ p h. ground (arith, b, e, h, q.owned none (inl refl));
      }
  | inr e ↦
      let q = subst (λ x. Owes (if x then none else before) after id fx) e o in
      record {
        conserved = λ d. ground (arith, e, q.conserved d);
        one = λ p h. ground (arith, e, h, q.one p h);
        owned = λ p h. ground (arith, e, h, q.owned p h);
      }
]

-- The destructor hands over the controllers of the ids that it walks, each after stop().
pub destroy-Owes :
    (ids : List Str) (r : Registry) (id : Str)
    → (let after = destroy ids r in Owes (r.controllers id) (after.0.controllers id) id after.1)
unfolding destroy
destroy-Owes [] r id = silent-Owes (r.controllers id) id [] refl
destroy-Owes (i ∷ ids) r id =
    let next = record r { controllers = set_controller r.controllers i none } in
    elim (Option-cases (r.controllers i)) [
      | inl e ↦ rw e (
          subst (λ o. Owes o ((destroy ids next).0.controllers id) id (destroy ids next).1)
            (set_none r.controllers i id e)
            (destroy-Owes ids (record r { controllers = set_controller r.controllers i none }) id))
      | inr (c, e) ↦ rw e (
          retire_first-Owes i id (r.controllers id) ((destroy ids next).0.controllers id) c
            (destroy ids next).1 (own_id r.controllers i id (some c) e)
            (destroy-Owes ids (record r { controllers = set_controller r.controllers i none }) id))
    ]

destroyed_none :
    (ids : List Str) (r : Registry) (id : Str)
    → r.controllers id ≡ none
    → (destroy ids r).0.controllers id ≡ none
unfolding destroy
destroyed_none [] r id e = e
destroyed_none (i ∷ ids) r id e =
    destroyed_none ids (record r { controllers = set_controller r.controllers i none }) id
      (ground (arith, e))

destroyed :
    (ids : List Str) (r : Registry) (id : Str)
    → Memᴰ id ids
    → (destroy ids r).0.controllers id ≡ none
unfolding destroy
destroyed [] r id m = elim m [ ]
destroyed (i ∷ ids) r id (Memᴰ.head e) =
    destroyed_none ids (record r { controllers = set_controller r.controllers i none }) id
      (ap (λ b. if b then none else r.controllers id) (ap (str_eq i) e ∙ str_eq_refl i))
destroyed (i ∷ ids) r id (Memᴰ.tail m) =
    destroyed ids (record r { controllers = set_controller r.controllers i none }) id m

destroy-makes :
    (ids : List Str) (r : Registry) (id : Str) (c : ℕ) → makes id c (destroy ids r).1 ≡ 0
unfolding destroy
destroy-makes [] r id c = refl
destroy-makes (i ∷ ids) r id c =
    let rest =
      destroy-makes ids (record r { controllers = set_controller r.controllers i none }) id c in
    elim (Option-cases (r.controllers i)) [ inl e ↦ rw e rest | inr (d, e) ↦ rw e rest ]

-- The destructor hands the controller of an id over exactly once, if it walks the id, and stops it
-- first if it is the one that plays.
pub destroy-hands_over :
    (ids : List Str) (r : Registry) (id : Str) (c : ℕ)
    → Memᴰ id ids
    → r.controllers id ≡ some c
    → (hands_over id c (destroy ids r).1 ≡ 1)
      × (one_plays id (some c) (destroy ids r).1 ≡ true)
      × (playing id (some c) (destroy ids r).1 ≡ none)
destroy-hands_over ids r id c m e =
    let o = destroy-Owes ids r id in
    (
      ground (arith, o.conserved c, destroyed ids r id m, destroy-makes ids r id c, e),
      o.one (some c) (inr (sym e)),
      (elim (o.owned (some c) (inr (sym e))) [ inl n ↦ n | inr n ↦ n ∙ destroyed ids r id m ]),
    )
