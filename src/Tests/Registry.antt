-- ===== src/Tests/Registry.antt =====
-- src/core/EndpointRegistry on one endpoint that is added and changed.
use stream_multicast.Common.{
  ◌+◌, ◌≤◌, ◌≡◌, ◌⊎◌, refl, sym, Memᴰ, inr, true, List, [], ◌∷◌, none, some, arith, codes, str_eq,
}
use stream_multicast.Endpoint.{Endpoint}
use stream_multicast.Registry.{Registry, Effect, construct, add, destroy, update_endpoint}
use stream_multicast.Registry.Counts.{count_id}
use stream_multicast.Registry.Valid.{
  Step, adds, updates, Reach, constructs, then_does, held, each_has_one_controller,
}
use stream_multicast.Registry.Effects.{makes, hands_over, is_it, one_if, one_plays, playing}
use stream_multicast.Registry.Handover.{none_is_lost, one_stream_each}
use stream_multicast.Registry.Destroy.{destroy-hands_over}
use stream_multicast.Tests.Endpoint.{tiktok}

abbrev as_is : List Endpoint → List Endpoint
as_is es = es

abbrev one : Registry
one = (add (construct as_is []) tiktok).0

one-Reach : Reach as_is one
unfolding construct
one-Reach = then_does (constructs [] (λ id. omega arith)) (adds tiktok) refl

changed : Registry × List Effect
changed = update_endpoint one (record tiktok { stream_key = codes "k2" }) true

change-Step : Step as_is one changed
unfolding changed
change-Step = updates (record tiktok { stream_key = codes "k2" }) true

each_has_one_controller_example :
    (held (one.controllers tiktok.id) ≡ count_id one.endpoints tiktok.id)
    × (count_id one.endpoints tiktok.id ≤ 1)
each_has_one_controller_example = each_has_one_controller as_is (λ es id. refl) one-Reach tiktok.id

none_is_lost_example :
    makes tiktok.id 0 changed.1 + one_if (is_it 0 (one.controllers tiktok.id))
    ≡ hands_over tiktok.id 0 changed.1 + one_if (is_it 0 (changed.0.controllers tiktok.id))
unfolding change-Step
none_is_lost_example = none_is_lost as_is (λ es id. refl) one-Reach change-Step tt tiktok.id 0

one_holds : some 0 ≡ one.controllers tiktok.id
unfolding add str_eq construct
one_holds = refl

one_stream_each_example :
    (one_plays tiktok.id (some 0) changed.1 ≡ true)
    × ((playing tiktok.id (some 0) changed.1 ≡ none)
        ⊎ (playing tiktok.id (some 0) changed.1 ≡ changed.0.controllers tiktok.id))
unfolding change-Step
one_stream_each_example =
    one_stream_each as_is (λ es id. refl) one-Reach change-Step tt tiktok.id (some 0)
      (inr one_holds)

destroy-hands_over_example :
    (hands_over tiktok.id 0 (destroy (tiktok.id ∷ []) one).1 ≡ 1)
    × (one_plays tiktok.id (some 0) (destroy (tiktok.id ∷ []) one).1 ≡ true)
    × (playing tiktok.id (some 0) (destroy (tiktok.id ∷ []) one).1 ≡ none)
destroy-hands_over_example =
    destroy-hands_over (tiktok.id ∷ []) one tiktok.id 0 (Memᴰ.head refl) (sym one_holds)
