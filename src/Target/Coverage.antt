-- ===== src/Target/Coverage.antt =====
-- src/core/LinkedStart.cpp: no linked endpoint is forgotten.
use stream_multicast.Common.{
  ◌+◌, ◌≡◌, ◌⊎◌, refl, inl, inr, true, List, [], ◌∷◌, Memᴰ, Option, some, arith, Str, subst,
  Bool-cases, length, length-append, Mem-append_left, Mem-append_right,
}
use stream_multicast.Endpoint.{Endpoint}
use stream_multicast.Target.{
  StreamTarget, is_duplicate_target, DuplicateKind, no_duplicate, other_endpoint, main_service,
  target, find_duplicate,
}
use stream_multicast.Target.Duplicates.{clashes, Explains, find_duplicate-Explains}
use stream_multicast.Target.LinkedStart.{
  LinkedStartPlan, is_linked, select_linked_for_start, plan_by, plan_step, plan_loop,
  plan_linked_start,
}

-- The endpoint is started, or its target is that of a started endpoint or of the main service.
abbrev pub Served : Option StreamTarget → List Endpoint → Endpoint → Type 0
Served main started ep =
    Memᴰ ep started
    ⊎ (((o : Endpoint) × Memᴰ o started × (clashes ep o ≡ true))
        ⊎ ((m : StreamTarget) × (main ≡ some m) × (is_duplicate_target (target ep) m ≡ true)))

plan_by-Served :
    (main : Option StreamTarget) (plan : LinkedStartPlan) (ep : Endpoint) (k : DuplicateKind)
    (n : Str)
    → Explains ep plan.to_start main k n
    → Served main (plan_by k plan ep).to_start ep
plan_by-Served main plan ep no_duplicate n x =
    inl (Mem-append_right plan.to_start _ (Memᴰ.head refl))
plan_by-Served main plan ep other_endpoint n (o, i, c, e) = inr (inl (o, i, c))
plan_by-Served main plan ep main_service n (free, d) = inr (inr d)

plan_by-grows :
    (k : DuplicateKind) (plan : LinkedStartPlan) (ep o : Endpoint)
    → Memᴰ o plan.to_start
    → Memᴰ o (plan_by k plan ep).to_start
plan_by-grows no_duplicate plan ep o m = Mem-append_left plan.to_start _ m
plan_by-grows other_endpoint plan ep o m = m
plan_by-grows main_service plan ep o m = m

plan_loop-grows :
    (main : Option StreamTarget) (plan : LinkedStartPlan) (eps : List Endpoint) (o : Endpoint)
    → Memᴰ o plan.to_start
    → Memᴰ o (plan_loop main plan eps).to_start
unfolding plan_loop plan_step
plan_loop-grows main plan [] o m = m
plan_loop-grows main plan (e ∷ eps) o m =
    plan_loop-grows main (plan_step main plan e) eps o (plan_by-grows _ plan e o m)

plan_loop-Served :
    (main : Option StreamTarget) (plan : LinkedStartPlan) (ep : Endpoint) (eps : List Endpoint)
    → Served main plan.to_start ep
    → Served main (plan_loop main plan eps).to_start ep
plan_loop-Served main plan ep eps (inl m) = inl (plan_loop-grows main plan eps ep m)
plan_loop-Served main plan ep eps (inr (inl (o, m, c))) =
    inr (inl (o, plan_loop-grows main plan eps o m, c))
plan_loop-Served main plan ep eps (inr (inr d)) = inr (inr d)

plan_loop-all :
    (main : Option StreamTarget) (plan : LinkedStartPlan) (eps : List Endpoint) {ep : Endpoint}
    → Memᴰ ep eps
    → Served main (plan_loop main plan eps).to_start ep
unfolding plan_loop plan_step
plan_loop-all main plan [] m = elim m [ ]
plan_loop-all main plan (e ∷ eps) {ep} (Memᴰ.head same) = rw same (
    plan_loop-Served main (plan_step main plan e) e eps
      (plan_by-Served main plan e _ _ (find_duplicate-Explains e plan.to_start main)))
plan_loop-all main plan (e ∷ eps) (Memᴰ.tail m) = plan_loop-all main (plan_step main plan e) eps m

plan_by-length :
    (k : DuplicateKind) (plan : LinkedStartPlan) (ep : Endpoint)
    → length (plan_by k plan ep).to_start + length (plan_by k plan ep).skipped_duplicates
      ≡ length plan.to_start + length plan.skipped_duplicates + 1
plan_by-length no_duplicate plan ep = omega (arith, length-append plan.to_start (ep ∷ []))
plan_by-length other_endpoint plan ep = omega (
  arith,
  length-append plan.skipped_duplicates (record { name = ep.name; reason = other_endpoint } ∷ []),
)
plan_by-length main_service plan ep = omega (
  arith,
  length-append plan.skipped_duplicates (record { name = ep.name; reason = main_service } ∷ []),
)

plan_loop-length :
    (main : Option StreamTarget) (plan : LinkedStartPlan) (eps : List Endpoint)
    → length (plan_loop main plan eps).to_start
        + length (plan_loop main plan eps).skipped_duplicates
      ≡ length plan.to_start + length plan.skipped_duplicates + length eps
unfolding plan_loop plan_step
plan_loop-length main plan [] = omega arith
plan_loop-length main plan (e ∷ eps) = omega (
  arith,
  plan_loop-length main (plan_step main plan e) eps,
  plan_by-length (find_duplicate e plan.to_start main).kind plan e,
)

select-mem :
    (all : List Endpoint) {ep : Endpoint}
    → Memᴰ ep all
    → is_linked ep ≡ true
    → Memᴰ ep (select_linked_for_start all)
unfolding select_linked_for_start
select-mem [] m l = elim m [ ]
select-mem (e ∷ all) {ep} (Memᴰ.head same) l =
    rw (subst (λ x. is_linked x ≡ true) same l) (Memᴰ.head same)
select-mem (e ∷ all) (Memᴰ.tail m) l = elim (Bool-cases (is_linked e)) [
  | inl t ↦ rw t (Memᴰ.tail (select-mem all m l))
  | inr f ↦ rw f (select-mem all m l)
]

-- Every endpoint that is enabled and linked is served: it is started, or another endpoint that is
-- started has its target, or the main service has it; and the plan starts or skips each of the
-- selected endpoints once.
pub plan_serves_all :
    (all : List Endpoint) (main : Option StreamTarget) {ep : Endpoint}
    → Memᴰ ep all
    → is_linked ep ≡ true
    → Served main (plan_linked_start all main).to_start ep
      × (length (plan_linked_start all main).to_start
            + length (plan_linked_start all main).skipped_duplicates
          ≡ length (select_linked_for_start all))
unfolding plan_linked_start
plan_serves_all all main m l = (
  plan_loop-all main _ (select_linked_for_start all) (select-mem all m l),
  omega (
    arith,
    plan_loop-length main (record { to_start = []; skipped_duplicates = [] })
        (select_linked_for_start all),
  ),
)
