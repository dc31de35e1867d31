-- ===== src/Target/LinkedStart.antt =====
-- src/core/LinkedStart.hpp and LinkedStart.cpp: the endpoints that start with the OBS main stream.
use stream_multicast.Common.{
  ◌≡◌, inl, inr, Bool, true, false, ◌&&◌, List, [], ◌∷◌, ◌++◌, Option, some, arith, if◌then◌else◌,
  All, All-append, Str, str_eq_comm, Bool-cases,
}
use stream_multicast.Endpoint.{Endpoint}
use stream_multicast.Target.{
  StreamTarget, is_duplicate_target, DuplicateKind, no_duplicate, other_endpoint, main_service,
  target, find_duplicate,
}
use stream_multicast.Target.Duplicates.{
  clashes, Explains, find_duplicate-Explains, duplicate_equivalence,
}

abbrev pub is_linked : Endpoint → Bool
is_linked ep = ep.enabled && ep.linked_to_main

-- The loop of `select_linked_for_start`.
unfoldable pub select_linked_for_start : List Endpoint → List Endpoint
select_linked_for_start [] = []
select_linked_for_start (ep ∷ all) =
    let rest = select_linked_for_start all in if is_linked ep then ep ∷ rest else rest

pub record SkippedStart : Type 0 where
  pub name : Str
  pub reason : DuplicateKind

pub record LinkedStartPlan : Type 0 where
  pub to_start : List Endpoint
  pub skipped_duplicates : List SkippedStart

abbrev skip_for : LinkedStartPlan → Endpoint → DuplicateKind → LinkedStartPlan
skip_for plan ep k = record plan {
  skipped_duplicates = plan.skipped_duplicates ++ (record { name = ep.name; reason = k } ∷ []);
}

-- The branch on `dup.kind`.
abbrev pub plan_by : DuplicateKind → LinkedStartPlan → Endpoint → LinkedStartPlan
plan_by no_duplicate plan ep = record plan { to_start = plan.to_start ++ (ep ∷ []) }
plan_by other_endpoint plan ep = skip_for plan ep other_endpoint
plan_by main_service plan ep = skip_for plan ep main_service

-- One round of the loop: compare with the endpoints accepted so far and with the main service.
unfoldable pub plan_step : Option StreamTarget → LinkedStartPlan → Endpoint → LinkedStartPlan
plan_step main plan ep = plan_by (find_duplicate ep plan.to_start main).kind plan ep

unfoldable pub plan_loop : Option StreamTarget → LinkedStartPlan → List Endpoint → LinkedStartPlan
plan_loop main plan [] = plan
plan_loop main plan (ep ∷ eps) = plan_loop main (plan_step main plan ep) eps

unfoldable pub plan_linked_start : List Endpoint → Option StreamTarget → LinkedStartPlan
plan_linked_start all main =
    plan_loop main (record { to_start = []; skipped_duplicates = [] }) (select_linked_for_start all)

-- No two endpoints of the list have one target, unless they have one id.
abbrev pub NoClash : List Endpoint → Type 0
NoClash [] = Unit {0}
NoClash (e ∷ es) = All (λ o. clashes e o ≡ false) es × NoClash es

abbrev pub NotMain : Option StreamTarget → List Endpoint → Type 0
NotMain main es =
    All (λ e. (m : StreamTarget) → main ≡ some m → is_duplicate_target (target e) m ≡ false) es

clashes_comm : (a b : Endpoint) → a.enabled ≡ true → b.enabled ≡ true → clashes a b ≡ clashes b a
clashes_comm a b ha hb =
    ground
      (arith, str_eq_comm a.id b.id, (duplicate_equivalence (target a) (target b) (target a)).1)

NoClash-snoc :
    (es : List Endpoint) (e : Endpoint)
    → All (λ o. is_linked o ≡ true) es
    → is_linked e ≡ true
    → NoClash es
    → All (λ o. clashes e o ≡ false) es
    → NoClash (es ++ (e ∷ []))
NoClash-snoc [] e l le n h = (tt, tt)
NoClash-snoc (o ∷ es) e l le n h = (
  All-append (λ x. clashes o x ≡ false) es (e ∷ []) n.0
      (ground (arith, clashes_comm o e, h.0, l.0, le), tt),
  NoClash-snoc es e l.1 le n.1 h.1,
)

record IsPlan (main : Option StreamTarget) (plan : LinkedStartPlan) : Type 0 where
  linked : All (λ e. is_linked e ≡ true) plan.to_start
  distinct : NoClash plan.to_start
  not_main : NotMain main plan.to_start

plan_by-IsPlan :
    (main : Option StreamTarget) (plan : LinkedStartPlan) (ep : Endpoint) (k : DuplicateKind)
    (n : Str)
    → is_linked ep ≡ true
    → IsPlan main plan
    → Explains ep plan.to_start main k n
    → IsPlan main (plan_by k plan ep)
plan_by-IsPlan main plan ep no_duplicate n l p (free, m) = record {
  linked = All-append _ plan.to_start _ p.linked (l, tt);
  distinct = NoClash-snoc plan.to_start ep p.linked l p.distinct free;
  not_main = All-append _ plan.to_start _ p.not_main (m, tt);
}
plan_by-IsPlan main plan ep other_endpoint n l p x = record {
  linked = p.linked;
  distinct = p.distinct;
  not_main = p.not_main;
}
plan_by-IsPlan main plan ep main_service n l p x = record {
  linked = p.linked;
  distinct = p.distinct;
  not_main = p.not_main;
}

plan_loop-IsPlan :
    (main : Option StreamTarget) (plan : LinkedStartPlan) (eps : List Endpoint)
    → All (λ e. is_linked e ≡ true) eps
    → IsPlan main plan
    → IsPlan main (plan_loop main plan eps)
unfolding plan_loop plan_step
plan_loop-IsPlan main plan [] l p = p
plan_loop-IsPlan main plan (ep ∷ eps) l p =
    plan_loop-IsPlan main (plan_step main plan ep) eps l.1
      (plan_by-IsPlan main plan ep _ _ l.0 p (find_duplicate-Explains ep plan.to_start main))

select-linked : (all : List Endpoint) → All (λ e. is_linked e ≡ true) (select_linked_for_start all)
unfolding select_linked_for_start
select-linked [] = tt
select-linked (ep ∷ all) = elim (Bool-cases (is_linked ep)) [
  | inl e ↦ rw e (e, select-linked all)
  | inr e ↦ rw e (select-linked all)
]

-- Whatever endpoints are configured, those that the plan starts are enabled and linked to the main
-- stream, no two of them with different ids stream to one target, and none streams to the target
-- of the main service.
pub plan_no_duplicates :
    (all : List Endpoint) (main : Option StreamTarget)
    → let plan = plan_linked_start all main in
      All (λ e. is_linked e ≡ true) plan.to_start
      × NoClash plan.to_start
      × NotMain main plan.to_start
unfolding plan_linked_start
plan_no_duplicates all main =
    let p =
      plan_loop-IsPlan main (record { to_start = []; skipped_duplicates = [] })
        (select_linked_for_start all) (select-linked all)
        (record { linked = tt; distinct = tt; not_main = tt }) in
    (p.linked, p.distinct, p.not_main)
