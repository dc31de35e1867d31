-- ===== src/Registry/Effects.antt =====
-- src/core/EndpointRegistry: the controllers that the operations make, stop and hand over.
use stream_multicast.Common.{
  ℕ, ◌+◌, ◌≡◌, refl, Bool, true, false, ◌&&◌, ◌||◌, not, List, [], ◌∷◌, ◌++◌, Option, none, some,
  arith, if◌then◌else◌, Str, str_eq, ◌==◌, map,
}
use stream_multicast.Endpoint.{Endpoint}
use stream_multicast.Registry.{
  Registry, Effect, ChangeKind, made, started, stopped, enqueued, notified, saved, notify,
  notify_all,
}

-- How often a controller is made for an id, and how often it is handed to the reaper.
abbrev pub makes : Str → ℕ → List Effect → ℕ
makes id c [] = 0
makes id c (made i d ∷ fx) = (if str_eq i id && d == c then 1 else 0) + makes id c fx
makes id c (started i d ∷ fx) = makes id c fx
makes id c (stopped i d ∷ fx) = makes id c fx
makes id c (enqueued i d ∷ fx) = makes id c fx
makes id c (notified t k e ∷ fx) = makes id c fx
makes id c (saved es ∷ fx) = makes id c fx

abbrev pub hands_over : Str → ℕ → List Effect → ℕ
hands_over id c [] = 0
hands_over id c (enqueued i d ∷ fx) = (if str_eq i id && d == c then 1 else 0) + hands_over id c fx
hands_over id c (made i d ∷ fx) = hands_over id c fx
hands_over id c (started i d ∷ fx) = hands_over id c fx
hands_over id c (stopped i d ∷ fx) = hands_over id c fx
hands_over id c (notified t k e ∷ fx) = hands_over id c fx
hands_over id c (saved es ∷ fx) = hands_over id c fx

abbrev pub is_it : ℕ → Option ℕ → Bool
is_it c none = false
is_it c (some d) = d == c

abbrev pub one_if : Bool → ℕ
one_if b = if b then 1 else 0

-- The controller of an id that plays after the effects: stop() ends it, start() begins it.
abbrev pub playing : Str → Option ℕ → List Effect → Option ℕ
playing id p [] = p
playing id p (started i c ∷ fx) = playing id (if str_eq i id then some c else p) fx
playing id p (stopped i c ∷ fx) = playing id (if str_eq i id && is_it c p then none else p) fx
playing id p (made i d ∷ fx) = playing id p fx
playing id p (enqueued i d ∷ fx) = playing id p fx
playing id p (notified t k e ∷ fx) = playing id p fx
playing id p (saved es ∷ fx) = playing id p fx

abbrev pub is_quiet : Option ℕ → Bool
is_quiet none = true
is_quiet (some c) = false

-- No controller of the id starts while one plays, and none that plays is handed over.
abbrev pub one_plays : Str → Option ℕ → List Effect → Bool
one_plays id p [] = true
one_plays id p (started i c ∷ fx) =
    (not (str_eq i id) || is_quiet p) && one_plays id (if str_eq i id then some c else p) fx
one_plays id p (stopped i c ∷ fx) = one_plays id (if str_eq i id && is_it c p then none else p) fx
one_plays id p (enqueued i c ∷ fx) = not (str_eq i id && is_it c p) && one_plays id p fx
one_plays id p (made i d ∷ fx) = one_plays id p fx
one_plays id p (notified t k e ∷ fx) = one_plays id p fx
one_plays id p (saved es ∷ fx) = one_plays id p fx

-- Calls of observers and of the store, which concern no controller.
abbrev pub is_report : Effect → Bool
is_report (made i d) = false
is_report (started i d) = false
is_report (stopped i d) = false
is_report (enqueued i d) = false
is_report (notified t k e) = true
is_report (saved es) = true

abbrev pub are_reports : List Effect → Bool
are_reports [] = true
are_reports (e ∷ fx) = is_report e && are_reports fx

pub record IsSilent (id : Str) (fx : List Effect) : Type 0 where
  pub no_make : (c : ℕ) → makes id c fx ≡ 0
  pub no_hand : (c : ℕ) → hands_over id c fx ≡ 0
  pub plays_on : (p : Option ℕ) → playing id p fx ≡ p
  pub plays_one : (p : Option ℕ) → one_plays id p fx ≡ true

pub reports-IsSilent : (id : Str) (fx : List Effect) → are_reports fx ≡ true → IsSilent id fx
reports-IsSilent id [] e = record {
  no_make = λ c. refl;
  no_hand = λ c. refl;
  plays_on = λ p. refl;
  plays_one = λ p. refl;
}
reports-IsSilent id (notified t k ep ∷ fx) e =
    let h = reports-IsSilent id fx e in
    record {
      no_make = h.no_make;
      no_hand = h.no_hand;
      plays_on = h.plays_on;
      plays_one = h.plays_one;
    }
reports-IsSilent id (saved es ∷ fx) e =
    let h = reports-IsSilent id fx e in
    record {
      no_make = h.no_make;
      no_hand = h.no_hand;
      plays_on = h.plays_on;
      plays_one = h.plays_one;
    }
reports-IsSilent id (made i d ∷ fx) e = ground (arith, e)
reports-IsSilent id (started i d ∷ fx) e = ground (arith, e)
reports-IsSilent id (stopped i d ∷ fx) e = ground (arith, e)
reports-IsSilent id (enqueued i d ∷ fx) e = ground (arith, e)

pub append-reports :
    (fx gx : List Effect)
    → are_reports fx ≡ true
    → are_reports gx ≡ true
    → are_reports (fx ++ gx) ≡ true
append-reports [] gx e f = f
append-reports (x ∷ fx) gx e f = ground (arith, e, append-reports fx gx, f)

pub notify-reports :
    (tokens : List ℕ) (kind : ChangeKind) (ep : Endpoint)
    → are_reports (map (λ token. notified token kind ep) tokens) ≡ true
notify-reports [] kind ep = refl
notify-reports (t ∷ tokens) kind ep = notify-reports tokens kind ep

pub notify_all-reports :
    (r : Registry) (eps : List Endpoint) → are_reports (notify_all r eps) ≡ true
notify_all-reports r [] = refl
notify_all-reports r (ep ∷ eps) =
    append-reports (notify r ChangeKind.updated ep) (notify_all r eps)
      (notify-reports r.observers ChangeKind.updated ep) (notify_all-reports r eps)
