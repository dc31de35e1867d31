-- ===== src/Autosave/Bursts.antt =====
-- src/core/AutosavePolicy: when a series of edits is saved.
use stream_multicast.Common.{
  ℕ, ◌+◌, ◌≡◌, refl, map, All, Bool, true, false, not, List, [], ◌∷◌, ◌&&◌, arith, if◌then◌else◌,
}
use stream_multicast.Common.Int.{ℤ, ◌+ℤ◌, ◌≤ℤ◌, leb_ℤ, min_ℤ, +ℤ_parts}
use stream_multicast.Autosave.{AutosavePolicy, request, due, set_blocked}

-- The requests of the list, in order.
unfoldable pub requests : AutosavePolicy → List ℤ → AutosavePolicy
requests p [] = p
requests p (t ∷ ts) = requests (request p t) ts

abbrev pub latest : ℤ → List ℤ → ℤ
latest t [] = t
latest t (u ∷ ts) = latest u ts

-- The burst that began at `t0`, whose latest request came at `last`, is waiting.
record IsWaiting (d w t0 last : ℤ) (p : AutosavePolicy) : Type 0 where
  same_delay : p.delay ≡ d
  same_wait : p.max_wait ≡ w
  open_policy : p.blocked ≡ false
  waiting : p.pending ≡ true
  since : p.first ≡ t0
  until : p.deadline ≡ min_ℤ (last +ℤ d) (t0 +ℤ w)

request_starts :
    (p : AutosavePolicy) (t0 : ℤ)
    → p.blocked ≡ false
    → p.pending ≡ false
    → p.delay ≤ℤ p.max_wait
    → IsWaiting p.delay p.max_wait t0 t0 (request p t0)
unfolding request
request_starts p t0 b i le = ground (arith, +ℤ_parts t0 p.delay, +ℤ_parts t0 p.max_wait)

requests_wait :
    (d w t0 last : ℤ) (p : AutosavePolicy) (ts : List ℤ)
    → IsWaiting d w t0 last p
    → IsWaiting d w t0 (latest last ts) (requests p ts)
unfolding requests
requests_wait d w t0 last p [] h = h
requests_wait d w t0 last p (t ∷ ts) h =
    requests_wait d w t0 t (request p t) ts (unfold request in ground arith)

IsWaiting-due :
    (d w t0 last now : ℤ) (p : AutosavePolicy)
    → IsWaiting d w t0 last p
    → (due p now).1 ≡ leb_ℤ (min_ℤ (last +ℤ d) (t0 +ℤ w)) now
unfolding due
IsWaiting-due d w t0 last now p h = ground arith

-- A burst of requests, with the first at `t0`, to a policy that is idle and not blocked is saved at
-- a time `now` exactly when `now` is at least the earlier of two times: the quiet time after the
-- latest request, and the longest wait after the first one. So a continuous series of edits is
-- saved too. (The quiet time is at most the longest wait, as in the defaults.)
pub burst_due :
    (p : AutosavePolicy) (t0 : ℤ) (ts : List ℤ) (now : ℤ)
    → p.blocked ≡ false
    → p.pending ≡ false
    → p.delay ≤ℤ p.max_wait
    → (due (requests p (t0 ∷ ts)) now).1
      ≡ leb_ℤ (min_ℤ (latest t0 ts +ℤ p.delay) (t0 +ℤ p.max_wait)) now
unfolding requests
burst_due p t0 ts now b i le =
    IsWaiting-due p.delay p.max_wait t0 (latest t0 ts) now (requests (request p t0) ts)
      (requests_wait p.delay p.max_wait t0 t0 (request p t0) ts (request_starts p t0 b i le))

-- What the adapter does to the policy: polls, requests, blocking.
pub data Call : Type 0 where
  requests_at polls_at : ℤ → Call
  blocks : Bool → Call

-- The state after a call, and whether the call fired a save.
unfoldable pub step : AutosavePolicy → Call → AutosavePolicy × Bool
step p (requests_at t) = (request p t, false)
step p (polls_at t) = due p t
step p (blocks b) = (set_blocked p b, false)

-- How many saves a series of calls fires.
unfoldable pub saves : AutosavePolicy → List Call → ℕ
saves p [] = 0
saves p (c ∷ cs) = saves (step p c).0 cs + (if (step p c).1 then 1 else 0)

-- The requests of the series that are made while the policy is not blocked and nothing is pending:
-- the beginnings of its bursts.
unfoldable pub bursts : AutosavePolicy → List Call → ℕ
bursts p [] = 0
bursts p (requests_at t ∷ cs) =
    bursts (request p t) cs + (if not p.blocked && not p.pending then 1 else 0)
bursts p (polls_at t ∷ cs) = bursts (due p t).0 cs
bursts p (blocks b ∷ cs) = bursts (set_blocked p b) cs

-- The bursts that are cancelled by blocking.
unfoldable pub cancelled : AutosavePolicy → List Call → ℕ
cancelled p [] = 0
cancelled p (requests_at t ∷ cs) = cancelled (request p t) cs
cancelled p (polls_at t ∷ cs) = cancelled (due p t).0 cs
cancelled p (blocks b ∷ cs) = cancelled (set_blocked p b) cs + (if b && p.pending then 1 else 0)

abbrev pub calls : AutosavePolicy → List Call → AutosavePolicy
calls p [] = p
calls p (c ∷ cs) = calls (step p c).0 cs

-- Every burst is saved once, is cancelled by blocking, or is still pending at the end; and no save
-- fires without one.
pub saves_account :
    (p : AutosavePolicy) (cs : List Call)
    → saves p cs + cancelled p cs + (if (calls p cs).pending then 1 else 0)
      ≡ bursts p cs + (if p.pending then 1 else 0)
unfolding saves bursts cancelled step request due set_blocked
saves_account p [] = omega arith
saves_account p (requests_at t ∷ cs) = ground (arith, saves_account (request p t) cs)
saves_account p (polls_at t ∷ cs) = ground (arith, saves_account (due p t).0 cs)
saves_account p (blocks b ∷ cs) = ground (arith, saves_account (set_blocked p b) cs)

-- No call of the series lifts the block.
abbrev pub stays_blocked : Call → Bool
stays_blocked (blocks b) = b
stays_blocked (requests_at t) = true
stays_blocked (polls_at t) = true

blocked_idle :
    (p : AutosavePolicy) (cs : List Call)
    → All (λ c. stays_blocked c ≡ true) cs
    → p.blocked ≡ true
    → p.pending ≡ false
    → (saves p cs ≡ 0) × ((calls p cs).pending ≡ false)
unfolding saves step
blocked_idle p [] h b i = (refl, i)
blocked_idle p (requests_at t ∷ cs) h b i = ground (
  arith,
  blocked_idle (request p t) cs h.1 (unfold request in ground arith)
      (unfold request in ground arith),
)
blocked_idle p (polls_at t ∷ cs) h b i =
    let stays : (due p t).0 ≡ p = unfold due in ground arith in
    let quiet : (due p t).1 ≡ false = unfold due in ground arith in
    ground (arith, blocked_idle p cs h.1 b i, stays, quiet)
blocked_idle p (blocks c ∷ cs) h b i = ground (
  arith,
  blocked_idle (set_blocked p c) cs h.1 (unfold set_blocked in ground arith)
      (unfold set_blocked in ground arith),
)

idle_polls :
    (p : AutosavePolicy) (polls : List ℤ) → p.pending ≡ false → saves p (map polls_at polls) ≡ 0
unfolding saves step
idle_polls p [] i = refl
idle_polls p (t ∷ polls) i =
    let stays : (due p t).0 ≡ p = unfold due in ground arith in
    let quiet : (due p t).1 ≡ false = unfold due in ground arith in
    ground (arith, idle_polls p polls i, stays, quiet)

-- While the policy is blocked nothing is saved, whatever is requested, and unblocking it fires no
-- stale save: no poll after it does, until a new request comes.
pub blocked_drops :
    (p : AutosavePolicy) (cs : List Call) (polls : List ℤ)
    → All (λ c. stays_blocked c ≡ true) cs
    → let blocked = calls (set_blocked p true) cs in
      (saves (set_blocked p true) cs ≡ 0)
      × (saves (set_blocked blocked false) (map polls_at polls) ≡ 0)
blocked_drops p cs polls h =
    let (none_saved, idle) =
      blocked_idle (set_blocked p true) cs h (unfold set_blocked in refl)
        (unfold set_blocked in refl) in
    (none_saved, idle_polls _ polls (unfold set_blocked in idle))
