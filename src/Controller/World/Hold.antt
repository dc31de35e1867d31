-- ===== src/Controller/World/Hold.antt =====
-- Who holds an output, and which thread may still use it.
use stream_multicast.Common.{
  ℕ, ◌+◌, ◌<◌, ◌≡◌, ◌⊎◌, ap, inl, inr, List, [], ◌∷◌, ◌++◌, Option, none, some, arith,
  if◌then◌else◌, ◌==◌,
}
use stream_multicast.Controller.Session.{Teardown}
use stream_multicast.Controller.World.{World, joining, joining_stale, with_output}

-- How often an output is held, by an optional handle, by the jobs, and among the released ones.
abbrev pub one : Option ℕ → ℕ → ℕ
one none o = 0
one (some p) o = if p == o then 1 else 0

abbrev pub in_jobs : List Teardown → ℕ → ℕ
in_jobs [] o = 0
in_jobs (j ∷ q) o = one j.output o + in_jobs q o

abbrev pub count : List ℕ → ℕ → ℕ
count [] o = 0
count (p ∷ ps) o = (if p == o then 1 else 0) + count ps o

abbrev pub held : World → ℕ → ℕ
held w o = one w.ctrl.output o + in_jobs w.queue o

abbrev pub total : World → ℕ → ℕ
total w o = held w o + count w.released o

pub in_jobs-append : (q r : List Teardown) (o : ℕ) → in_jobs (q ++ r) o ≡ in_jobs q o + in_jobs r o
in_jobs-append [] r o = omega arith
in_jobs-append (j ∷ q) r o = omega (arith, in_jobs-append q r o)

pub count-with_output :
    (m : Option ℕ) (ps : List ℕ) (o : ℕ) → count (with_output m ps) o ≡ one m o + count ps o
count-with_output none ps o = omega arith
count-with_output (some p) ps o = omega arith

-- A thread that a job of the queue joins.
abbrev pub JobOf : ℕ → List Teardown → Type 0
JobOf t [] = ⊥
JobOf t (j ∷ q) = (j.thread ≡ some t) ⊎ JobOf t q

-- A job joins the thread, and the output is held by the controller, by that job or by a later one.
abbrev pub Behind : ℕ → ℕ → Option ℕ → List Teardown → Type 0
Behind t o out [] = ⊥
Behind t o out (j ∷ q) =
    ((j.thread ≡ some t) × (0 < one out o + in_jobs (j ∷ q) o)) ⊎ Behind t o out q

-- The controller, start() or handle_stop() has the thread.
abbrev pub Attached : ℕ → World → Type 0
Attached t w =
    (w.ctrl.reconnect_thread ≡ some t)
    ⊎ ((w.ui ≡ joining (some t)) ⊎ (w.signal ≡ joining_stale (some t)))

abbrev pub Located : ℕ → World → Type 0
Located t w = Attached t w ⊎ JobOf t w.queue

abbrev pub Pinned : ℕ → ℕ → World → Type 0
Pinned t o w = (Attached t w × (w.ctrl.output ≡ some o)) ⊎ Behind t o w.ctrl.output w.queue

one_self : (o : ℕ) → one (some o) o ≡ 1
one_self o = ground arith

-- Some output that a thread may use is still held.
pub Behind-held :
    (t o : ℕ) (out : Option ℕ) (q : List Teardown) → Behind t o out q → 0 < one out o + in_jobs q o
Behind-held t o out [] b = absurd b
Behind-held t o out (j ∷ q) (inl b) = b.1
Behind-held t o out (j ∷ q) (inr b) = omega (arith, Behind-held t o out q b)

pub Pinned-held : (t o : ℕ) (w : World) → Pinned t o w → 0 < held w o
Pinned-held t o w (inl (a, e)) = rw e (omega (arith, one_self o))
Pinned-held t o w (inr b) = Behind-held t o w.ctrl.output w.queue b

-- The controller gives its output to a new last job.
pub Behind-detach :
    (t o : ℕ) (out : Option ℕ) (q : List Teardown) (j : Teardown)
    → j.output ≡ out
    → Behind t o out q
    → Behind t o none (q ++ (j ∷ []))
Behind-detach t o out [] j e b = absurd b
Behind-detach t o out (k ∷ q) j e (inl b) =
    inl (b.0, ground (arith, b.1, in_jobs-append q (j ∷ []) o, ap (λ m. one m o) e))
Behind-detach t o out (k ∷ q) j e (inr b) = inr (Behind-detach t o out q j e b)

pub Behind-last :
    (t o : ℕ) (q : List Teardown) (j : Teardown)
    → j.thread ≡ some t
    → j.output ≡ some o
    → Behind t o none (q ++ (j ∷ []))
Behind-last t o [] j e f = inl (e, ground (arith, ap (λ m. one m o) f, one_self o))
Behind-last t o (k ∷ q) j e f = inr (Behind-last t o q j e f)

pub JobOf-append : (t : ℕ) (q : List Teardown) (j : Teardown) → JobOf t q → JobOf t (q ++ (j ∷ []))
JobOf-append t [] j b = absurd b
JobOf-append t (k ∷ q) j (inl e) = inl e
JobOf-append t (k ∷ q) j (inr b) = inr (JobOf-append t q j b)

pub JobOf-last :
    (t : ℕ) (q : List Teardown) (j : Teardown) → j.thread ≡ some t → JobOf t (q ++ (j ∷ []))
JobOf-last t [] j e = inl e
JobOf-last t (k ∷ q) j e = inr (JobOf-last t q j e)

-- A thread that captures the present output is behind it in the queue.
pub Behind-captured : (t o : ℕ) (q : List Teardown) → JobOf t q → Behind t o (some o) q
Behind-captured t o [] b = absurd b
Behind-captured t o (k ∷ q) (inl e) = inl (e, omega (arith, one_self o))
Behind-captured t o (k ∷ q) (inr b) = inr (Behind-captured t o q b)

-- A new output of the controller changes nothing for the others.
pub Behind-grows : (t o p : ℕ) (q : List Teardown) → Behind t o none q → Behind t o (some p) q
Behind-grows t o p [] b = absurd b
Behind-grows t o p (k ∷ q) (inl b) = inl (b.0, omega (arith, b.1))
Behind-grows t o p (k ∷ q) (inr b) = inr (Behind-grows t o p q b)
