-- ===== src/Controller/World/Threads.antt =====
-- The steps that spawn, run and join a thread keep the invariant of outputs and threads.
use stream_multicast.Common.{
  ℕ, suc, ◌≡◌, ◌⊎◌, sym, ap, subst, ◌∙◌, inl, inr, true, false, List, ◌∷◌, Option, none, some,
  arith, ◌==◌, Bool-cases,
}
use stream_multicast.Controller.{Controller}
use stream_multicast.Controller.Session.{Teardown}
use stream_multicast.Controller.Reconnect.{Thread, spawned, finished}
use stream_multicast.Controller.World.{World, quiet, joining_stale, Joined, set_thread, with_output}
use stream_multicast.Controller.World.Steps.{captured, is_alive, Keeps}
use stream_multicast.Controller.World.Hold.{
  in_jobs, total, count-with_output, JobOf, Behind, Attached, Located, Pinned, Behind-captured,
}
use stream_multicast.Controller.World.Core.{Core, captured-alive}

-- A thread that was joined is not alive.
pub Joined-dead :
    (m : Option ℕ) (threads : ℕ → Thread) (t : ℕ)
    → m ≡ some t
    → Joined m threads
    → is_alive (threads t) ≡ true
    → ⊥
Joined-dead none threads t e j a = ground arith
Joined-dead (some s) threads t e j a =
    ground (arith, j, a, ap (λ x. is_alive (threads x)) (some_inj e))
  where
    some_inj : {x y : ℕ} → some x ≡ some y → x ≡ y
    some_inj e = cc

-- handle_stop() spawns a thread after it joined the stale one.
pub Core-spawns :
    (w : World) (d : Controller) {stale : Option ℕ}
    → d.output ≡ w.ctrl.output
    → d.reconnect_thread ≡ some w.next_thread
    → w.ctrl.reconnect_thread ≡ none
    → w.signal ≡ joining_stale stale
    → Joined stale w.threads
    → Core w
    → Core (record w {
      ctrl = d;
      signal = quiet;
      threads = set_thread w.threads w.next_thread spawned;
      next_thread = suc w.next_thread;
    })
Core-spawns w d {stale} out new old sig join h = record {
  pinned = λ t o e. pin t o (Bool-cases (t == w.next_thread)) e;
  located = λ t a. place t (Bool-cases (t == w.next_thread)) a;
  once = λ o le. rw out (h.once o le);
  fresh = λ o le. rw out (h.fresh o le);
  unborn = λ t le. ground (arith, h.unborn t);
}
  where
    w' : World
    w' = record w {
      ctrl = d;
      signal = quiet;
      threads = set_thread w.threads w.next_thread spawned;
      next_thread = suc w.next_thread;
    }

    attached : (t : ℕ) → is_alive (w.threads t) ≡ true → Attached t w → Attached t w'
    attached t a (inl e) = cc
    attached t a (inr (inl e)) = inr (inl e)
    attached t a (inr (inr e)) = absurd (Joined-dead stale w.threads t (cc) join a)

    pin :
        (t o : ℕ)
        → (t == w.next_thread ≡ true) ⊎ (t == w.next_thread ≡ false)
        → captured (w'.threads t) ≡ some o
        → Pinned t o w'
    pin t o (inl s) e = ground (arith, s, e)
    pin t o (inr s) e = moved (h.pinned t o old_e)
      where
        old_e : captured (w.threads t) ≡ some o
        old_e = ground (arith, s, e)

        moved : Pinned t o w → Pinned t o w'
        moved (inl (a, x)) = inl (attached t (captured-alive (w.threads t) old_e) a, out ∙ x)
        moved (inr b) = inr (subst (λ m. Behind t o m w.queue) (sym out) b)

    place :
        (t : ℕ)
        → (t == w.next_thread ≡ true) ⊎ (t == w.next_thread ≡ false)
        → is_alive (w'.threads t) ≡ true
        → Located t w'
    place t (inl s) a = inl (inl (new ∙ ap some (eq t s)))
      where
        eq : (t : ℕ) → t == w.next_thread ≡ true → w.next_thread ≡ t
        eq t s = ground arith
    place t (inr s) a = moved (h.located t old_a)
      where
        old_a : is_alive (w.threads t) ≡ true
        old_a = ground (arith, s, a)

        moved : Located t w → Located t w'
        moved (inl x) = inl (attached t old_a x)
        moved (inr x) = inr x

-- A thread takes a step.
pub Core-runs :
    (w : World) (t : ℕ) {r : Controller × Thread}
    → Keeps w.ctrl (w.threads t) r
    → Core w
    → Core (record w { ctrl = r.0; threads = set_thread w.threads t r.1 })
Core-runs w t {r} k h = record {
  pinned = λ s o e. pin s o (Bool-cases (s == t)) e;
  located = λ s a. place s (Bool-cases (s == t)) a;
  once = λ o le. rw k.hold.output (h.once o le);
  fresh = λ o le. rw k.hold.output (h.fresh o le);
  unborn = λ s le. unborn_kept s (Bool-cases (s == t)) (h.unborn s le);
}
  where
    w' : World
    w' = record w { ctrl = r.0; threads = set_thread w.threads t r.1 }

    eq : (s : ℕ) → s == t ≡ true → t ≡ s
    eq s e = ground arith

    attached : (s : ℕ) → Attached s w → Attached s w'
    attached s (inl e) = inl (k.hold.thread ∙ e)
    attached s (inr a) = inr a

    placed : (s : ℕ) → Located s w → Located s w'
    placed s (inl a) = inl (attached s a)
    placed s (inr b) = inr b

    pinned : (s o : ℕ) → Pinned s o w → Pinned s o w'
    pinned s o (inl (a, x)) = inl (attached s a, k.hold.output ∙ x)
    pinned s o (inr b) = inr (subst (λ m. Behind s o m w.queue) (sym k.hold.output) b)

    captures_now : (o : ℕ) → w.ctrl.output ≡ some o → Located t w → Pinned t o w
    captures_now o x (inl a) = inl (a, x)
    captures_now o x (inr b) =
        inr (subst (λ m. Behind t o m w.queue) (sym x) (Behind-captured t o w.queue b))

    followed :
        (o : ℕ)
        → captured r.1 ≡ some o
        → (is_alive r.1 ≡ false)
          ⊎ ((captured r.1 ≡ captured (w.threads t)) ⊎ (captured r.1 ≡ w.ctrl.output))
        → Pinned t o w
    followed o e (inl dead) = ground (arith, dead, captured-alive r.1 e)
    followed o e (inr (inl same)) = h.pinned t o (sym same ∙ e)
    followed o e (inr (inr now)) = captures_now o (sym now ∙ e) (h.located t k.alive)

    pin :
        (s o : ℕ)
        → (s == t ≡ true) ⊎ (s == t ≡ false)
        → captured (w'.threads s) ≡ some o
        → Pinned s o w'
    pin s o (inl c) e =
        subst (λ x. Pinned x o w') (eq s c)
          (pinned t o (followed o (ground (arith, c, e)) k.follows))
    pin s o (inr c) e = pinned s o (h.pinned s o (ground (arith, c, e)))

    place :
        (s : ℕ) → (s == t ≡ true) ⊎ (s == t ≡ false) → is_alive (w'.threads s) ≡ true → Located s w'
    place s (inl c) a = subst (λ x. Located x w') (eq s c) (placed t (h.located t k.alive))
    place s (inr c) a = placed s (h.located s (ground (arith, c, a)))

    unborn_kept :
        (s : ℕ)
        → (s == t ≡ true) ⊎ (s == t ≡ false)
        → w.threads s ≡ finished
        → w'.threads s ≡ finished
    unborn_kept s (inl c) f =
        ground (arith, k.alive, ap is_alive f, ap (λ x. is_alive (w.threads x)) (eq s c))
    unborn_kept s (inr c) f = ground (arith, c, f)

-- The reaper joins the thread of the first job and releases its output.
pub Core-tears_down :
    (w : World) (j : Teardown) {q : List Teardown}
    → w.queue ≡ j ∷ q
    → Joined j.thread w.threads
    → Core w
    → Core (record w { queue = q; released = with_output j.output w.released })
Core-tears_down w j {q} e join h = record {
  pinned = λ t o x. pin t o x (h.pinned t o x);
  located = λ t a. place t a (h.located t a);
  once = λ o le. same_total o ∙ h.once o le;
  fresh = λ o le. same_total o ∙ h.fresh o le;
  unborn = h.unborn;
}
  where
    w' : World
    w' = record w { queue = q; released = with_output j.output w.released }

    behind :
        (t o : ℕ)
        → is_alive (w.threads t) ≡ true
        → Behind t o w.ctrl.output (j ∷ q)
        → Behind t o w.ctrl.output q
    behind t o a (inl b) = absurd (Joined-dead j.thread w.threads t b.0 join a)
    behind t o a (inr b) = b

    job : (t : ℕ) → is_alive (w.threads t) ≡ true → JobOf t (j ∷ q) → JobOf t q
    job t a (inl b) = absurd (Joined-dead j.thread w.threads t b join a)
    job t a (inr b) = b

    pin : (t o : ℕ) → captured (w.threads t) ≡ some o → Pinned t o w → Pinned t o w'
    pin t o x (inl b) = inl b
    pin t o x (inr b) =
        inr (
          behind t o (captured-alive (w.threads t) x) (subst (λ m. Behind t o w.ctrl.output m) e b))

    place : (t : ℕ) → is_alive (w.threads t) ≡ true → Located t w → Located t w'
    place t a (inl b) = inl b
    place t a (inr b) = inr (job t a (subst (JobOf t) e b))

    same_total : (o : ℕ) → total w' o ≡ total w o
    same_total o = omega (arith, count-with_output j.output w.released o, ap (λ m. in_jobs m o) e)
