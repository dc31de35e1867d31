-- ===== src/Controller/World/Core.antt =====
-- The part of the invariant that speaks of outputs and threads.
use stream_multicast.Common.{
  ℕ, suc, ◌≤◌, ◌<◌, ◌≡◌, sym, ap, subst, ◌∙◌, inl, inr, Bool, true, [], ◌∷◌, ◌++◌, none, some,
  arith,
}
use stream_multicast.Controller.{Controller}
use stream_multicast.Controller.Session.{Teardown}
use stream_multicast.Controller.Reconnect.{Thread, finished}
use stream_multicast.Controller.World.{World, Ui, Signal, Shutdown}
use stream_multicast.Controller.World.Steps.{captured, is_alive}
use stream_multicast.Controller.World.Hold.{
  one, total, in_jobs-append, Behind, Attached, Located, Pinned, Behind-detach, Behind-last,
  JobOf-append, JobOf-last, Behind-grows,
}

-- A thread that captured an output may use it only while it is held until the thread is joined;
-- every living thread is going to be joined; every output made is held or released, once; and the next
-- output and thread are new.
pub record Core (w : World) : Type 0 where
  pub pinned : (t o : ℕ) → captured (w.threads t) ≡ some o → Pinned t o w
  pub located : (t : ℕ) → is_alive (w.threads t) ≡ true → Located t w
  pub once : (o : ℕ) → o < w.next_output → total w o ≡ 1
  pub fresh : (o : ℕ) → w.next_output ≤ o → total w o ≡ 0
  pub unborn : (t : ℕ) → w.next_thread ≤ t → w.threads t ≡ finished

pub captured-alive : (x : Thread) {o : ℕ} → captured x ≡ some o → is_alive x ≡ true
captured-alive x e = ground arith

-- The threads, the jobs and the output stay; every living thread stays with someone who joins it.
pub Core-moves :
    (w : World) (d : Controller) (u : Ui) (s : Signal) (c : Bool) (sh : Shutdown)
    → d.output ≡ w.ctrl.output
    → ((t : ℕ)
        → is_alive (w.threads t) ≡ true
        → Attached t w
        → Attached t (record w { ctrl = d; ui = u; signal = s; connected = c; shutdown = sh }))
    → Core w
    → Core (record w { ctrl = d; ui = u; signal = s; connected = c; shutdown = sh })
Core-moves w d u s c sh out att h = record {
  pinned = λ t o e. pin t o (captured-alive (w.threads t) e) (h.pinned t o e);
  located = λ t a. place t a (h.located t a);
  once = λ o le. rw out (h.once o le);
  fresh = λ o le. rw out (h.fresh o le);
  unborn = h.unborn;
}
  where
    w' : World
    w' = record w { ctrl = d; ui = u; signal = s; connected = c; shutdown = sh }

    pin : (t o : ℕ) → is_alive (w.threads t) ≡ true → Pinned t o w → Pinned t o w'
    pin t o a (inl (b, e)) = inl (att t a b, out ∙ e)
    pin t o a (inr b) = inr (subst (λ m. Behind t o m w.queue) (sym out) b)

    place : (t : ℕ) → is_alive (w.threads t) ≡ true → Located t w → Located t w'
    place t a (inl b) = inl (att t a b)
    place t a (inr b) = inr b

-- start() makes a new output.
pub Core-creates :
    (w : World) (d : Controller) (u : Ui)
    → w.ctrl.output ≡ none
    → d.output ≡ some w.next_output
    → ((t : ℕ)
        → Attached t w
        → Attached t
            (record w { ctrl = d; ui = u; connected = true; next_output = suc w.next_output }))
    → Core w
    → Core (record w { ctrl = d; ui = u; connected = true; next_output = suc w.next_output })
Core-creates w d u empty out att h = record {
  pinned = λ t o e. pin t o (h.pinned t o e);
  located = λ t a. place t (h.located t a);
  once = λ o le. total_new o le;
  fresh = λ o le. fresh_new o le;
  unborn = h.unborn;
}
  where
    w' : World
    w' = record w { ctrl = d; ui = u; connected = true; next_output = suc w.next_output }

    pin : (t o : ℕ) → Pinned t o w → Pinned t o w'
    pin t o (inl (b, e)) = cc
    pin t o (inr b) = inr (
        subst (λ m. Behind t o m w.queue) (sym out)
          (Behind-grows t o w.next_output w.queue (subst (λ m. Behind t o m w.queue) empty b)))

    place : (t : ℕ) → Located t w → Located t w'
    place t (inl b) = inl (att t b)
    place t (inr b) = inr b

    total_new : (o : ℕ) → o < suc w.next_output → total w' o ≡ 1
    total_new o le = ground (arith, h.once o, h.fresh o)

    fresh_new : (o : ℕ) → suc w.next_output ≤ o → total w' o ≡ 0
    fresh_new o le = ground (arith, h.fresh o)

-- The output and the thread go into a new last job.
pub Core-detaches :
    (w : World) (d : Controller) (u : Ui) (sh : Shutdown) (j : Teardown)
    → d.output ≡ none
    → j.output ≡ w.ctrl.output
    → j.thread ≡ w.ctrl.reconnect_thread
    → ((t : ℕ) → Attached t w → w.ctrl.reconnect_thread ≡ some t)
    → Core w
    → Core (record w { ctrl = d; ui = u; queue = w.queue ++ (j ∷ []); shutdown = sh })
Core-detaches w d u sh j empty out th only h = record {
  pinned = λ t o e. pin t o (h.pinned t o e);
  located = λ t a. place t (h.located t a);
  once = λ o le. same_total o ∙ h.once o le;
  fresh = λ o le. same_total o ∙ h.fresh o le;
  unborn = h.unborn;
}
  where
    w' : World
    w' = record w { ctrl = d; ui = u; queue = w.queue ++ (j ∷ []); shutdown = sh }

    pin : (t o : ℕ) → Pinned t o w → Pinned t o w'
    pin t o (inl (b, e)) = inr (rw empty (Behind-last t o w.queue j (th ∙ only t b) (out ∙ e)))
    pin t o (inr b) = inr (rw empty (Behind-detach t o w.ctrl.output w.queue j out b))

    place : (t : ℕ) → Located t w → Located t w'
    place t (inl b) = inr (JobOf-last t w.queue j (th ∙ only t b))
    place t (inr b) = inr (JobOf-append t w.queue j b)

    same_total : (o : ℕ) → total w' o ≡ total w o
    same_total o =
        omega
          (arith, in_jobs-append w.queue (j ∷ []) o, ap (λ m. one m o) out, ap (λ m. one m o) empty)
