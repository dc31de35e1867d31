-- ===== src/Controller/World.antt =====
-- The threads that touch one OutputController, as interleaved sections: the UI thread (start(),
-- stop() and the removal of the controller), the signal thread of libobs, the reconnect threads,
-- and the worker of src/pipeline/ControllerReaper.cpp, which runs the teardown jobs in order and
-- shutdown_blocking() last. A lock is held for one section, so a step is one section;
-- an atomic flag that is written right before a locked section is written in the same step.
pub mod Steps
pub mod Hold
pub mod Core
pub mod Threads
pub mod Control
pub mod Invariant
pub mod Safe
use stream_multicast.Common.{
  zero, ℕ, suc, ◌+◌, ◌≡◌, ◌≢◌, Bool, true, false, List, [], ◌∷◌, ◌++◌, Option, none, some,
  if◌then◌else◌, Str, ◌==◌,
}
use stream_multicast.Common.Int.{ℤ}
use stream_multicast.Endpoint.{EncoderBackend}
use stream_multicast.Recovery.{fresh}
use stream_multicast.Controller.{
  Controller, ResolvedVideo, canvas_video, no_video, idle, failed_hard,
}
use stream_multicast.Controller.Session.{
  start_enter, start_take_thread, start_resume, fail_hard, set_state, publish_output, create_failed,
  publish_start, Refusal, start_refused_section, Teardown, nothing_to_stop, canvas_gone, flag_stop,
  stop_detach, shutdown_detach, on_start_signal, handle_stop, handle_stop_spawn,
}
use stream_multicast.Controller.Reconnect.{
  Thread, spawned, at_head, sleeping, counted, reattaching, guarding, resolving, creating,
  connecting, publishing, committed, finished, capture, thread_head, thread_wake, thread_release,
  thread_reattach, thread_guard, thread_resolve, thread_create, thread_connect, thread_publish,
  thread_launch,
}

-- Where the UI thread stands in start() or stop().
pub data Ui : Type 0 where
  at_rest taking start_flagged resolving_start stop_flagged stop_disconnected : Ui
  joining : Option ℕ → Ui
  encoding re_encoding launching : ℕ → Ui

-- Where the signal thread stands in handle_stop().
pub data Signal : Type 0 where
  quiet : Signal
  joining_stale : Option ℕ → Signal

-- shutdown_blocking(), the last job of the controller on the reaper.
pub data Shutdown : Type 0 where
  not_requested requested claimed disconnected done : Shutdown

pub record World : Type 0 where
  pub ctrl : Controller
  pub ui : Ui
  pub signal : Signal
  pub connected : Bool  -- the callbacks of the output are connected
  pub threads : ℕ → Thread
  pub next_thread : ℕ
  pub next_output : ℕ
  pub queue : List Teardown
  pub shutdown : Shutdown
  pub released : List ℕ  -- outputs that the reaper stopped and released

abbrev pub Joined : Option ℕ → (ℕ → Thread) → Type 0
Joined none threads = Unit {0}
Joined (some t) threads = threads t ≡ finished

abbrev pub set_thread : (ℕ → Thread) → ℕ → Thread → ℕ → Thread
set_thread threads t x s = if s == t then x else threads s

abbrev pub with_output : Option ℕ → List ℕ → List ℕ
with_output none released = released
with_output (some o) released = o ∷ released

-- The steps of a reconnect thread; the answers of libobs are free.
pub data ThreadStep (c : Controller) : Thread → Controller × Thread → Type 0 where
  captures : ThreadStep c spawned (c, capture c.output)
  heads : (o : ℕ) → ThreadStep c (at_head o) (thread_head c o)
  wakes : (o : ℕ) → ThreadStep c (sleeping o) (thread_wake c o)
  releases : (o : ℕ) → ThreadStep c (counted o) (thread_release c o)
  reattaches :
      (o : ℕ) (inactive : Bool) → ThreadStep c (reattaching o) (thread_reattach c o inactive)
  guards : (o : ℕ) (x264 : Bool) → ThreadStep c (guarding o) (thread_guard c o x264)
  resolves :
      (o : ℕ) (b : EncoderBackend) (rv : ResolvedVideo)
      → ThreadStep c (resolving o b) (thread_resolve c o b rv)
  creates :
      (o : ℕ) (b : EncoderBackend) (rv : ResolvedVideo) (v a : Option ℕ) (x264 : Bool)
      → ThreadStep c (creating o b rv) (thread_create c o rv v a x264)
  connects :
      (o v a : ℕ) (rv : ResolvedVideo) (removed : Bool)
      → ThreadStep c (connecting o v a rv) (thread_connect c o v a rv removed)
  publishes :
      (o v a : ℕ) (rv : ResolvedVideo)
      → ThreadStep c (publishing o v a rv) (thread_publish c o v a rv)
  -- obs_output_start(o) runs here
  launches :
      (o : ℕ) (started x264 : Bool) → ThreadStep c (committed o) (thread_launch c o started x264)

abbrev pub or_rest : Bool → Ui → Ui
or_rest true u = u
or_rest false u = at_rest

abbrev pub failed_or : Controller × Bool → Str → Controller
failed_or (c, true) reason = c
failed_or (c, false) reason = record c { state = failed_hard; last_error = reason }

-- The steps of start() and stop() that touch the controller alone.
pub data UiStep (c : Controller) : Ui → Controller → Ui → Type 0 where
  refuses : (reason : Str) → UiStep c resolving_start (fail_hard c reason) at_rest
  no_output : c.output ≡ none → UiStep c resolving_start (set_state c failed_hard) at_rest
  reuses : (o : ℕ) → c.output ≡ some o → UiStep c resolving_start c (encoding o)
  encoder_fails :
      (o : ℕ) (video_failed x264 : Bool) (reason : Str)
      → UiStep c
          (encoding o)
          (failed_or (create_failed c video_failed x264) reason)
          (or_rest (create_failed c video_failed x264).1 (encoding o))
  canvas_removed : (o : ℕ) (reason : Str) → UiStep c (encoding o) (fail_hard c reason) at_rest
  publishes_start :
      (o v a : ℕ) (rv : ResolvedVideo)
      → UiStep c (encoding o) (publish_start c v a rv) (launching o)
  -- obs_output_start(o) runs before these two
  launched : (o : ℕ) → UiStep c (launching o) c at_rest
  refused_start :
      (o : ℕ) (r : Refusal) (x264 : Bool)
      → UiStep c
          (launching o)
          (start_refused_section c r x264).0
          (or_rest (start_refused_section c r x264).1 (re_encoding o))
  re_encoder_fails :
      (o : ℕ) (video_failed x264 : Bool) (reason : Str)
      → UiStep c
          (re_encoding o)
          (failed_or (create_failed c video_failed x264) reason)
          (or_rest (create_failed c video_failed x264).1 (re_encoding o))
  re_encodes :
      (o v a : ℕ)
      → UiStep c (re_encoding o) (record c { video_enc = some v; audio_enc = some a }) (launching o)

pub data Step (w : World) : World → Type 0 where
  ui_steps :
      {c : Controller} {u : Ui} → UiStep w.ctrl w.ui c u → Step w (record w { ctrl = c; ui = u })
  start_begins :
      w.ui ≡ at_rest
      → w.shutdown ≡ not_requested
      → (start_enter w.ctrl).1 ≡ false
      → Step w (record w { ctrl = (start_enter w.ctrl).0; ui = taking })
  start_flags : w.ui ≡ taking → Step w (record w { ctrl = flag_stop w.ctrl; ui = start_flagged })
  start_takes :
      w.ui ≡ start_flagged
      → Step w (record w {
        ctrl = (start_take_thread w.ctrl).0;
        ui = joining (start_take_thread w.ctrl).1;
      })
  start_joins :
      {m : Option ℕ}
      → w.ui ≡ joining m
      → Joined m w.threads
      → Step w (record w { ctrl = start_resume w.ctrl; ui = resolving_start })
  start_creates :
      (service : ℕ)
      → w.ui ≡ resolving_start
      → w.ctrl.output ≡ none
      → Step w (record w {
        ctrl = publish_output w.ctrl w.next_output service;
        ui = encoding w.next_output;
        connected = true;
        next_output = suc w.next_output;
      })
  stop_begins :
      w.ui ≡ at_rest
      → w.shutdown ≡ not_requested
      → nothing_to_stop w.ctrl ≡ false
      → Step w (record w { ctrl = flag_stop w.ctrl; ui = stop_flagged })
  stop_is_idle :
      w.ui ≡ at_rest
      → w.shutdown ≡ not_requested
      → nothing_to_stop w.ctrl ≡ true
      → Step w (record w { ctrl = flag_stop w.ctrl })
  -- the canvas signals arrive on the UI thread, and stop() follows
  canvas_goes :
      w.ui ≡ at_rest → w.shutdown ≡ not_requested → Step w (record w { ctrl = canvas_gone w.ctrl })
  -- the disconnection waits for a callback that is running
  stop_disconnects :
      w.ui ≡ stop_flagged
      → w.signal ≡ quiet
      → Step w (record w { connected = false; ui = stop_disconnected })
  stop_finds_idle :
      w.ui ≡ stop_disconnected → nothing_to_stop w.ctrl ≡ true → Step w (record w { ui = at_rest })
  stop_detaches :
      w.ui ≡ stop_disconnected
      → nothing_to_stop w.ctrl ≡ false
      → Step w (record w {
        ctrl = (stop_detach w.ctrl).0;
        ui = at_rest;
        queue = w.queue ++ ((stop_detach w.ctrl).1 ∷ []);
      })
  retires : w.ui ≡ at_rest → w.shutdown ≡ not_requested → Step w (record w { shutdown = requested })
  -- on_start_signal() may also run while handle_stop() joins a stale thread
  goes_live :
      (now : ℤ) → w.connected ≡ true → Step w (record w { ctrl = on_start_signal w.ctrl now })
  stop_signal :
      (code : ℤ) (err : Str) (x264 : Bool) (now : ℤ)
      → w.connected ≡ true
      → w.signal ≡ quiet
      → (handle_stop w.ctrl code err x264 now).1 ≡ none
      → Step w (record w { ctrl = (handle_stop w.ctrl code err x264 now).0 })
  stop_reconnects :
      (code : ℤ) (err : Str) (x264 : Bool) (now : ℤ) {stale : Option ℕ}
      → w.connected ≡ true
      → w.signal ≡ quiet
      → (handle_stop w.ctrl code err x264 now).1 ≡ some stale
      → Step w (record w {
        ctrl = (handle_stop w.ctrl code err x264 now).0;
        signal = joining_stale stale;
      })
  spawns :
      {stale : Option ℕ}
      → w.signal ≡ joining_stale stale
      → Joined stale w.threads
      → (handle_stop_spawn w.ctrl w.next_thread).1 ≡ true
      → Step w (record w {
        ctrl = (handle_stop_spawn w.ctrl w.next_thread).0;
        signal = quiet;
        threads = set_thread w.threads w.next_thread spawned;
        next_thread = suc w.next_thread;
      })
  spawns_nothing :
      {stale : Option ℕ}
      → w.signal ≡ joining_stale stale
      → Joined stale w.threads
      → (handle_stop_spawn w.ctrl w.next_thread).1 ≡ false
      → Step w (record w { ctrl = (handle_stop_spawn w.ctrl w.next_thread).0; signal = quiet })
  runs :
      (t : ℕ) {r : Controller × Thread}
      → ThreadStep w.ctrl (w.threads t) r
      → Step w (record w { ctrl = r.0; threads = set_thread w.threads t r.1 })
  tears_down :
      (j : Teardown) {q : List Teardown}
      → w.queue ≡ j ∷ q
      → Joined j.thread w.threads
      → Step w (record w { queue = q; released = with_output j.output w.released })
  shutdown_claims :
      w.queue ≡ []
      → w.shutdown ≡ requested
      → Step w (record w {
        ctrl = record w.ctrl { shutdown_done = true; stop_reconnect = true };
        shutdown = claimed;
      })
  shutdown_disconnects :
      w.shutdown ≡ claimed
      → w.signal ≡ quiet
      → Step w (record w { connected = false; shutdown = disconnected })
  shutdown_detaches :
      w.shutdown ≡ disconnected
      → Step w (record w {
        ctrl = (shutdown_detach w.ctrl).0;
        queue = (shutdown_detach w.ctrl).1 ∷ w.queue;
        shutdown = done;
      })

-- A controller as it is constructed, alone in the world.
abbrev pub constructed : EncoderBackend → Controller
constructed b = record {
  backend = b;
  state = idle;
  last_error = [];
  reconnect_attempt = 0;
  recovery = fresh;
  output = none;
  service = none;
  video_enc = none;
  audio_enc = none;
  canvas_ref = none;
  canvas_uuid = [];
  canvas_name = [];
  connected_since = none;
  reconnect_thread = none;
  stop_reconnect = false;
  shutdown_done = false;
}

abbrev pub begin : EncoderBackend → World
begin b = record {
  ctrl = constructed b;
  ui = at_rest;
  signal = quiet;
  connected = false;
  threads = λ t. finished;
  next_thread = 0;
  next_output = 0;
  queue = [];
  shutdown = not_requested;
  released = [];
}

pub data Reach (w : World) : World → Type 0 where
  here : Reach w w
  next : {u v : World} → Reach w u → Step u v → Reach w v
