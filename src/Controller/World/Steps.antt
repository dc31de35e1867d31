-- ===== src/Controller/World/Steps.antt =====
-- src/pipeline/OutputController.cpp: what the single sections leave alone.
use stream_multicast.Common.{ℕ, ◌≡◌, ◌⊎◌, Bool, true, false, Option, none, some, arith}
use stream_multicast.Recovery.{StartFailure}
use stream_multicast.Controller.{
  Controller, no_video, main_video, canvas_video, swap_canvas_locked, do_release_encoders_locked,
  encoder_fallback_switched_locked, first_start_fallback_locked,
}
use stream_multicast.Controller.Session.{
  fail_hard, set_state, create_failed, publish_start, start_refused_section,
}
use stream_multicast.Controller.Reconnect.{
  Thread, spawned, at_head, sleeping, counted, reattaching, guarding, resolving, creating,
  connecting, publishing, committed, finished, fail_session, count_restart_failure, thread_head,
  thread_wake, thread_release, thread_reattach, thread_guard, thread_resolve, thread_create,
  thread_connect, thread_publish, thread_launch,
}
use stream_multicast.Controller.World.{
  Ui, at_rest, taking, start_flagged, resolving_start, stop_flagged, stop_disconnected, joining,
  encoding, re_encoding, launching, ThreadStep, captures, heads, wakes, releases, reattaches,
  guards, resolves, creates, connects, publishes, launches, UiStep, refuses, no_output, reuses,
  encoder_fails, canvas_removed, publishes_start, launched, refused_start, re_encoder_fails,
  re_encodes,
}

-- The fields that hold the output and the reconnect thread.
pub record SameHold (c d : Controller) : Type 0 where
  pub output : d.output ≡ c.output
  pub thread : d.reconnect_thread ≡ c.reconnect_thread

-- The output that a thread captured.
abbrev pub captured : Thread → Option ℕ
captured spawned = none
captured (at_head o) = some o
captured (sleeping o) = some o
captured (counted o) = some o
captured (reattaching o) = some o
captured (guarding o) = some o
captured (resolving o b) = some o
captured (creating o b rv) = some o
captured (connecting o v a rv) = some o
captured (publishing o v a rv) = some o
captured (committed o) = some o
captured finished = none

abbrev pub is_alive : Thread → Bool
is_alive finished = false
is_alive spawned = true
is_alive (at_head o) = true
is_alive (sleeping o) = true
is_alive (counted o) = true
is_alive (reattaching o) = true
is_alive (guarding o) = true
is_alive (resolving o b) = true
is_alive (creating o b rv) = true
is_alive (connecting o v a rv) = true
is_alive (publishing o v a rv) = true
is_alive (committed o) = true

count-SameHold : (c : Controller) (x : Bool) → SameHold c (count_restart_failure c x)
unfolding count_restart_failure encoder_fallback_switched_locked
count-SameHold c x = ground arith

first-SameHold :
    (c : Controller) (f : StartFailure) (x : Bool)
    → SameHold c (first_start_fallback_locked c f x).0
unfolding first_start_fallback_locked
first-SameHold c f x = ground arith

-- A step of a reconnect thread keeps the output and the thread of the controller, starts from a
-- living thread, and ends it or leaves it with the output that it had, or captures the present one.
pub record Keeps (c : Controller) (x : Thread) (r : Controller × Thread) : Type 0 where
  pub hold : SameHold c r.0
  pub alive : is_alive x ≡ true
  pub follows : (is_alive r.1 ≡ false) ⊎ ((captured r.1 ≡ captured x) ⊎ (captured r.1 ≡ c.output))

pub ThreadStep-Keeps :
    {c : Controller} {x : Thread} {r : Controller × Thread} → ThreadStep c x r → Keeps c x r
unfolding fail_session thread_head thread_wake thread_release thread_reattach thread_guard
    thread_resolve thread_create thread_connect thread_publish thread_launch swap_canvas_locked
    do_release_encoders_locked
ThreadStep-Keeps {c} captures = ground arith
ThreadStep-Keeps (heads o) = ground arith
ThreadStep-Keeps (wakes o) = ground arith
ThreadStep-Keeps (releases o) = ground arith
ThreadStep-Keeps (reattaches o i) = ground arith
ThreadStep-Keeps (guards o x) = ground arith
ThreadStep-Keeps (resolves o b (no_video r)) = ground arith
ThreadStep-Keeps (resolves o b main_video) = ground arith
ThreadStep-Keeps (resolves o b (canvas_video h u n)) = ground arith
ThreadStep-Keeps {c} (creates o b rv (some v) (some a) x) = ground arith
ThreadStep-Keeps {c} (creates o b rv (some v) none x) = ground (arith, count-SameHold c x)
ThreadStep-Keeps {c} (creates o b rv none a x) = ground (arith, count-SameHold c x)
ThreadStep-Keeps (connects o v a rv r) = ground arith
ThreadStep-Keeps (publishes o v a rv) = ground arith
ThreadStep-Keeps {c} (launches o s x) = ground (arith, count-SameHold c x)

-- The output that start() works on.
abbrev pub ui_output : Ui → Option ℕ
ui_output at_rest = none
ui_output taking = none
ui_output start_flagged = none
ui_output resolving_start = none
ui_output stop_flagged = none
ui_output stop_disconnected = none
ui_output (joining m) = none
ui_output (encoding o) = some o
ui_output (re_encoding o) = some o
ui_output (launching o) = some o

-- A step of start() that touches the controller alone keeps the output and the thread, begins and
-- ends inside start() or at rest, with no join, and goes on with the output that it had or holds.
abbrev pub in_start : Ui → Bool
in_start at_rest = true
in_start taking = false
in_start start_flagged = false
in_start resolving_start = true
in_start stop_flagged = false
in_start stop_disconnected = false
in_start (joining m) = false
in_start (encoding o) = true
in_start (re_encoding o) = true
in_start (launching o) = true

abbrev pub is_at_rest : Ui → Bool
is_at_rest at_rest = true
is_at_rest taking = false
is_at_rest start_flagged = false
is_at_rest resolving_start = false
is_at_rest stop_flagged = false
is_at_rest stop_disconnected = false
is_at_rest (joining m) = false
is_at_rest (encoding o) = false
is_at_rest (re_encoding o) = false
is_at_rest (launching o) = false

pub record Serves (c : Controller) (u : Ui) (d : Controller) (u' : Ui) : Type 0 where
  pub hold : SameHold c d
  pub busy : is_at_rest u ≡ false
  pub began : in_start u ≡ true
  pub inside : in_start u' ≡ true
  pub works : (ui_output u' ≡ none) ⊎ ((ui_output u' ≡ ui_output u) ⊎ (ui_output u' ≡ c.output))

pub UiStep-Serves :
    {c : Controller} {u : Ui} {d : Controller} {u' : Ui} → UiStep c u d u' → Serves c u d u'
unfolding fail_hard set_state create_failed publish_start start_refused_section swap_canvas_locked
    do_release_encoders_locked first_start_fallback_locked
UiStep-Serves (refuses reason) = ground arith
UiStep-Serves (no_output e) = ground arith
UiStep-Serves (reuses o e) = ground arith
UiStep-Serves (encoder_fails o v x reason) = ground arith
UiStep-Serves (canvas_removed o reason) = ground arith
UiStep-Serves (publishes_start o v a rv) = ground arith
UiStep-Serves (launched o) = ground arith
UiStep-Serves (refused_start o r x) = ground arith
UiStep-Serves (re_encoder_fails o v x reason) = ground arith
UiStep-Serves (re_encodes o v a) = ground arith
