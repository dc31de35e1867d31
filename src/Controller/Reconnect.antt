-- ===== src/Controller/Reconnect.antt =====
-- src/pipeline/OutputController.cpp: reconnect_thread_func(), section by section.
use stream_multicast.Common.{
  ℕ, ◌+◌, Bool, true, false, ◌&&◌, ◌||◌, not, ◌++◌, Option, none, some, if◌then◌else◌, Str, codes,
  ◌==◌,
}
use stream_multicast.Common.Int.{pos, ltb_ℤ}
use stream_multicast.Endpoint.{EncoderBackend}
use stream_multicast.Recovery.{on_restart_failure}
use stream_multicast.Controller.{
  failed_hard, Controller, reconnect_delay_seconds, max_attempts, effective_backend_locked,
  encoder_fallback_switched_locked, ResolvedVideo, no_video, main_video, canvas_video, rv_canvas,
  rv_name, swap_canvas_locked, do_release_encoders_locked,
}

-- Where the thread stands; `o` is its captured output.
pub data Thread : Type 0 where
  spawned : Thread
  at_head sleeping counted reattaching guarding : ℕ → Thread
  resolving : ℕ → EncoderBackend → Thread
  creating : ℕ → EncoderBackend → ResolvedVideo → Thread
  connecting publishing : ℕ → ℕ → ℕ → ResolvedVideo → Thread
  committed : ℕ → Thread
  finished : Thread

-- `m_output == captured_output`
abbrev pub is_session : Option ℕ → ℕ → Bool
is_session none o = false
is_session (some p) o = p == o

-- `m_stop_reconnect.load() || m_output != captured_output`
abbrev pub is_over : Controller → ℕ → Bool
is_over c o = c.stop_reconnect || not (is_session c.output o)

abbrev pub capture : Option ℕ → Thread
capture none = finished
capture (some o) = at_head o

-- The thread fails the session, if it is still its own.
unfoldable pub fail_session : Controller → ℕ → Str → Controller
fail_session c o reason =
    if is_session c.output o then record c { state = failed_hard; last_error = reason } else c

-- The head of the loop: the stop flag, and the limit of the attempts. The two tests, without a
-- lock, and the section that fails the session are one step here: a start() between them, which
-- resets the attempts, comes before or after the whole head.
unfoldable pub thread_head : Controller → ℕ → Controller × Thread
thread_head c o =
    if c.stop_reconnect
    then (c, finished)
    else if ltb_ℤ (reconnect_delay_seconds c.reconnect_attempt max_attempts) (pos 0)
    then (fail_session c o (codes "Max reconnect attempts reached"), finished)
    else (c, sleeping o)

-- The end of the wait, by its time or by a change of the session.
unfoldable pub thread_wake : Controller → ℕ → Controller × Thread
thread_wake c o =
    if is_over c o
    then (c, finished)
    else (record c { reconnect_attempt = c.reconnect_attempt + 1 }, counted o)

unfoldable pub thread_release : Controller → ℕ → Controller × Thread
thread_release c o =
    if is_over c o then (c, finished) else (do_release_encoders_locked c, reattaching o)

-- The end of the wait for the output to become inactive.
unfoldable pub thread_reattach : Controller → ℕ → Bool → Controller × Thread
thread_reattach c o became_inactive =
    if is_over c o
    then (c, finished)
    else if not became_inactive
    then (c, at_head o)
    else (c, guarding o)

-- The first session guard.
unfoldable pub thread_guard : Controller → ℕ → Bool → Controller × Thread
thread_guard c o x264_registered =
    if is_over c o
    then (c, finished)
    else (c, resolving o (effective_backend_locked c x264_registered))

unfoldable pub thread_resolve :
    Controller → ℕ → EncoderBackend → ResolvedVideo → Controller × Thread
thread_resolve c o b (no_video reason) = (fail_session c o reason, finished)
thread_resolve c o b main_video = (c, creating o b main_video)
thread_resolve c o b (canvas_video h u n) = (c, creating o b (canvas_video h u n))

-- A failed restart, counted while the session is the thread's own.
unfoldable pub count_restart_failure : Controller → Bool → Controller
count_restart_failure c x264_registered =
    let (recovery, switched) = on_restart_failure c.recovery c.backend in
    (encoder_fallback_switched_locked (record c { recovery = recovery }) switched x264_registered).0

unfoldable pub thread_create :
    Controller → ℕ → ResolvedVideo → Option ℕ → Option ℕ → Bool → Controller × Thread
thread_create c o rv (some v) (some a) x264_registered = (c, connecting o v a rv)
thread_create c o rv (some v) none x264_registered =
    (if is_session c.output o then count_restart_failure c x264_registered else c, at_head o)
thread_create c o rv none a x264_registered =
    (if is_session c.output o then count_restart_failure c x264_registered else c, at_head o)

abbrev has_canvas : Option ℕ → Bool
has_canvas none = false
has_canvas (some h) = true

-- After the canvas signals are connected: whether the canvas was removed meanwhile.
unfoldable pub thread_connect : Controller → ℕ → ℕ → ℕ → ResolvedVideo → Bool → Controller × Thread
thread_connect c o v a rv removed =
    if has_canvas (rv_canvas rv) && removed
    then (fail_session c o (codes "Canvas '" ++ (rv_name rv ++ codes "' was removed")), finished)
    else (c, publishing o v a rv)

-- The second session guard, with the publication of the encoders and the canvas.
unfoldable pub thread_publish : Controller → ℕ → ℕ → ℕ → ResolvedVideo → Controller × Thread
thread_publish c o v a rv =
    if is_over c o
    then (c, finished)
    else (swap_canvas_locked (record c { video_enc = some v; audio_enc = some a }) rv, committed o)

-- What stands behind obs_output_start().
unfoldable pub thread_launch : Controller → ℕ → Bool → Bool → Controller × Thread
thread_launch c o started x264_registered =
    if started
    then (c, finished)
    else if not (is_session c.output o)
    then (c, finished)
    else (count_restart_failure c x264_registered, at_head o)
