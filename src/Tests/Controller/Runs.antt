-- ===== src/Tests/Controller/Runs.antt =====
-- A session that goes live, is disconnected and stopped, and two ways to go on: the controller is
-- removed, or it is started again before the reconnect thread of the first session was scheduled.
use stream_multicast.Common.{suc, ◌≡◌, refl, inl, true, false, [], ◌∷◌, ◌++◌, none, some}
use stream_multicast.Common.Int.{pos, negsuc}
use stream_multicast.Endpoint.{x264}
use stream_multicast.Controller.{main_video, is_hard_fail_code, encoder_fallback_switched_locked}
use stream_multicast.Recovery.{on_stop_code}
use stream_multicast.Controller.Session.{
  Teardown, start_enter, start_take_thread, start_resume, publish_output, publish_start,
  on_start_signal, reconnect_section, handle_stop, handle_stop_spawn, nothing_to_stop, flag_stop,
  stop_detach, shutdown_detach,
}
use stream_multicast.Controller.Reconnect.{spawned, capture}
use stream_multicast.Controller.World.{
  World, begin, taking, start_flagged, joining, resolving_start, encoding, launching, at_rest,
  stop_flagged, stop_disconnected, quiet, joining_stale, requested, claimed, disconnected, done,
  set_thread, Reach, here, next, ui_steps, publishes_start, launched, start_begins, start_flags,
  start_takes, start_joins, start_creates, stop_begins, stop_disconnects, stop_detaches, retires,
  goes_live, stop_reconnects, spawns, runs, captures, tears_down, shutdown_claims,
  shutdown_disconnects, shutdown_detaches,
}
use stream_multicast.Controller.World.Steps.{captured}
use stream_multicast.Controller.World.Hold.{JobOf}

abbrev fresh_world : World
fresh_world = begin x264

abbrev pub entered : World
entered = record fresh_world { ctrl = (start_enter fresh_world.ctrl).0; ui = taking }

abbrev entered_run : Reach (begin x264) entered
unfolding start_enter start_take_thread start_resume publish_output publish_start on_start_signal
    handle_stop handle_stop_spawn nothing_to_stop flag_stop stop_detach shutdown_detach
    is_hard_fail_code reconnect_section encoder_fallback_switched_locked on_stop_code
entered_run = next here (start_begins refl refl refl)

abbrev pub flagged_first : World
flagged_first = record entered { ctrl = flag_stop entered.ctrl; ui = start_flagged }

abbrev flagged_first_run : Reach (begin x264) flagged_first
unfolding start_enter start_take_thread start_resume publish_output publish_start on_start_signal
    handle_stop handle_stop_spawn nothing_to_stop flag_stop stop_detach shutdown_detach
    is_hard_fail_code reconnect_section encoder_fallback_switched_locked on_stop_code
flagged_first_run = next entered_run (start_flags refl)

abbrev pub taken : World
taken = record flagged_first {
  ctrl = (start_take_thread flagged_first.ctrl).0;
  ui = joining (start_take_thread flagged_first.ctrl).1;
}

abbrev taken_run : Reach (begin x264) taken
unfolding start_enter start_take_thread start_resume publish_output publish_start on_start_signal
    handle_stop handle_stop_spawn nothing_to_stop flag_stop stop_detach shutdown_detach
    is_hard_fail_code reconnect_section encoder_fallback_switched_locked on_stop_code
taken_run = next flagged_first_run (start_takes refl)

abbrev pub joined : World
joined = record taken { ctrl = start_resume taken.ctrl; ui = resolving_start }

abbrev joined_run : Reach (begin x264) joined
unfolding start_enter start_take_thread start_resume publish_output publish_start on_start_signal
    handle_stop handle_stop_spawn nothing_to_stop flag_stop stop_detach shutdown_detach
    is_hard_fail_code reconnect_section encoder_fallback_switched_locked on_stop_code
joined_run = next taken_run (start_joins {m = none} refl tt)

abbrev pub created : World
created = record joined {
  ctrl = publish_output joined.ctrl joined.next_output 7;
  ui = encoding joined.next_output;
  connected = true;
  next_output = suc joined.next_output;
}

abbrev created_run : Reach (begin x264) created
unfolding start_enter start_take_thread start_resume publish_output publish_start on_start_signal
    handle_stop handle_stop_spawn nothing_to_stop flag_stop stop_detach shutdown_detach
    is_hard_fail_code reconnect_section encoder_fallback_switched_locked on_stop_code
created_run = next joined_run (start_creates 7 refl refl)

abbrev pub attached : World
attached = record created { ctrl = publish_start created.ctrl 11 12 main_video; ui = launching 0 }

abbrev attached_run : Reach (begin x264) attached
unfolding start_enter start_take_thread start_resume publish_output publish_start on_start_signal
    handle_stop handle_stop_spawn nothing_to_stop flag_stop stop_detach shutdown_detach
    is_hard_fail_code reconnect_section encoder_fallback_switched_locked on_stop_code
attached_run = next created_run (ui_steps (publishes_start 0 11 12 main_video))

abbrev pub started : World
started = record attached { ctrl = attached.ctrl; ui = at_rest }

abbrev started_run : Reach (begin x264) started
unfolding start_enter start_take_thread start_resume publish_output publish_start on_start_signal
    handle_stop handle_stop_spawn nothing_to_stop flag_stop stop_detach shutdown_detach
    is_hard_fail_code reconnect_section encoder_fallback_switched_locked on_stop_code
started_run = next attached_run (ui_steps (launched 0))

abbrev pub went_live : World
went_live = record started { ctrl = on_start_signal started.ctrl (pos 1000) }

abbrev went_live_run : Reach (begin x264) went_live
unfolding start_enter start_take_thread start_resume publish_output publish_start on_start_signal
    handle_stop handle_stop_spawn nothing_to_stop flag_stop stop_detach shutdown_detach
    is_hard_fail_code reconnect_section encoder_fallback_switched_locked on_stop_code
went_live_run = next started_run (goes_live (pos 1000) refl)

abbrev pub dropped : World
dropped = record went_live {
  ctrl = (handle_stop went_live.ctrl (negsuc 4) [] true (pos 5000)).0;
  signal = joining_stale none;
}

abbrev pub dropped_run : Reach (begin x264) dropped
unfolding start_enter start_take_thread start_resume publish_output publish_start on_start_signal
    handle_stop handle_stop_spawn nothing_to_stop flag_stop stop_detach shutdown_detach
    is_hard_fail_code reconnect_section encoder_fallback_switched_locked on_stop_code
dropped_run =
    next went_live_run (stop_reconnects (negsuc 4) [] true (pos 5000) {stale = none} refl refl refl)

abbrev pub spawning : World
spawning = record dropped {
  ctrl = (handle_stop_spawn dropped.ctrl dropped.next_thread).0;
  signal = quiet;
  threads = set_thread dropped.threads dropped.next_thread spawned;
  next_thread = suc dropped.next_thread;
}

abbrev spawning_run : Reach (begin x264) spawning
unfolding start_enter start_take_thread start_resume publish_output publish_start on_start_signal
    handle_stop handle_stop_spawn nothing_to_stop flag_stop stop_detach shutdown_detach
    is_hard_fail_code reconnect_section encoder_fallback_switched_locked on_stop_code
spawning_run = next dropped_run (spawns {stale = none} refl tt refl)

abbrev pub flagged : World
flagged = record spawning { ctrl = flag_stop spawning.ctrl; ui = stop_flagged }

abbrev flagged_run : Reach (begin x264) flagged
unfolding start_enter start_take_thread start_resume publish_output publish_start on_start_signal
    handle_stop handle_stop_spawn nothing_to_stop flag_stop stop_detach shutdown_detach
    is_hard_fail_code reconnect_section encoder_fallback_switched_locked on_stop_code
flagged_run = next spawning_run (stop_begins refl refl refl)

abbrev pub cut_off : World
cut_off = record flagged { connected = false; ui = stop_disconnected }

abbrev cut_off_run : Reach (begin x264) cut_off
unfolding start_enter start_take_thread start_resume publish_output publish_start on_start_signal
    handle_stop handle_stop_spawn nothing_to_stop flag_stop stop_detach shutdown_detach
    is_hard_fail_code reconnect_section encoder_fallback_switched_locked on_stop_code
cut_off_run = next flagged_run (stop_disconnects refl refl)

abbrev pub stopped : World
stopped = record cut_off {
  ctrl = (stop_detach cut_off.ctrl).0;
  ui = at_rest;
  queue = cut_off.queue ++ ((stop_detach cut_off.ctrl).1 ∷ []);
}

abbrev stopped_run : Reach (begin x264) stopped
unfolding start_enter start_take_thread start_resume publish_output publish_start on_start_signal
    handle_stop handle_stop_spawn nothing_to_stop flag_stop stop_detach shutdown_detach
    is_hard_fail_code reconnect_section encoder_fallback_switched_locked on_stop_code
stopped_run = next cut_off_run (stop_detaches refl refl)

abbrev job : Teardown
job = (stop_detach cut_off.ctrl).1

abbrev pub late : World
late = record stopped {
  ctrl = stopped.ctrl;
  threads = set_thread stopped.threads 0 (capture stopped.ctrl.output);
}

abbrev late_run : Reach (begin x264) late
unfolding start_enter start_take_thread start_resume publish_output publish_start on_start_signal
    handle_stop handle_stop_spawn nothing_to_stop flag_stop stop_detach shutdown_detach
    is_hard_fail_code reconnect_section encoder_fallback_switched_locked on_stop_code
late_run = next stopped_run (runs 0 captures)

abbrev pub torn_down : World
torn_down = record late { queue = []; released = 0 ∷ [] }

abbrev pub torn_down_run : Reach (begin x264) torn_down
unfolding start_enter start_take_thread start_resume publish_output publish_start on_start_signal
    handle_stop handle_stop_spawn nothing_to_stop flag_stop stop_detach shutdown_detach
    is_hard_fail_code reconnect_section encoder_fallback_switched_locked on_stop_code
torn_down_run = next late_run (tears_down job refl refl)

abbrev pub retired : World
retired = record torn_down { shutdown = requested }

abbrev retired_run : Reach (begin x264) retired
unfolding start_enter start_take_thread start_resume publish_output publish_start on_start_signal
    handle_stop handle_stop_spawn nothing_to_stop flag_stop stop_detach shutdown_detach
    is_hard_fail_code reconnect_section encoder_fallback_switched_locked on_stop_code
retired_run = next torn_down_run (retires refl refl)

abbrev pub closing : World
closing = record retired {
  ctrl = record retired.ctrl { shutdown_done = true; stop_reconnect = true };
  shutdown = claimed;
}

abbrev closing_run : Reach (begin x264) closing
unfolding start_enter start_take_thread start_resume publish_output publish_start on_start_signal
    handle_stop handle_stop_spawn nothing_to_stop flag_stop stop_detach shutdown_detach
    is_hard_fail_code reconnect_section encoder_fallback_switched_locked on_stop_code
closing_run = next retired_run (shutdown_claims refl refl)

abbrev pub closed_off : World
closed_off = record closing { connected = false; shutdown = disconnected }

abbrev closed_off_run : Reach (begin x264) closed_off
unfolding start_enter start_take_thread start_resume publish_output publish_start on_start_signal
    handle_stop handle_stop_spawn nothing_to_stop flag_stop stop_detach shutdown_detach
    is_hard_fail_code reconnect_section encoder_fallback_switched_locked on_stop_code
closed_off_run = next closing_run (shutdown_disconnects refl refl)

abbrev pub closed : World
closed = record closed_off {
  ctrl = (shutdown_detach closed_off.ctrl).0;
  queue = (shutdown_detach closed_off.ctrl).1 ∷ closed_off.queue;
  shutdown = done;
}

abbrev closed_run : Reach (begin x264) closed
unfolding start_enter start_take_thread start_resume publish_output publish_start on_start_signal
    handle_stop handle_stop_spawn nothing_to_stop flag_stop stop_detach shutdown_detach
    is_hard_fail_code reconnect_section encoder_fallback_switched_locked on_stop_code
closed_run = next closed_off_run (shutdown_detaches refl)

abbrev empty_job : Teardown
empty_job = (shutdown_detach closed_off.ctrl).1

abbrev pub finished_off : World
finished_off = record closed { queue = []; released = closed.released }

abbrev pub finished_off_run : Reach (begin x264) finished_off
unfolding start_enter start_take_thread start_resume publish_output publish_start on_start_signal
    handle_stop handle_stop_spawn nothing_to_stop flag_stop stop_detach shutdown_detach
    is_hard_fail_code reconnect_section encoder_fallback_switched_locked on_stop_code
finished_off_run = next closed_run (tears_down empty_job refl tt)

-- start() runs again before the thread of the first session was scheduled.
abbrev pub entered_again : World
entered_again = record stopped { ctrl = (start_enter stopped.ctrl).0; ui = taking }

abbrev entered_again_run : Reach (begin x264) entered_again
unfolding start_enter start_take_thread start_resume publish_output publish_start on_start_signal
    handle_stop handle_stop_spawn nothing_to_stop flag_stop stop_detach shutdown_detach
    is_hard_fail_code reconnect_section encoder_fallback_switched_locked on_stop_code
entered_again_run = next stopped_run (start_begins refl refl refl)

abbrev pub flagged_again : World
flagged_again = record entered_again { ctrl = flag_stop entered_again.ctrl; ui = start_flagged }

abbrev flagged_again_run : Reach (begin x264) flagged_again
unfolding start_enter start_take_thread start_resume publish_output publish_start on_start_signal
    handle_stop handle_stop_spawn nothing_to_stop flag_stop stop_detach shutdown_detach
    is_hard_fail_code reconnect_section encoder_fallback_switched_locked on_stop_code
flagged_again_run = next entered_again_run (start_flags refl)

abbrev pub taken_again : World
taken_again = record flagged_again {
  ctrl = (start_take_thread flagged_again.ctrl).0;
  ui = joining (start_take_thread flagged_again.ctrl).1;
}

abbrev taken_again_run : Reach (begin x264) taken_again
unfolding start_enter start_take_thread start_resume publish_output publish_start on_start_signal
    handle_stop handle_stop_spawn nothing_to_stop flag_stop stop_detach shutdown_detach
    is_hard_fail_code reconnect_section encoder_fallback_switched_locked on_stop_code
taken_again_run = next flagged_again_run (start_takes refl)

abbrev pub joined_again : World
joined_again = record taken_again { ctrl = start_resume taken_again.ctrl; ui = resolving_start }

abbrev joined_again_run : Reach (begin x264) joined_again
unfolding start_enter start_take_thread start_resume publish_output publish_start on_start_signal
    handle_stop handle_stop_spawn nothing_to_stop flag_stop stop_detach shutdown_detach
    is_hard_fail_code reconnect_section encoder_fallback_switched_locked on_stop_code
joined_again_run = next taken_again_run (start_joins {m = none} refl tt)

abbrev pub created_again : World
created_again = record joined_again {
  ctrl = publish_output joined_again.ctrl joined_again.next_output 8;
  ui = encoding joined_again.next_output;
  connected = true;
  next_output = suc joined_again.next_output;
}

abbrev created_again_run : Reach (begin x264) created_again
unfolding start_enter start_take_thread start_resume publish_output publish_start on_start_signal
    handle_stop handle_stop_spawn nothing_to_stop flag_stop stop_detach shutdown_detach
    is_hard_fail_code reconnect_section encoder_fallback_switched_locked on_stop_code
created_again_run = next joined_again_run (start_creates 8 refl refl)

abbrev pub captured_late : World
captured_late = record created_again {
  ctrl = created_again.ctrl;
  threads = set_thread created_again.threads 0 (capture created_again.ctrl.output);
}

abbrev pub captured_late_run : Reach (begin x264) captured_late
unfolding start_enter start_take_thread start_resume publish_output publish_start on_start_signal
    handle_stop handle_stop_spawn nothing_to_stop flag_stop stop_detach shutdown_detach
    is_hard_fail_code reconnect_section encoder_fallback_switched_locked on_stop_code
captured_late_run = next created_again_run (runs 0 captures)

-- The thread belongs to the job that tears the first session down, and captures the output of the
-- second.
captures_next_session :
    (JobOf 0 captured_late.queue) × (captured (captured_late.threads 0) ≡ some 1)
unfolding start_enter start_take_thread start_resume publish_output publish_start on_start_signal
    handle_stop handle_stop_spawn nothing_to_stop flag_stop stop_detach shutdown_detach
    is_hard_fail_code reconnect_section encoder_fallback_switched_locked on_stop_code
captures_next_session = (inl refl, refl)
