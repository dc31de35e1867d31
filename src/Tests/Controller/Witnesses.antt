-- ===== src/Tests/Controller/Witnesses.antt =====
-- The theorems of src/pipeline/OutputController.cpp at concrete runs.
use stream_multicast.Common.{◌≡◌, refl, true, false, [], none, some, arith, codes}
use stream_multicast.Common.Int.{pos, negsuc}
use stream_multicast.Endpoint.{x264, nvenc}
use stream_multicast.Recovery.{on_first_start_failure, is_encoder_start_failure}
use stream_multicast.Controller.{
  Controller, live, first_start_fallback_locked, do_release_encoders_locked,
}
use stream_multicast.Controller.Session.{
  publish_output, on_start_signal, handle_stop, Refusal, start_refused_section,
}
use stream_multicast.Controller.World.{
  World, begin, constructed, re_encoding, launching, re_encodes,
}
use stream_multicast.Controller.World.Steps.{is_alive}
use stream_multicast.Controller.World.Hold.{count}
use stream_multicast.Controller.World.Safe.{
  reconnects, used_unreleased, all_released, assigns_over_none, no_thread_left,
}
use stream_multicast.Controller.Settle.{
  Settles, handle_stop-Settles, GivesUp, after_output, at_once, then_runs, start_retries_once,
}
use stream_multicast.Tests.Controller.Runs.{
  dropped, dropped_run, captured_late, captured_late_run, finished_off, finished_off_run,
}

used_unreleased_example : count captured_late.released 1 ≡ 0
unfolding publish_output
used_unreleased_example = used_unreleased captured_late_run 1 (reconnects 0 refl)

all_released_example : count finished_off.released 0 ≡ 1
all_released_example = all_released finished_off_run refl refl 0 (omega arith)

assigns_over_none_example : dropped.ctrl.reconnect_thread ≡ none
assigns_over_none_example = assigns_over_none dropped_run none refl

no_thread_left_example : is_alive (finished_off.threads 0) ≡ false
no_thread_left_example = no_thread_left finished_off_run refl refl 0

-- A session that spent its ten attempts, went live again and was dropped.
abbrev spent : World
spent = record (begin x264) {
  ctrl = record (constructed x264) { state = live; output = some 0; reconnect_attempt = 10 };
  connected = true;
}

abbrev live_again : World
live_again = record spent { ctrl = on_start_signal spent.ctrl (pos 7) }

handle_stop-Settles_example :
    Settles spent.ctrl (negsuc 2) [] (handle_stop spent.ctrl (negsuc 2) [] true (pos 9))
handle_stop-Settles_example = handle_stop-Settles spent.ctrl (negsuc 2) [] true (pos 9)

abbrev refusal : Refusal
refusal = record {
  output_error = [];
  encoder_error = codes "no NVENC session";
  attached = true;
  active = false;
  can_connect = true;
  reason = [];
}

abbrev retrying : Controller
retrying = (start_refused_section (constructed nvenc) refusal true).0

-- The controller with its new encoders, at the second attempt.
abbrev again : Controller
again = record retrying { video_enc = some 7; audio_enc = some 8 }

start_retries_once_example : GivesUp again refusal true true
unfolding start_refused_section first_start_fallback_locked on_first_start_failure
    is_encoder_start_failure do_release_encoders_locked
start_retries_once_example =
    start_retries_once {c = constructed nvenc} {d = retrying} {e = again} {o = 0}
      {u = re_encoding 0} {v = launching 0} (after_output refusal true refl)
      (then_runs at_once (re_encodes 0 7 8)) refusal true true
