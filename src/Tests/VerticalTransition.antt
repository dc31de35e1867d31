-- ===== src/Tests/VerticalTransition.antt =====
-- src/core/VerticalTransition on a stinger with a vertical file beside it.
use stream_multicast.Common.{◌≡◌, refl, [], Option, none, some, Str, codes, str_eq}
use stream_multicast.ObsData.Docs.{Doc, docs, docs-IsObsData}
use stream_multicast.VerticalTransition.{
  follow, VerticalTransitionSettings, TransitionDesc, FileExists, split_path,
  suffixed_vertical_file, vertical_stinger_file, copy_of, decide_vertical_transition,
  stinger_transition_id,
}
use stream_multicast.VerticalTransition.Stinger.{IsVertical, video_of, decide-IsVertical}

abbrev settings : VerticalTransitionSettings
settings = record { mode = follow; custom_name = []; stinger_path = []; stinger_source = [] }

abbrev wide : TransitionDesc Doc
wide = record {
  id = stinger_transition_id;
  settings = some (docs.set_string docs.create (codes "path") (codes "E:/s.webm"));
  duration_ms = 900;
}

-- Only the vertical file exists.
abbrev files : FileExists
files = some (str_eq (codes "E:/s-vertical.webm"))

abbrev no_json : Doc → Option Str
no_json d = none

follows :
    (decide_vertical_transition docs no_json settings wide none files).id ≡ stinger_transition_id
unfolding decide_vertical_transition vertical_stinger_file suffixed_vertical_file split_path str_eq
follows = refl

decide-IsVertical_example :
    IsVertical docs docs-IsObsData no_json files
      (copy_of docs no_json wide.settings)
      (video_of docs docs-IsObsData no_json settings files (copy_of docs no_json wide.settings))
      (decide_vertical_transition docs no_json settings wide none files).settings_json
decide-IsVertical_example =
    decide-IsVertical docs docs-IsObsData no_json settings wide none files follows
