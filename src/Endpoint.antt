-- ===== src/Endpoint.antt =====
-- src/core/Endpoint.hpp and Endpoint.cpp: the configuration of one output.
pub mod Stored
pub mod Roundtrip
use stream_multicast.Common.{Bool, true, [], Str}
use stream_multicast.Common.Int.{ℤ, pos}

-- `enum class EncoderBackend : int`; `other n` is a value that no enumerator names, which a
-- `static_cast` from a persisted integer can produce.
pub data EncoderBackend : Type 0 where
  x264 nvenc qsv amf : EncoderBackend
  other : ℤ → EncoderBackend

-- `enum class OutputOrientation : int`, with the same remark.
pub data OutputOrientation : Type 0 where
  source_match letterbox center_crop : OutputOrientation
  other_orientation : ℤ → OutputOrientation

pub record Endpoint : Type 0 where
  pub id : Str
  pub name : Str
  pub server_url : Str
  pub stream_key : Str
  pub encoder_backend : EncoderBackend
  pub video_bitrate_kbps : ℤ
  pub keyframe_interval_sec : ℤ
  pub audio_bitrate_kbps : ℤ
  pub orientation : OutputOrientation
  pub canvas_uuid : Str
  pub canvas_name : Str
  pub key_provider : Str
  pub streamlabs_title : Str
  pub streamlabs_category_id : Str
  pub streamlabs_category_name : Str
  pub enabled : Bool
  pub linked_to_main : Bool
  pub sort_order : ℤ

-- `static_cast<int>(orientation)`
abbrev pub orientation_code : OutputOrientation → ℤ
orientation_code source_match = pos 0
orientation_code letterbox = pos 1
orientation_code center_crop = pos 2
orientation_code (other_orientation n) = n

abbrev pub backend_code : EncoderBackend → ℤ
backend_code x264 = pos 0
backend_code nvenc = pos 1
backend_code qsv = pos 2
backend_code amf = pos 3
backend_code (other n) = n

-- `Endpoint::make_default`. The random UUID of `generate_uuid` is an argument.
abbrev pub make_default : Str → Str → Endpoint
make_default uuid name = record {
  id = uuid;
  name = name;
  server_url = [];
  stream_key = [];
  encoder_backend = x264;
  video_bitrate_kbps = pos 6000;
  keyframe_interval_sec = pos 2;
  audio_bitrate_kbps = pos 160;
  orientation = source_match;
  canvas_uuid = [];
  canvas_name = [];
  key_provider = [];
  streamlabs_title = [];
  streamlabs_category_id = [];
  streamlabs_category_name = [];
  enabled = true;
  linked_to_main = true;
  sort_order = pos 0;
}
