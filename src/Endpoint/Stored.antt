-- ===== src/Endpoint/Stored.antt =====
-- src/core/Endpoint.cpp: the endpoint in the settings file.
use stream_multicast.Common.{
  ℕ, zero, suc, ◌+◌, ◌-◌, ◌%◌, ◌^◌, Bool, true, ◌&&◌, List, [], ◌∷◌, Option, none, some,
  if◌then◌else◌, ltb, Str, codes, str_eq,
}
use stream_multicast.Common.Int.{ℤ, pos, negsuc, pos_part, neg_part, ltb_ℤ, leb_ℤ}
use stream_multicast.ObsData.{Value, string_value, int_value, bool_value, ObsData, c_str}
use stream_multicast.ObsData.Docs.{set_all}
use stream_multicast.Endpoint.{
  EncoderBackend, x264, nvenc, qsv, amf, other, OutputOrientation, source_match, letterbox,
  center_crop, other_orientation, Endpoint, make_default, backend_code, orientation_code,
}

-- `static_cast<int>` of a `long long`.
abbrev pub signed : ℕ → ℤ
signed r = if ltb r (2 ^ 31) then pos r else negsuc (2 ^ 32 - 1 - r)

unfoldable pub to_int : ℤ → ℤ
to_int z = signed ((pos_part z + (2 ^ 32 - neg_part z % 2 ^ 32)) % 2 ^ 32)

-- `static_cast<EncoderBackend>`
abbrev pub backend_of : ℤ → EncoderBackend
backend_of (pos zero) = x264
backend_of (pos (suc zero)) = nvenc
backend_of (pos (suc (suc zero))) = qsv
backend_of (pos (suc (suc (suc zero)))) = amf
backend_of (pos (suc (suc (suc (suc n))))) = other (pos (suc (suc (suc (suc n)))))
backend_of (negsuc n) = other (negsuc n)

-- `static_cast<OutputOrientation>`
abbrev pub orientation_of : ℤ → OutputOrientation
orientation_of (pos zero) = source_match
orientation_of (pos (suc zero)) = letterbox
orientation_of (pos (suc (suc zero))) = center_crop
orientation_of (pos (suc (suc (suc n)))) = other_orientation (pos (suc (suc (suc n))))
orientation_of (negsuc n) = other_orientation (negsuc n)

abbrev pub tiktok_provider : Str
tiktok_provider = codes "streamlabs_tiktok"

-- The setters of `Endpoint::serialize`, in order.
abbrev pub rows : {D : Type 0} → Endpoint → List (Str × Value D)
rows ep =
    (codes "id", string_value (c_str ep.id))
    ∷ (codes "name", string_value (c_str ep.name))
    ∷ (codes "server_url", string_value (c_str ep.server_url))
    ∷ (codes "stream_key", string_value (c_str ep.stream_key))
    ∷ (codes "encoder_backend", int_value (backend_code ep.encoder_backend))
    ∷ (codes "video_bitrate", int_value ep.video_bitrate_kbps)
    ∷ (codes "keyframe_interval", int_value ep.keyframe_interval_sec)
    ∷ (codes "audio_bitrate", int_value ep.audio_bitrate_kbps)
    ∷ (codes "orientation", int_value (orientation_code ep.orientation))
    ∷ (codes "canvas_uuid", string_value (c_str ep.canvas_uuid))
    ∷ (codes "canvas_name", string_value (c_str ep.canvas_name))
    ∷ (codes "key_provider", string_value (c_str ep.key_provider))
    ∷ (codes "streamlabs_title", string_value (c_str ep.streamlabs_title))
    ∷ (codes "streamlabs_category_id", string_value (c_str ep.streamlabs_category_id))
    ∷ (codes "streamlabs_category_name", string_value (c_str ep.streamlabs_category_name))
    ∷ (codes "enabled", bool_value ep.enabled)
    ∷ (codes "linked_to_main", bool_value ep.linked_to_main)
    ∷ (codes "sort_order", int_value ep.sort_order)
    ∷ []

unfoldable pub serialize : {D : Type 0} → ObsData D → Endpoint → D
serialize o ep = set_all o o.create (rows ep)

-- A key that the user set, or the default.
module _ {D : Type 0} (o : ObsData D) (d : D) where
  abbrev pub string_or : Str → Str → Str
  string_or default key = if o.has_user_value d key then o.get_string d key else default

  abbrev pub int_or : ℤ → Str → ℤ
  int_or default key = if o.has_user_value d key then to_int (o.get_int d key) else default

  abbrev pub bool_or : Bool → Str → Bool
  bool_or default key = if o.has_user_value d key then o.get_bool d key else default

  abbrev pub provider_or : Str → Str → Str
  provider_or default key =
      if o.has_user_value d key && str_eq (o.get_string d key) tiktok_provider
      then tiktok_provider
      else default

  abbrev pub backend_or : EncoderBackend → Str → EncoderBackend
  backend_or default key =
      if o.has_user_value d key then backend_of (to_int (o.get_int d key)) else default

  abbrev pub orientation_or : OutputOrientation → Str → OutputOrientation
  orientation_or default key =
      if o.has_user_value d key then orientation_of (to_int (o.get_int d key)) else default

abbrev pub clamp_video : ℤ → ℤ
clamp_video n =
    let raised = if ltb_ℤ n (pos 500) then pos 500 else n in
    if ltb_ℤ (pos 25000) raised then pos 25000 else raised

abbrev pub clamp_audio : ℤ → ℤ
clamp_audio n = if leb_ℤ n (pos 0) then pos 160 else n

-- The endpoint with every default of `make_default` but its id.
abbrev pub defaults : Endpoint
defaults = make_default [] (codes "New Endpoint")

abbrev pub parsed : {D : Type 0} → ObsData D → D → Endpoint
parsed o d = record {
  id = string_or o d [] (codes "id");
  name = string_or o d defaults.name (codes "name");
  server_url = string_or o d [] (codes "server_url");
  stream_key = string_or o d [] (codes "stream_key");
  encoder_backend = backend_or o d x264 (codes "encoder_backend");
  video_bitrate_kbps = clamp_video (int_or o d (pos 6000) (codes "video_bitrate"));
  keyframe_interval_sec = int_or o d (pos 2) (codes "keyframe_interval");
  audio_bitrate_kbps = clamp_audio (int_or o d (pos 160) (codes "audio_bitrate"));
  orientation = orientation_or o d source_match (codes "orientation");
  canvas_uuid = string_or o d [] (codes "canvas_uuid");
  canvas_name = string_or o d [] (codes "canvas_name");
  key_provider = provider_or o d [] (codes "key_provider");
  streamlabs_title = string_or o d [] (codes "streamlabs_title");
  streamlabs_category_id = string_or o d [] (codes "streamlabs_category_id");
  streamlabs_category_name = string_or o d [] (codes "streamlabs_category_name");
  enabled = bool_or o d true (codes "enabled");
  linked_to_main = bool_or o d true (codes "linked_to_main");
  sort_order = int_or o d (pos 0) (codes "sort_order");
}

-- `Endpoint{}`
abbrev pub blank : Endpoint
blank = record (make_default [] []) { id = [] }

-- `Endpoint::deserialize`, with `none` for a null pointer.
unfoldable pub deserialize : {D : Type 0} → ObsData D → Option D → Endpoint
deserialize o none = blank
deserialize o (some d) = parsed o d
