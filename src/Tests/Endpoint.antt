-- ===== src/Tests/Endpoint.antt =====
-- src/core/Endpoint.cpp: an endpoint that is stored and read back.
use stream_multicast.Common.{◌≡◌, refl, inr, [], ◌∷◌, some, arith, codes}
use stream_multicast.Common.Int.{pos}
use stream_multicast.Endpoint.{Endpoint, make_default}
use stream_multicast.Endpoint.Stored.{serialize, deserialize, tiktok_provider}
use stream_multicast.Endpoint.Roundtrip.{
  IsStorable, IsSane, deserialize-serialize, deserialize-IsSane,
}
use stream_multicast.ObsData.{string_value, int_value}
use stream_multicast.ObsData.Docs.{docs, docs-IsObsData, set_all}

abbrev pub tiktok : Endpoint
tiktok = record (make_default (codes "7f") (codes "Live")) {
  key_provider = tiktok_provider;
  stream_key = codes "k";
  sort_order = pos 3;
}

pub tiktok-IsStorable : IsStorable tiktok
tiktok-IsStorable = record {
  id = (refl, (refl, tt));
  name = (refl, (refl, (refl, (refl, tt))));
  server_url = tt;
  stream_key = (refl, tt);
  canvas_uuid = tt;
  canvas_name = tt;
  title = tt;
  category_id = tt;
  category_name = tt;
  provider = inr refl;
  backend = refl;
  backend_int = (omega arith, omega arith);
  orientation = refl;
  orientation_int = (omega arith, omega arith);
  keyframe_int = (omega arith, omega arith);
  sort_int = (omega arith, omega arith);
  audio_int = (omega arith, omega arith);
  audio_pos = omega arith;
  video_low = omega arith;
  video_high = omega arith;
}

deserialize-serialize_example : deserialize docs (some (serialize docs tiktok)) ≡ tiktok
deserialize-serialize_example = deserialize-serialize docs docs-IsObsData tiktok tiktok-IsStorable

deserialize-IsSane_example : IsSane (
    deserialize docs (
      some (
        set_all docs docs.create (
          (codes "video_bitrate", int_value (pos 90000))
          ∷ (codes "key_provider", string_value (codes "other"))
          ∷ []))))
deserialize-IsSane_example = deserialize-IsSane docs (
    some (
      set_all docs docs.create (
        (codes "video_bitrate", int_value (pos 90000))
        ∷ (codes "key_provider", string_value (codes "other"))
        ∷ [])))
