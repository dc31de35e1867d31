-- ===== src/Endpoint/Roundtrip.antt =====
-- src/core/Endpoint.cpp: what deserialize() returns, of its own files and of any other.
use stream_multicast.Common.{
  ℕ, suc, ◌+◌, ◌^◌, ◌≤◌, ◌<◌, ◌≡◌, ◌⊎◌, refl, ap, ◌∙◌, inl, inr, Bool, true, false, [], ◌∷◌, Option,
  none, some, arith, if◌then◌else◌, Str, codes, str_eq, ◌==◌, All,
}
use stream_multicast.Common.Int.{ℤ, pos, negsuc, pos_part, neg_part, ◌≤ℤ◌}
use stream_multicast.ObsData.{
  Value, string_value, int_value, bool_value, ObsData, IsObsData, is_some, c_str,
}
use stream_multicast.ObsData.Docs.{set_all, held_after, view-set_all}
use stream_multicast.Endpoint.{
  EncoderBackend, x264, OutputOrientation, source_match, Endpoint, backend_code, orientation_code,
}
use stream_multicast.Endpoint.Stored.{
  to_int, signed, backend_of, orientation_of, tiktok_provider, rows, serialize, string_or, int_or,
  bool_or, provider_or, backend_or, orientation_or, clamp_video, clamp_audio, deserialize,
}

-- A text without a zero byte, and an integer that fits `int`.
abbrev pub IsText : Str → Type 0
IsText s = All (λ c. c == 0 ≡ false) s

abbrev pub IsInt : ℤ → Type 0
IsInt z = (pos_part z < 2 ^ 31) × (neg_part z ≤ 2 ^ 31)

-- An endpoint that the file can hold: texts without zero bytes, integers within their ranges,
-- enumerators or values beside them, and a provider that is known.
pub record IsStorable (ep : Endpoint) : Type 0 where
  pub id : IsText ep.id
  pub name : IsText ep.name
  pub server_url : IsText ep.server_url
  pub stream_key : IsText ep.stream_key
  pub canvas_uuid : IsText ep.canvas_uuid
  pub canvas_name : IsText ep.canvas_name
  pub title : IsText ep.streamlabs_title
  pub category_id : IsText ep.streamlabs_category_id
  pub category_name : IsText ep.streamlabs_category_name
  pub provider : (ep.key_provider ≡ []) ⊎ (ep.key_provider ≡ tiktok_provider)
  pub backend : backend_of (backend_code ep.encoder_backend) ≡ ep.encoder_backend
  pub backend_int : IsInt (backend_code ep.encoder_backend)
  pub orientation : orientation_of (orientation_code ep.orientation) ≡ ep.orientation
  pub orientation_int : IsInt (orientation_code ep.orientation)
  pub keyframe_int : IsInt ep.keyframe_interval_sec
  pub sort_int : IsInt ep.sort_order
  pub audio_int : IsInt ep.audio_bitrate_kbps
  pub audio_pos : pos 1 ≤ℤ ep.audio_bitrate_kbps
  pub video_low : pos 500 ≤ℤ ep.video_bitrate_kbps
  pub video_high : ep.video_bitrate_kbps ≤ℤ pos 25000

pub c_str_text : (s : Str) → IsText s → c_str s ≡ s
c_str_text [] h = refl
c_str_text (c ∷ s) h = ground (arith, h.0, c_str_text s h.1)

signed_pos : (r n : ℕ) → r ≡ n → n < 2 ^ 31 → signed r ≡ pos n
signed_pos r n e h = ground (arith, e, h)

signed_neg : (r n : ℕ) → r + suc n ≡ 2 ^ 32 → suc n ≤ 2 ^ 31 → signed r ≡ negsuc n
signed_neg r n e h = ground (arith, e, h)

to_int-same : (z : ℤ) → IsInt z → to_int z ≡ z
unfolding to_int
to_int-same (pos n) h = signed_pos _ n (omega (arith, h.0)) h.0
to_int-same (negsuc n) h = signed_neg _ n (omega (arith, h.1)) h.1

-- What each reader gets from a document that holds its key.
module _ {D : Type 0} (o : ObsData D) (h : IsObsData o) (d : D) where
  seen : (k : Str) (v : Value D) → h.view d k ≡ some v → o.has_user_value d k ≡ true
  seen k v e = h.has-view d k ∙ ap is_some e

  pub string_or_held :
      (default k s : Str)
      → h.view d k ≡ some (string_value (c_str s))
      → IsText s
      → string_or o d default k ≡ s
  string_or_held default k s e t =
      rw (seen k (string_value (c_str s)) e) (h.get_string-some d k (c_str s) e ∙ c_str_text s t)

  pub int_or_held :
      (default : ℤ) (k : Str) (n : ℤ)
      → h.view d k ≡ some (int_value n)
      → IsInt n
      → int_or o d default k ≡ n
  int_or_held default k n e t =
      rw (seen k (int_value n) e) (ap to_int (h.get_int-some d k n e) ∙ to_int-same n t)

  pub bool_or_held :
      (default : Bool) (k : Str) (b : Bool)
      → h.view d k ≡ some (bool_value b)
      → bool_or o d default k ≡ b
  bool_or_held default k b e = rw (seen k (bool_value b) e) (h.get_bool-some d k b e)

  backend_or_held :
      (default : EncoderBackend) (k : Str) (b : EncoderBackend)
      → h.view d k ≡ some (int_value (backend_code b))
      → IsInt (backend_code b)
      → backend_of (backend_code b) ≡ b
      → backend_or o d default k ≡ b
  backend_or_held default k b e t c = rw (seen k (int_value (backend_code b)) e) (
      ap (λ n. backend_of (to_int n)) (h.get_int-some d k (backend_code b) e)
      ∙ ap backend_of (to_int-same (backend_code b) t)
      ∙ c)

  orientation_or_held :
      (default : OutputOrientation) (k : Str) (b : OutputOrientation)
      → h.view d k ≡ some (int_value (orientation_code b))
      → IsInt (orientation_code b)
      → orientation_of (orientation_code b) ≡ b
      → orientation_or o d default k ≡ b
  orientation_or_held default k b e t c = rw (seen k (int_value (orientation_code b)) e) (
      ap (λ n. orientation_of (to_int n)) (h.get_int-some d k (orientation_code b) e)
      ∙ ap orientation_of (to_int-same (orientation_code b) t)
      ∙ c)

  provider_or_held :
      (k s : Str)
      → h.view d k ≡ some (string_value (c_str s))
      → (s ≡ []) ⊎ (s ≡ tiktok_provider)
      → provider_or o d [] k ≡ s
  unfolding str_eq
  provider_or_held k s e (inl n) =
      rw (seen k (string_value (c_str s)) e, h.get_string-some d k (c_str s) e, n) refl
  provider_or_held k s e (inr n) =
      rw (seen k (string_value (c_str s)) e, h.get_string-some d k (c_str s) e, n) refl

video_range : (n : ℤ) → pos 500 ≤ℤ n → n ≤ℤ pos 25000 → IsInt n
video_range n l u = ground (arith, l, u)

clamp_video_same : (n : ℤ) → pos 500 ≤ℤ n → n ≤ℤ pos 25000 → clamp_video n ≡ n
clamp_video_same n l u = ground (arith, l, u)

clamp_audio_same : (n : ℤ) → pos 1 ≤ℤ n → clamp_audio n ≡ n
clamp_audio_same n l = ground (arith, l)

-- An endpoint whose texts have no zero byte, whose provider is empty or streamlabs_tiktok and whose
-- numbers are in range comes back as it was, in every field, whatever library keeps the laws of
-- obs_data.
pub deserialize-serialize :
    {D : Type 0} (o : ObsData D) (h : IsObsData o) (ep : Endpoint)
    → IsStorable ep
    → deserialize o (some (serialize o ep)) ≡ ep
unfolding serialize deserialize str_eq
deserialize-serialize {D} o h ep s = λ i. record {
  id = string_or_held o h d [] (codes "id") ep.id (held (codes "id")) s.id i;
  name =
      string_or_held o h d (codes "New Endpoint") (codes "name") ep.name (held (codes "name"))
        s.name i;
  server_url =
      string_or_held o h d [] (codes "server_url") ep.server_url (held (codes "server_url"))
        s.server_url i;
  stream_key =
      string_or_held o h d [] (codes "stream_key") ep.stream_key (held (codes "stream_key"))
        s.stream_key i;
  encoder_backend =
      backend_or_held o h d x264 (codes "encoder_backend") ep.encoder_backend
        (held (codes "encoder_backend")) s.backend_int s.backend i;
  video_bitrate_kbps =
      (ap clamp_video (
            int_or_held o h d (pos 6000) (codes "video_bitrate") ep.video_bitrate_kbps
              (held (codes "video_bitrate")) video_int)
          ∙ clamp_video_same ep.video_bitrate_kbps s.video_low s.video_high)
        i;
  keyframe_interval_sec =
      int_or_held o h d (pos 2) (codes "keyframe_interval") ep.keyframe_interval_sec
        (held (codes "keyframe_interval")) s.keyframe_int i;
  audio_bitrate_kbps =
      (ap clamp_audio (
            int_or_held o h d (pos 160) (codes "audio_bitrate") ep.audio_bitrate_kbps
              (held (codes "audio_bitrate")) s.audio_int)
          ∙ clamp_audio_same ep.audio_bitrate_kbps s.audio_pos)
        i;
  orientation =
      orientation_or_held o h d source_match (codes "orientation") ep.orientation
        (held (codes "orientation")) s.orientation_int s.orientation i;
  canvas_uuid =
      string_or_held o h d [] (codes "canvas_uuid") ep.canvas_uuid (held (codes "canvas_uuid"))
        s.canvas_uuid i;
  canvas_name =
      string_or_held o h d [] (codes "canvas_name") ep.canvas_name (held (codes "canvas_name"))
        s.canvas_name i;
  key_provider =
      provider_or_held o h d (codes "key_provider") ep.key_provider (held (codes "key_provider"))
        s.provider i;
  streamlabs_title =
      string_or_held o h d [] (codes "streamlabs_title") ep.streamlabs_title
        (held (codes "streamlabs_title")) s.title i;
  streamlabs_category_id =
      string_or_held o h d [] (codes "streamlabs_category_id") ep.streamlabs_category_id
        (held (codes "streamlabs_category_id")) s.category_id i;
  streamlabs_category_name =
      string_or_held o h d [] (codes "streamlabs_category_name") ep.streamlabs_category_name
        (held (codes "streamlabs_category_name")) s.category_name i;
  enabled = bool_or_held o h d true (codes "enabled") ep.enabled (held (codes "enabled")) i;
  linked_to_main =
      bool_or_held o h d true (codes "linked_to_main") ep.linked_to_main
        (held (codes "linked_to_main")) i;
  sort_order =
      int_or_held o h d (pos 0) (codes "sort_order") ep.sort_order (held (codes "sort_order"))
        s.sort_int i;
}
  where
    d : D
    d = set_all o o.create (rows ep)

    held : (k : Str) → h.view d k ≡ held_after (rows ep) k none
    held k = view-set_all o h (rows ep) o.create k ∙ ap (held_after (rows ep) k) (h.view-create k)

    video_int : IsInt ep.video_bitrate_kbps
    video_int = video_range ep.video_bitrate_kbps s.video_low s.video_high

-- An endpoint in range.
pub record IsSane (ep : Endpoint) : Type 0 where
  pub video_low : pos 500 ≤ℤ ep.video_bitrate_kbps
  pub video_high : ep.video_bitrate_kbps ≤ℤ pos 25000
  pub audio_pos : pos 1 ≤ℤ ep.audio_bitrate_kbps
  pub provider : (ep.key_provider ≡ []) ⊎ (ep.key_provider ≡ tiktok_provider)

clamp_video_range : (n : ℤ) → (pos 500 ≤ℤ clamp_video n) × (clamp_video n ≤ℤ pos 25000)
clamp_video_range n = ground arith

clamp_audio_range : (n : ℤ) → pos 1 ≤ℤ clamp_audio n
clamp_audio_range n = ground arith

either : (b : Bool) (s : Str) → ((if b then s else []) ≡ []) ⊎ ((if b then s else []) ≡ s)
either true s = inr refl
either false s = inl refl

-- Whatever the file holds, and whatever the library returns, the endpoint is in range: its video
-- bitrate is from 500 to 25000, its audio bitrate positive and its provider empty or known.
pub deserialize-IsSane :
    {D : Type 0} (o : ObsData D) (file : Option D) → IsSane (deserialize o file)
unfolding deserialize
deserialize-IsSane o none = record {
  video_low = omega arith;
  video_high = omega arith;
  audio_pos = omega arith;
  provider = inl refl;
}
deserialize-IsSane o (some d) = record {
  video_low = (clamp_video_range (int_or o d (pos 6000) (codes "video_bitrate"))).0;
  video_high = (clamp_video_range (int_or o d (pos 6000) (codes "video_bitrate"))).1;
  audio_pos = clamp_audio_range (int_or o d (pos 160) (codes "audio_bitrate"));
  provider = either _ tiktok_provider;
}
