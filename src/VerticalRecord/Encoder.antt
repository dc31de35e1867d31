-- ===== src/VerticalRecord/Encoder.antt =====
-- src/core/VerticalRecord.cpp: the encoder of a recording. A set of type ids is a list of them.
use stream_multicast.Common.{
  ℕ, ◌≡◌, refl, ap, ◌∙◌, inl, inr, Bool, true, false, ◌&&◌, ◌||◌, not, List, [], ◌∷◌, Option, none,
  some, if◌then◌else◌, Str, codes, str_eq, arith, Bool-cases, any, keep,
}
use stream_multicast.Common.Int.{ℤ, eq_ℤ}
use stream_multicast.Recovery.{encode_error}

pub record RecordEncoderChoice : Type 0 where
  pub type_id : Str
  pub rate_control : Str
  pub quality_key : Str
  pub quality : ℕ

abbrev pub nvenc_hevc_ids : List Str
nvenc_hevc_ids = codes "obs_nvenc_hevc_tex" ∷ codes "jim_hevc_nvenc" ∷ []

abbrev pub nvenc_choice : Str → RecordEncoderChoice
nvenc_choice id = record {
  type_id = id;
  rate_control = codes "CQP";
  quality_key = codes "cqp";
  quality = 20;
}

abbrev pub x264_choice : RecordEncoderChoice
x264_choice = record {
  type_id = codes "obs_x264";
  rate_control = codes "CRF";
  quality_key = codes "crf";
  quality = 20;
}

-- `available.count(id)` and `available.erase(id)`
abbrev pub has_type : List Str → Str → Bool
has_type available id = any (str_eq id) available

abbrev pub erase_type : Str → List Str → List Str
erase_type id available = keep (λ t. not (str_eq id t)) available

abbrev pub choose_among : List Str → List Str → RecordEncoderChoice
choose_among [] available = x264_choice
choose_among (id ∷ ids) available =
    if has_type available id then nvenc_choice id else choose_among ids available

unfoldable pub choose_vertical_record_encoder : List Str → RecordEncoderChoice
choose_vertical_record_encoder available = choose_among nvenc_hevc_ids available

-- The loop of vertical_record_fallback_encoder: what is left, and whether the failed one was found.
abbrev pub erase_all : List Str → Str → List Str → Bool → List Str × Bool
erase_all [] failed available found = (available, found)
erase_all (id ∷ ids) failed available found =
    erase_all ids failed (erase_type id available) (found || str_eq failed id)

unfoldable pub vertical_record_fallback_encoder : Str → List Str → Option RecordEncoderChoice
vertical_record_fallback_encoder failed available =
    let (left, failed_was_nvenc) = erase_all nvenc_hevc_ids failed available false in
    if not failed_was_nvenc then none else some (choose_vertical_record_encoder left)

unfoldable pub vertical_record_runtime_fallback :
    ℤ → Str → Bool → List Str → Option RecordEncoderChoice
vertical_record_runtime_fallback stop_code session_type already_restarted available =
    if not (eq_ℤ stop_code encode_error) || already_restarted
    then none
    else vertical_record_fallback_encoder session_type available

erased : (id : Str) (available : List Str) → has_type (erase_type id available) id ≡ false
erased id [] = refl
erased id (t ∷ ts) = elim (Bool-cases (str_eq id t)) [
  | inl e ↦
      ap (λ b. any (str_eq id) (if not b then t ∷ erase_type id ts else erase_type id ts)) e
      ∙ erased id ts
  | inr e ↦
      ap (λ b. any (str_eq id) (if not b then t ∷ erase_type id ts else erase_type id ts)) e
      ∙ ap (λ b. b || has_type (erase_type id ts) id) e
      ∙ erased id ts
]

-- What is erased before stays erased.
stays_erased :
    (id other : Str) (available : List Str)
    → has_type available id ≡ false
    → has_type (erase_type other available) id ≡ false
stays_erased id other [] h = refl
stays_erased id other (t ∷ ts) h = ground (arith, h, stays_erased id other ts)

abbrev left_over : List Str → List Str
left_over available =
    erase_type (codes "jim_hevc_nvenc") (erase_type (codes "obs_nvenc_hevc_tex") available)

choose_left_over :
    (available : List Str) → choose_vertical_record_encoder (left_over available) ≡ x264_choice
unfolding choose_vertical_record_encoder
choose_left_over available =
    pick (has_type (left_over available) (codes "obs_nvenc_hevc_tex"))
      (has_type (left_over available) (codes "jim_hevc_nvenc"))
      (stays_erased (codes "obs_nvenc_hevc_tex") (codes "jim_hevc_nvenc")
        (erase_type (codes "obs_nvenc_hevc_tex") available)
        (erased (codes "obs_nvenc_hevc_tex") available))
      (erased (codes "jim_hevc_nvenc") (erase_type (codes "obs_nvenc_hevc_tex") available))
  where
    pick :
        (a b : Bool)
        → a ≡ false
        → b ≡ false
        → (if a
            then nvenc_choice (codes "obs_nvenc_hevc_tex")
            else if b
            then nvenc_choice (codes "jim_hevc_nvenc")
            else x264_choice)
          ≡ x264_choice
    pick a b e f = rw (e, f) refl

abbrev pub is_nvenc : Str → Bool
is_nvenc id = any (str_eq id) nvenc_hevc_ids

-- The encoder after a failed one is x264 if the failed one was NVENC, and none otherwise, whatever
-- encoders there are.
pub fallback_lem :
    (failed : Str) (available : List Str)
    → vertical_record_fallback_encoder failed available
      ≡ (if is_nvenc failed then some x264_choice else none)
unfolding vertical_record_fallback_encoder
fallback_lem failed available =
    pick (str_eq failed (codes "obs_nvenc_hevc_tex")) (str_eq failed (codes "jim_hevc_nvenc"))
  where
    pick :
        (a b : Bool)
        → (if not (a || b)
            then none
            else some (choose_vertical_record_encoder (left_over available)))
          ≡ (if a || (b || false) then some x264_choice else none)
    pick true b = ap some (choose_left_over available)
    pick false true = ap some (choose_left_over available)
    pick false false = refl

x264_is_not_nvenc : is_nvenc x264_choice.type_id ≡ false
unfolding str_eq
x264_is_not_nvenc = refl

-- A recording is restarted exactly after an encode error of an NVENC session that was not restarted,
-- with x264, whatever encoders there are; the session that it is restarted with is never restarted.
pub runtime_fallback_lem :
    (stop_code : ℤ) (session_type : Str) (already_restarted : Bool) (available later : List Str)
    → (vertical_record_runtime_fallback stop_code session_type already_restarted available ≡ (
        if eq_ℤ stop_code encode_error && (not already_restarted && is_nvenc session_type)
        then some x264_choice
        else none))
      × (vertical_record_runtime_fallback stop_code x264_choice.type_id already_restarted later
          ≡ none)
unfolding vertical_record_runtime_fallback
runtime_fallback_lem stop_code session_type already_restarted available later = (
  pick (eq_ℤ stop_code encode_error) already_restarted session_type available,
  pick (eq_ℤ stop_code encode_error) already_restarted x264_choice.type_id later
      ∙ never (eq_ℤ stop_code encode_error) already_restarted,
)
  where
    pick :
        (a b : Bool) (id : Str) (types : List Str)
        → (if not a || b then none else vertical_record_fallback_encoder id types)
          ≡ (if a && (not b && is_nvenc id) then some x264_choice else none)
    pick true true id types = refl
    pick true false id types = fallback_lem id types
    pick false b id types = refl

    never :
        (a b : Bool)
        → (if a && (not b && is_nvenc x264_choice.type_id) then some x264_choice else none) ≡ none
    never true true = refl
    never true false = ap (λ c. if c then some x264_choice else none) x264_is_not_nvenc
    never false b = refl
