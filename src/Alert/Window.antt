-- ===== src/Alert/Window.antt =====
-- src/core/AlertPolicy: the window of the dropped frames.
use stream_multicast.Common.{
  ℕ, ◌+◌, ◌-◌, ◌^◌, ◌≤◌, ◌<◌, ◌≡◌, refl, ap₂, inl, inr, Bool, false, ◌&&◌, List, [], ◌∷◌, ◌++◌,
  arith, ltb, leb, Bool-cases, All,
}
use stream_multicast.Alert.{
  AlertThresholds, AlertInput, Sample, last_sample, went_back, trim_window_from, sample_of,
  push_sample, sub_u64, drops_between, window_drops,
}

-- The counters of the samples never fall, and are numbers of 64 bits.
abbrev pub RisingFrom : Sample → List Sample → Type 0
RisingFrom a [] = (a.dropped < 2 ^ 64) × (a.frames < 2 ^ 64)
RisingFrom a (b ∷ rest) = (a.dropped ≤ b.dropped) × (a.frames ≤ b.frames) × RisingFrom b rest

abbrev pub Rising : List Sample → Type 0
Rising [] = Unit {0}
Rising (a ∷ rest) = RisingFrom a rest

abbrev pub IsWord : AlertInput → Type 0
IsWord input = (input.dropped_total < 2 ^ 64) × (input.frames_total < 2 ^ 64)

-- The windows after a run of ticks that are sampled.
abbrev pub windows : AlertThresholds → List AlertInput → List Sample → List Sample
windows th [] window = window
windows th (input ∷ inputs) window = windows th inputs (push_sample th input window)

-- The drop test on exact differences.
abbrev pub exact_drops : AlertThresholds → Sample → Sample → Bool
exact_drops th front back =
    let dd = back.dropped - front.dropped in
    let df = back.frames - front.frames in
    ltb 0 df && leb th.drop_min_frames dd && th.ratio_reached dd df

sub_exact : (a b : ℕ) → b ≤ a → a < 2 ^ 64 → sub_u64 a b ≡ a - b
sub_exact a b le lt = omega arith

Rising-last :
    (a : Sample) (rest : List Sample)
    → RisingFrom a rest
    → (a.dropped ≤ (last_sample a rest).dropped)
      × (a.frames ≤ (last_sample a rest).frames)
      × ((last_sample a rest).dropped < 2 ^ 64)
      × ((last_sample a rest).frames < 2 ^ 64)
Rising-last a [] r = ground (arith, r)
Rising-last a (b ∷ rest) r = ground (arith, r, Rising-last b rest r.2)

append-Rising :
    (a : Sample) (rest : List Sample) (s : Sample)
    → RisingFrom a rest
    → (last_sample a rest).dropped ≤ s.dropped
    → (last_sample a rest).frames ≤ s.frames
    → (s.dropped < 2 ^ 64) × (s.frames < 2 ^ 64)
    → RisingFrom a (rest ++ (s ∷ []))
append-Rising a [] s r d f w = (d, f, w)
append-Rising a (b ∷ rest) s r d f w = (r.0, r.1, append-Rising b rest s r.2 d f w)

trim-Rising :
    (drop_window now : ℕ) (a : Sample) (rest : List Sample)
    → RisingFrom a rest
    → Rising (trim_window_from drop_window now a rest)
trim-Rising n now a [] r = r
trim-Rising n now a (b ∷ rest) r = elim (Bool-cases (leb (b.t + n) now)) [
  | inl e ↦ rw e (trim-Rising n now b rest r.2)
  | inr e ↦ rw e r
]

push-Rising :
    (th : AlertThresholds) (input : AlertInput) (window : List Sample)
    → IsWord input
    → Rising window
    → Rising (push_sample th input window)
unfolding push_sample
push-Rising th input [] w r = w
push-Rising th input (a ∷ rest) w r = elim (Bool-cases (went_back (a ∷ rest) input)) [
  | inl e ↦ rw e w
  | inr e ↦ rw e (
      trim-Rising th.drop_window_ms input.now_ms a (rest ++ (sample_of input ∷ []))
        (append-Rising a rest (sample_of input) r (ground (arith, e)) (ground (arith, e)) w))
]

pub windows-Rising :
    (th : AlertThresholds) (inputs : List AlertInput) (window : List Sample)
    → All IsWord inputs
    → Rising window
    → Rising (windows th inputs window)
windows-Rising th [] window w r = r
windows-Rising th (input ∷ inputs) window w r =
    windows-Rising th inputs (push_sample th input window) w.1 (push-Rising th input window w.0 r)

abbrev pub exact_window_drops : AlertThresholds → List Sample → Bool
exact_window_drops th [] = false
exact_window_drops th (a ∷ []) = false
exact_window_drops th (a ∷ b ∷ rest) = exact_drops th a (last_sample b rest)

drops_exact :
    (th : AlertThresholds) (front back : Sample)
    → front.dropped ≤ back.dropped
    → front.frames ≤ back.frames
    → back.dropped < 2 ^ 64
    → back.frames < 2 ^ 64
    → drops_between th front back ≡ exact_drops th front back
drops_exact th front back d f wd wf =
    ap₂ (λ dd df. ltb 0 df && leb th.drop_min_frames dd && th.ratio_reached dd df)
      (sub_exact back.dropped front.dropped d wd) (sub_exact back.frames front.frames f wf)

Rising-exact :
    (th : AlertThresholds) (window : List Sample)
    → Rising window
    → window_drops th window ≡ exact_window_drops th window
unfolding window_drops
Rising-exact th [] r = refl
Rising-exact th (a ∷ []) r = refl
Rising-exact th (a ∷ b ∷ rest) r =
    let last = Rising-last b rest r.2 in
    drops_exact th a (last_sample b rest) (omega (arith, r.0, last.0)) (omega (arith, r.1, last.1))
      last.2 last.3

-- From an empty window, over any run of sampled ticks with 64-bit counters, restarts of the
-- counters included, the counters never fall within the window, and the drop test is the one on
-- exact differences: no difference of uint64_t wraps around.
pub window_never_wraps :
    (th : AlertThresholds) (inputs : List AlertInput)
    → All IsWord inputs
    → Rising (windows th inputs [])
      × (window_drops th (windows th inputs []) ≡ exact_window_drops th (windows th inputs []))
window_never_wraps th inputs w =
    let rising = windows-Rising th inputs [] w tt in
    (rising, Rising-exact th (windows th inputs []) rising)
