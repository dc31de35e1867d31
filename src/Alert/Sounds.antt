-- ===== src/Alert/Sounds.antt =====
-- src/core/AlertPolicy: the gap between two sounds.
use stream_multicast.Common.{
  ℕ, ◌+◌, ◌≤◌, ◌≡◌, inl, inr, false, List, [], ◌∷◌, Option, none, some, arith, if◌then◌else◌, ltb,
  Bool-cases,
}
use stream_multicast.Alert.{sound_min_gap_ms, alert_sound_allowed}

-- The times of the sounds that are played.
abbrev pub sounds : List ℕ → Option ℕ → List ℕ
sounds [] last = []
sounds (now ∷ times) last =
    let rest = sounds times (alert_sound_allowed now last).1 in
    if (alert_sound_allowed now last).0 then now ∷ rest else rest

-- Each time is at least the gap behind the one before.
abbrev pub Spaced : Option ℕ → List ℕ → Type 0
Spaced last [] = Unit {0}
Spaced none (t ∷ times) = Spaced (some t) times
Spaced (some last) (t ∷ times) = (last + sound_min_gap_ms ≤ t) × Spaced (some t) times

-- Whatever the times of the alerts, two sounds are at least 30 seconds apart.
pub sounds-Spaced : (times : List ℕ) (last : Option ℕ) → Spaced last (sounds times last)
unfolding alert_sound_allowed
sounds-Spaced [] last = tt
sounds-Spaced (t ∷ times) none = sounds-Spaced times (some t)
sounds-Spaced (t ∷ times) (some last) = elim (Bool-cases (ltb t (last + sound_min_gap_ms))) [
  | inl e ↦ rw e (sounds-Spaced times (some last))
  | inr e ↦ rw e (gap e, sounds-Spaced times (some t))
]
  where
    gap : ltb t (last + sound_min_gap_ms) ≡ false → last + sound_min_gap_ms ≤ t
    gap e = ground (arith, e)
