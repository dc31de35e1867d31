-- ===== src/Autosave.antt =====
-- src/core/AutosavePolicy.hpp and AutosavePolicy.cpp: the debounce rule of the scene collection
-- autosave. Times are `int64_t` milliseconds; their sums are taken to be in range.
pub mod Bursts
use stream_multicast.Common.{ℕ, Bool, true, false, ◌||◌, not, List, [], ◌∷◌, ◌&&◌, if◌then◌else◌}
use stream_multicast.Common.Int.{ℤ, pos, negsuc, ◌+ℤ◌, ltb_ℤ, min_ℤ}

abbrev pub delay_ms_default : ℤ
delay_ms_default = pos 2000

abbrev pub max_wait_ms_default : ℤ
max_wait_ms_default = pos 10000

pub record AutosavePolicy : Type 0 where
  pub delay : ℤ
  pub max_wait : ℤ
  pub blocked : Bool
  pub pending : Bool
  pub first : ℤ
  pub deadline : ℤ

-- the constructor
unfoldable pub init : ℤ → ℤ → AutosavePolicy
init delay_ms max_wait_ms = record {
  delay = delay_ms;
  max_wait = max_wait_ms;
  blocked = false;
  pending = false;
  first = pos 0;
  deadline = pos 0;
}

unfoldable pub request : AutosavePolicy → ℤ → AutosavePolicy
request p now =
    if p.blocked
    then p
    else if not p.pending
    then record p { pending = true; first = now; deadline = now +ℤ p.delay }
    else record p { deadline = min_ℤ (now +ℤ p.delay) (p.first +ℤ p.max_wait) }

unfoldable pub due : AutosavePolicy → ℤ → AutosavePolicy × Bool
due p now =
    if not p.pending || ltb_ℤ now p.deadline
    then (p, false)
    else (record p { pending = false }, true)

unfoldable pub set_blocked : AutosavePolicy → Bool → AutosavePolicy
set_blocked p b = let q = record p { blocked = b } in if b then record q { pending = false } else q

-- Deadline of the pending save; -1 when nothing is pending.
unfoldable pub deadline_ms : AutosavePolicy → ℤ
deadline_ms p = if p.pending then p.deadline else negsuc 0
