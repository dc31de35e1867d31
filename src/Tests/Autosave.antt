-- ===== src/Tests/Autosave.antt =====
-- src/core/AutosavePolicy on concrete times (after tests/test_autosave_policy.cpp).
use stream_multicast.Common.{◌≡◌, refl, ◌+◌, true, false, List, [], ◌∷◌, arith, if◌then◌else◌}
use stream_multicast.Common.Int.{pos, ◌+ℤ◌, leb_ℤ, min_ℤ}
use stream_multicast.Autosave.{
  AutosavePolicy, delay_ms_default, max_wait_ms_default, init, request, due, deadline_ms,
}
use stream_multicast.Autosave.Bursts.{
  requests, burst_due, Call, requests_at, polls_at, blocks, saves, bursts, cancelled, calls,
  saves_account,
}

abbrev policy : AutosavePolicy
policy = record {
  delay = delay_ms_default;
  max_wait = max_wait_ms_default;
  blocked = false;
  pending = false;
  first = pos 0;
  deadline = pos 0;
}

policy_lem : init delay_ms_default max_wait_ms_default ≡ policy
unfolding init
policy_lem = refl

-- Edits at 1000 and 2500 are saved at 4500.
second_edit_extends : deadline_ms (requests policy (pos 1000 ∷ pos 2500 ∷ [])) ≡ pos 4500
unfolding deadline_ms requests request ◌+ℤ◌
second_edit_extends = refl

burst_due_example :
    (due (requests policy (pos 1000 ∷ pos 2500 ∷ [])) (pos 4500)).1
    ≡ leb_ℤ (min_ℤ (pos 2500 +ℤ pos 2000) (pos 1000 +ℤ pos 10000)) (pos 4500)
burst_due_example = burst_due policy (pos 1000) (pos 2500 ∷ []) (pos 4500) refl refl (omega arith)

abbrev day : List Call
day = requests_at (pos 0) ∷ polls_at (pos 2000) ∷ requests_at (pos 3000) ∷ blocks true ∷ []

saves_account_example :
    saves policy day + cancelled policy day + (if (calls policy day).pending then 1 else 0)
    ≡ bursts policy day + (if false then 1 else 0)
saves_account_example = saves_account policy day
