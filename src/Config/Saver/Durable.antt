-- ===== src/Config/Saver/Durable.antt =====
-- src/core/ConfigStore.cpp: no change is lost on the way to the file.
use stream_multicast.Common.{
  ℕ, ◌≤◌, ◌≡◌, refl, Bool, true, false, ◌&&◌, ◌||◌, not, List, [], some, arith, ◌==◌,
}
use stream_multicast.Endpoint.{Endpoint}
use stream_multicast.Config.Saver.{
  Saver, asleep, flushing, ended, took, constructed, load, save, save_if_dirty, schedule_save, poll,
  write_taken, flush, World, Step, schedules, saves, saves_if_dirty, polls, writes_taken, flushes,
  destroys, Reach, loads, then_does,
}

abbrev pub taken_gen : Saver → ℕ → ℕ
taken_gen (took l g) d = g
taken_gen asleep d = d
taken_gen flushing d = d
taken_gen ended d = d

abbrev pub taken_list : Saver → List Endpoint → List Endpoint
taken_list (took l g) d = l
taken_list asleep d = d
taken_list flushing d = d
taken_list ended d = d

abbrev pub is_busy : Saver → Bool
is_busy (took l g) = true
is_busy asleep = false
is_busy flushing = false
is_busy ended = false

abbrev pub is_ended : Saver → Bool
is_ended ended = true
is_ended (took l g) = false
is_ended asleep = false
is_ended flushing = false

abbrev pub is_leaving : Saver → Bool
is_leaving ended = true
is_leaving flushing = true
is_leaving (took l g) = false
is_leaving asleep = false

pub record Durable (w : World) : Type 0 where
  -- a written generation is one that was counted, and the last one only if the file is up to date
  pub counted : w.store.written_gen ≤ w.store.change_gen
  pub clean : w.store.written_gen ≡ w.store.change_gen → w.store.file ≡ w.latest
  -- the pending list is the latest
  pub pending :
      w.store.pending ≡ true
      → (w.store.pending_endpoints ≡ w.latest) × (w.store.pending_gen ≡ w.store.change_gen)
  -- so is the one that the thread took, unless a later one was scheduled
  pub taken :
      is_busy w.store.saver ≡ true
      → (taken_gen w.store.saver 0 ≤ w.store.change_gen)
        × (taken_gen w.store.saver 0 ≡ w.store.change_gen → taken_list w.store.saver [] ≡ w.latest)
  -- a change that the thread did not take is pending
  pub late :
      is_busy w.store.saver ≡ true
      → (w.failed || w.store.pending || taken_gen w.store.saver 0 == w.store.change_gen) ≡ true
  -- a change is on its way, or written, or a write has failed
  pub underway :
      ((w.failed || w.store.pending)
        || is_busy w.store.saver
        || w.store.written_gen == w.store.change_gen)
      ≡ true
  pub leaving : is_leaving w.store.saver ≡ true → w.store.running ≡ false
  pub over :
      is_ended w.store.saver ≡ true → (w.failed || w.store.written_gen == w.store.change_gen) ≡ true

pub Step-Durable : {w v : World} → Durable w → Step w v → Durable v
unfolding schedule_save save save_if_dirty poll write_taken flush
Step-Durable {w} h (schedules eps now r) = ground arith
Step-Durable {w} h (saves b r) = ground arith
Step-Durable {w} h (saves_if_dirty b r) = ground arith
Step-Durable {w} h (polls now e) = ground arith
Step-Durable {w} h (writes_taken b e) = ground arith
Step-Durable {w} h (flushes b e) = ground arith
Step-Durable {w} h destroys = ground arith

load-Durable :
    (file : List Endpoint) (write_back written : Bool) (read : List Endpoint)
    → (write_back ≡ false → read ≡ file)
    → Durable (record {
      store = (load (constructed file) (some (read, write_back)) written).0;
      latest = read;
      failed = write_back && not written;
    })
unfolding load
load-Durable file true true read e = ground arith
load-Durable file true false read e = ground arith
load-Durable file false b read e = ground (arith, e refl)

Reach-Durable : {w : World} → Reach w → Durable w
Reach-Durable (loads file a b read e) = load-Durable file a b read e
Reach-Durable (then_does r s) = Step-Durable (Reach-Durable r) s

-- When the thread has ended and no write has failed, the file holds the last list that was loaded
-- or scheduled, whatever the order of the calls and of the thread's steps.
pub file_is_latest :
    {w : World} → Reach w → w.store.saver ≡ ended → w.failed ≡ false → w.store.file ≡ w.latest
file_is_latest {w} r e f = let h = Reach-Durable r in ground (arith, h, e, f)

-- save_if_dirty() skips the write only when the file is up to date, failed writes included.
pub skipped_save_lem :
    {w : World}
    → Reach w
    → w.store.change_gen == w.store.written_gen ≡ true
    → (w.store.file ≡ w.latest) × (save_if_dirty w.store w.latest false ≡ (w.store, true))
unfolding save_if_dirty
skipped_save_lem {w} r e = let h = Reach-Durable r in (h.clean (ground (arith, e)), rw e refl)
