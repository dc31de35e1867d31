-- ===== src/Config/Saver.antt =====
-- src/core/ConfigStore.cpp: load(), save(), save_if_dirty(), schedule_save() and the thread that
-- saves, as steps. The file is what reading it would yield; whether a write succeeds is an argument,
-- and a write without a config path fails. Generations count without an end.
pub mod Durable
use stream_multicast.Common.{
  ℕ, suc, ◌+◌, ◌≤◌, ◌≡◌, Bool, true, false, ◌&&◌, ◌||◌, not, List, [], Option, none, some,
  if◌then◌else◌, ◌==◌, leb,
}
use stream_multicast.Endpoint.{Endpoint}

abbrev pub debounce_ms : ℕ
debounce_ms = 500

-- Where the thread stands in save_thread_func(): asleep, between the two locks with the list and the
-- generation that it took, at the final flush, or ended.
pub data Saver : Type 0 where
  asleep flushing ended : Saver
  took : List Endpoint → ℕ → Saver

pub record ConfigStore : Type 0 where
  pub endpoints : List Endpoint
  pub pending : Bool
  pub pending_endpoints : List Endpoint
  pub last_request : ℕ
  pub pending_gen : ℕ
  pub change_gen : ℕ
  pub written_gen : ℕ
  pub running : Bool
  pub saver : Saver
  pub file : List Endpoint

-- The store after the constructor.
abbrev pub constructed : List Endpoint → ConfigStore
constructed file = record {
  endpoints = [];
  pending = false;
  pending_endpoints = [];
  last_request = 0;
  pending_gen = 0;
  change_gen = 0;
  written_gen = 0;
  running = true;
  saver = asleep;
  file = file;
}

-- load(), on what read_from_disk() returned: `none`, or the endpoints with whether they must be
-- written back.
unfoldable pub load : ConfigStore → Option (List Endpoint × Bool) → Bool → ConfigStore × Bool
load s none written = (record s { endpoints = [] }, false)
load s (some (loaded, write_back)) written =
    let s' = record s { endpoints = loaded } in
    if not write_back
    then (s', true)
    else if written
    then (record s' { file = loaded }, true)
    else (record s' { change_gen = suc s.change_gen }, true)

unfoldable pub save : ConfigStore → List Endpoint → Bool → ConfigStore × Bool
save s endpoints written =
    if written
    then (record s { endpoints = endpoints; file = endpoints; written_gen = s.change_gen }, true)
    else (record s { endpoints = endpoints }, false)

unfoldable pub save_if_dirty : ConfigStore → List Endpoint → Bool → ConfigStore × Bool
save_if_dirty s endpoints written =
    if s.change_gen == s.written_gen then (s, true) else save s endpoints written

unfoldable pub schedule_save : ConfigStore → List Endpoint → ℕ → ConfigStore
schedule_save s endpoints now = record s {
  pending = true;
  pending_endpoints = endpoints;
  last_request = now;
  pending_gen = s.change_gen + 1;
  change_gen = s.change_gen + 1;
}

-- The thread wakes: it leaves the loop, or takes the pending list when the debounce is over. The
-- test of `running` and the body of the loop are one step.
unfoldable pub poll : ConfigStore → ℕ → ConfigStore
poll s now =
    if not s.running
    then record s { saver = flushing }
    else if s.pending && leb (s.last_request + debounce_ms) now
    then record s { pending = false; saver = took s.pending_endpoints s.pending_gen }
    else s

unfoldable pub write_taken : ConfigStore → List Endpoint → ℕ → Bool → ConfigStore
write_taken s endpoints gen written =
    if written
    then record s { endpoints = endpoints; file = endpoints; written_gen = gen; saver = asleep }
    else record s { endpoints = endpoints; saver = asleep }

unfoldable pub flush : ConfigStore → Bool → ConfigStore
flush s written =
    if s.pending && written
    then record s { file = s.pending_endpoints; written_gen = s.pending_gen; saver = ended }
    else record s { saver = ended }

-- A store with the list that the registry has: the last one loaded or scheduled, which is the one
-- that it passes to save(); and whether a write has failed.
pub record World : Type 0 where
  pub store : ConfigStore
  pub latest : List Endpoint
  pub failed : Bool

pub data Step (w : World) : World → Type 0 where
  schedules :
      (endpoints : List Endpoint) (now : ℕ)
      → w.store.running ≡ true
      → Step w (record w { store = schedule_save w.store endpoints now; latest = endpoints })
  saves :
      (written : Bool)
      → w.store.running ≡ true
      → Step w
          (record w { store = (save w.store w.latest written).0; failed = w.failed || not written })
  saves_if_dirty :
      (written : Bool)
      → w.store.running ≡ true
      → Step w (record w {
        store = (save_if_dirty w.store w.latest written).0;
        failed = w.failed || not (save_if_dirty w.store w.latest written).1;
      })
  polls : (now : ℕ) → w.store.saver ≡ asleep → Step w (record w { store = poll w.store now })
  writes_taken :
      {endpoints : List Endpoint} {gen : ℕ} (written : Bool)
      → w.store.saver ≡ took endpoints gen
      → Step w (record w {
        store = write_taken w.store endpoints gen written;
        failed = w.failed || not written;
      })
  flushes :
      (written : Bool)
      → w.store.saver ≡ flushing
      → Step w (record w {
        store = flush w.store written;
        failed = w.failed || (w.store.pending && not written);
      })
  -- the destructor, which then joins the thread
  destroys : Step w (record w { store = record w.store { running = false } })

-- The store is loaded before anyone uses it.
pub data Reach : World → Type 0 where
  loads :
      (file : List Endpoint) (write_back written : Bool) (read : List Endpoint)
      → (write_back ≡ false → read ≡ file)
      → Reach (record {
        store = (load (constructed file) (some (read, write_back)) written).0;
        latest = read;
        failed = write_back && not written;
      })
  then_does : {w v : World} → Reach w → Step w v → Reach v
