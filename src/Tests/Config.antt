-- ===== src/Tests/Config.antt =====
-- src/core/ConfigStore.cpp on a disk with one file, and a run of the store.
use stream_multicast.Common.{◌≡◌, refl, true, false, [], ◌∷◌, Option, none, some, Str, codes, All}
use stream_multicast.Config.File.{
  Files, IsFiles, write_to_disk, read_from_disk, read-write, read-IsUsable, IsUsable,
}
use stream_multicast.Config.Saver.{
  World, Reach, schedule_save, poll, write_taken, flush, loads, then_does, schedules, polls,
  writes_taken, destroys, flushes, load, constructed,
}
use stream_multicast.Config.Saver.Durable.{file_is_latest}
use stream_multicast.ObsData.Docs.{Doc, docs, docs-IsObsData}
use stream_multicast.ObsData.{is_some}
use stream_multicast.Tests.Endpoint.{tiktok, tiktok-IsStorable}

abbrev disk : Files Doc (Option Doc)
disk = record { exists = λ f p. is_some f; save = λ f p d. (some d, true); read = λ f p. f }

disk-IsFiles : IsFiles disk
disk-IsFiles = record { exists-save = λ f p d ok. refl; read-save = λ f p d ok. refl }

abbrev path : Str
path = codes "/c.json"

abbrev written : Option Doc
written = (write_to_disk docs disk none (tiktok ∷ []) path).0

saved : (write_to_disk docs disk none (tiktok ∷ []) path).1 ≡ true
unfolding write_to_disk
saved = refl

read-write_example : read_from_disk docs disk written path ≡ some (tiktok ∷ [], false)
read-write_example =
    read-write docs docs-IsObsData disk disk-IsFiles none (tiktok ∷ []) path refl
      ((tiktok-IsStorable, refl), tt) saved

read-IsUsable_example : All IsUsable (tiktok ∷ [])
read-IsUsable_example = read-IsUsable docs disk written path read-write_example

-- A change is scheduled, the thread takes it and its write fails; a save then succeeds, another
-- change is scheduled and is written by the final flush.
abbrev loaded : World
loaded = record {
  store = (load (constructed []) (some ([], false)) false).0;
  latest = [];
  failed = false;
}

abbrev changed : World
changed = record loaded {
  store = schedule_save loaded.store (tiktok ∷ []) 100;
  latest = tiktok ∷ [];
}

abbrev took_it : World
took_it = record changed { store = poll changed.store 700 }

abbrev wrote : World
wrote = record took_it { store = write_taken took_it.store (tiktok ∷ []) 1 true; failed = false }

abbrev again : World
again = record wrote { store = schedule_save wrote.store [] 800; latest = [] }

abbrev leaving : World
leaving = record again { store = poll (record again.store { running = false }) 900 }

abbrev gone : World
gone = record leaving { store = flush leaving.store true; failed = false }

wrote-Reach : Reach wrote
unfolding load schedule_save poll write_taken
wrote-Reach =
    then_does
      (then_does
        (then_does (loads [] false false [] (λ e. refl)) (schedules (tiktok ∷ []) 100 refl))
        (polls 700 refl))
      (writes_taken {endpoints = tiktok ∷ []} {gen = 1} true refl)

gone-Reach : Reach gone
unfolding load schedule_save poll write_taken flush
gone-Reach =
    then_does
      (then_does (then_does (then_does wrote-Reach (schedules [] 800 refl)) destroys)
        (polls 900 refl))
      (flushes true refl)

file_is_latest_example : gone.store.file ≡ []
unfolding load schedule_save poll write_taken flush
file_is_latest_example = file_is_latest gone-Reach refl refl
