-- ===== src/Lib.antt =====
-- StreamMulticast, an OBS Studio plugin that streams to several RTMP endpoints at once.
--
-- The program keeps a list of endpoints (src/core/Endpoint.hpp) and one OutputController for each
-- (src/pipeline/OutputController.cpp), which drives an output of libobs through start, stop and
-- reconnect. Pure rules of src/core decide what the controllers and the user interface do: which
-- canvas an endpoint streams, which endpoints start with the main stream, when an encoder falls back
-- to x264, when an alert is raised and when the scenes are saved. Old controllers and sessions are
-- torn down on the worker of src/pipeline/ControllerReaper.cpp.
--
-- Files:
--
-- Common holds the shared helpers: tests on numbers and texts, lists, integers and the operations
-- of std::string that the program uses. A std::string is the list of its bytes.
--
-- ObsData is the interface of libobs's obs_data that the program uses, a record of operations with a
-- record of the laws it relies on; ObsData/Docs is an instance that meets them.
--
-- Endpoint is src/core/Endpoint.hpp with Endpoint::make_default; the random id is an argument.
-- Endpoint/Stored is serialize and deserialize of src/core/Endpoint.cpp, Endpoint/Roundtrip what they
-- do to each other. A cast of a long long to int is to_int, modulo 2 ^ 32.
--
-- Config is src/core/ConfigStore.cpp: Config/File the JSON file, over a file system that is a
-- parameter, Config/Saver the store with its generations and the thread that saves, as steps, and
-- Config/Saver/Durable what the file holds at the end.
--
-- Registry is src/core/EndpointRegistry.cpp. A controller is a number, and what an operation does to
-- controllers, observers and the store is the list of its effects; Registry/Counts counts the
-- endpoints of an id, Registry/Valid has the operations as steps, Registry/Effects,
-- Registry/Handover and Registry/Destroy are about the life of the controllers.
--
-- Recovery is src/core/EncoderRecovery.cpp, one function for each of its functions, over the record
-- EncoderRecoveryState. Recovery/Session describes the histories of a session, Recovery/Start the
-- refused first start. A stop code is an integer with the value in libobs.
--
-- Autosave is src/core/AutosavePolicy.cpp, the debounce of the saves; Autosave/Bursts follows bursts
-- of edits. Times are integers of any size, so int64_t does not overflow.
--
-- Target is src/core/EndpointValidation.cpp and src/core/LinkedStart.cpp: the comparison of stream
-- targets and the plan of the linked start. Target/Port, Target/Url and Target/Ports are about the
-- normal form of a URL, Target/Duplicates, Target/LinkedStart and Target/Coverage about the plan.
--
-- Canvas is src/core/CanvasResolve.cpp, src/core/CanvasMigration.cpp and
-- src/core/OwnedCanvasPolicy.cpp; products of uint64_t keep their wrap-around.
--
-- Controller is src/pipeline/OutputController.cpp. A method is cut into sections, what runs under one
-- lock of m_mutex or between two of them; Controller/Session has the sections of start, stop,
-- shutdown_blocking and the signal callbacks, Controller/Reconnect those of reconnect_thread_func.
-- Controller/World interleaves them as steps of a relation: the UI thread, the signal thread of
-- libobs, any number of reconnect threads, and the reaper's worker, which runs its jobs in order. The
-- handles of libobs are numbers, and its answers are arguments, so that each step is possible for
-- every answer. Controller/World/Hold, Core, Threads, Control and Invariant carry the invariant, and
-- Controller/World/Safe what follows from it. Controller/Settle is about start and stop,
-- Controller/Backoff about the schedule and the number of attempts. The key fetch of a provider
-- session, which a compile flag enables, is left out.
--
-- Alert is src/core/AlertPolicy.cpp. Times are natural numbers, the time -1 that stands for no time
-- is none, and the counters are numbers with the wrap-around of uint64_t in their differences. The
-- two tests on doubles are functions in the thresholds. Alert/Edges is about the transitions,
-- Alert/Window about the window of the dropped frames, Alert/Hold about runs of ticks, Alert/Sounds
-- about the sounds and Alert/Status about the reports.
--
-- SceneLink is src/core/SceneLink.cpp: which vertical scene follows the main scene. SceneLink/Rename is
-- about a rename, SceneLink/Stored has the settings in the data of the scene collection. A std::map is
-- the list of its entries by ascending keys, with the operations in Common/Assoc.
--
-- Reaper is src/pipeline/ControllerReaper.cpp as steps of its callers and its worker, and
-- Reaper/Drain what becomes of the jobs. A job is a number; what it does is the world's.
--
-- VerticalRecord is src/core/VerticalRecord.cpp: VerticalRecord/Folder the folder of the recordings and
-- the test of drive C, VerticalRecord/Names the names of the files, VerticalRecord/Encoder the encoder
-- and the one that follows it, VerticalRecord/Settings the settings file. The folder of each that has
-- children carries the proofs. <cctype> is that of the "C" locale.
--
-- VerticalTransition is src/core/VerticalTransition.cpp, the transition of the vertical canvas:
-- VerticalTransition/Stinger is about its stingers, VerticalTransition/Stored has its settings.
--
-- ItemActions is the part of src/core/ItemActions.cpp and src/core/LockPolicy.cpp that is no geometry:
-- ItemActions/Names the names of new items, ItemActions/Copy the plan of a copied transform, with its
-- scenes in ItemActions/Copy/Collect and its targets in ItemActions/Copy/Targets, ItemActions/Lock the
-- ids that an edit may change.
--
-- Tests has runs on concrete inputs. Two functions take fuel: the digits of a
-- number in VerticalRecord/Names, one more than the number, and the search for a free name in
-- ItemActions/Names, more than there are names; both are proved to be enough. Every other recursion is
-- structural.
--
-- Not modelled are the user interface, the adapters that only call libobs, Qt or the network, the
-- geometry on floats, and the files of the alert settings.
pub mod Alert
pub mod Autosave
pub mod Canvas
pub mod Common
pub mod Config
pub mod Controller
pub mod Endpoint
pub mod ItemActions
pub mod ObsData
pub mod Reaper
pub mod Recovery
pub mod Registry
pub mod SceneLink
pub mod Target
mod Tests
pub mod VerticalRecord
pub mod VerticalTransition
