-- ===== src/Registry.antt =====
-- src/core/EndpointRegistry: the endpoints, their controllers and the observers. A controller is a
-- number, the map of the controllers a function of the ids; what an operation does to controllers,
-- observers and the store is the list of its effects, in order. std::sort is a parameter.
pub mod Counts
pub mod Valid
pub mod Effects
pub mod Handover
pub mod Destroy
use stream_multicast.Common.{
  ℕ, suc, ◌+◌, ◌≤◌, ◌≡◌, Bool, true, false, not, List, [], ◌∷◌, ◌++◌, Option, none, some,
  if◌then◌else◌, Str, str_eq, ◌==◌, map, keep, length, find_if,
}
use stream_multicast.Common.Int.{ℤ, pos, ◌+ℤ◌, max_ℤ, leb_ℤ}
use stream_multicast.Endpoint.{Endpoint}

pub data ChangeKind : Type 0 where
  added updated removed : ChangeKind

-- What an operation does outside the registry; a controller stands with the id of its endpoint.
pub data Effect : Type 0 where
  made started stopped enqueued : Str → ℕ → Effect
  notified : ℕ → ChangeKind → Endpoint → Effect
  saved : List Endpoint → Effect

pub record Registry : Type 0 where
  pub endpoints : List Endpoint
  pub controllers : Str → Option ℕ
  pub next_controller : ℕ
  pub observers : List ℕ
  pub next_token : ℕ

abbrev pub has_id : Str → Endpoint → Bool
has_id id ep = str_eq ep.id id

-- `find`
unfoldable pub find : Registry → Str → Option Endpoint
find r id = find_if (has_id id) r.endpoints

-- `notify_observers` and `persist`
abbrev pub notify : Registry → ChangeKind → Endpoint → List Effect
notify r kind ep = map (λ token. notified token kind ep) r.observers

abbrev pub set_controller : (Str → Option ℕ) → Str → Option ℕ → Str → Option ℕ
set_controller controllers id c j = if str_eq id j then c else controllers j

abbrev pub max_order : List Endpoint → ℤ → ℤ
max_order [] highest = highest
max_order (ep ∷ eps) highest = max_order eps (max_ℤ highest ep.sort_order)

unfoldable pub add : Registry → Endpoint → Registry × List Effect
add r ep =
    let placed = record ep { sort_order = max_order r.endpoints (pos 0) +ℤ pos 1 } in
    let r' = record r {
      endpoints = r.endpoints ++ (placed ∷ []);
      controllers = set_controller r.controllers ep.id (some r.next_controller);
      next_controller = suc r.next_controller;
    } in
    (
      r',
      (made ep.id r.next_controller ∷ []) ++ (notify r added placed ++ (saved r'.endpoints ∷ [])),
    )

-- `*it = ep` at the first endpoint with the id.
unfoldable pub replace : Endpoint → List Endpoint → List Endpoint
replace ep [] = []
replace ep (e ∷ es) = let rest = replace ep es in if has_id ep.id e then ep ∷ es else e ∷ rest

unfoldable pub erase_first : Str → List Endpoint → List Endpoint
erase_first id [] = []
erase_first id (e ∷ es) = let rest = erase_first id es in if has_id id e then es else e ∷ rest

-- `old_ctrl->stop()` and the hand-over to the reaper.
abbrev pub retire : Str → Option ℕ → List Effect
retire id none = []
retire id (some c) = stopped id c ∷ enqueued id c ∷ []

-- The new controller of an endpoint that had one, in place of it.
abbrev pub recreate : Registry → Str → Option ℕ → Registry × List Effect
recreate r id none = (r, [])
recreate r id (some c) = (
  record r {
    controllers = set_controller r.controllers id (some r.next_controller);
    next_controller = suc r.next_controller;
  },
  made id r.next_controller ∷ [],
)

abbrev pub restart : Bool → Str → Option ℕ → List Effect
restart true id (some c) = started id c ∷ []
restart true id none = []
restart false id c = []

abbrev pub had_controller : Option ℕ → Bool → Bool
had_controller none running = false
had_controller (some c) running = running

-- `update`; `running` is what is_running() of the old controller returns.
abbrev pub update_found : Registry → Endpoint → Bool → Option Endpoint → Registry × List Effect
update_found r ep running none = (r, [])
update_found r ep running (some old) =
    let old_ctrl = r.controllers ep.id in
    let (r', creation) =
      recreate (record r { endpoints = replace ep r.endpoints }) ep.id old_ctrl in
    (
      r',
      creation
          ++ (retire ep.id old_ctrl
              ++ (restart (had_controller old_ctrl running) ep.id (r'.controllers ep.id)
                  ++ (notify r updated ep ++ (saved r'.endpoints ∷ [])))),
    )

unfoldable pub update_endpoint : Registry → Endpoint → Bool → Registry × List Effect
update_endpoint r ep running = update_found r ep running (find_if (has_id ep.id) r.endpoints)

abbrev pub remove_found : Registry → Str → Option Endpoint → Registry × List Effect
remove_found r id none = (r, [])
remove_found r id (some old) =
    let r' = record r {
      endpoints = erase_first id r.endpoints;
      controllers = set_controller r.controllers id none;
    } in
    (r', retire id (r.controllers id) ++ (notify r removed old ++ (saved r'.endpoints ∷ [])))

unfoldable pub remove : Registry → Str → Registry × List Effect
remove r id = remove_found r id (find_if (has_id id) r.endpoints)

-- The loop of `reorder`: the endpoints and those that were updated.
abbrev pub place_found : Str → ℕ → List Endpoint → Option Endpoint → List Endpoint × List Endpoint
place_found id i eps none = (eps, [])
place_found id i eps (some ep) =
    let ep' = record ep { sort_order = pos i } in (replace ep' eps, ep' ∷ [])

unfoldable pub place_all : List Str → ℕ → List Endpoint → List Endpoint × List Endpoint
place_all [] i eps = (eps, [])
place_all (id ∷ ids) i eps =
    let (eps', changed) = place_found id i eps (find_if (has_id id) eps) in
    let (placed, later) = place_all ids (suc i) eps' in (placed, changed ++ later)

abbrev pub notify_all : Registry → List Endpoint → List Effect
notify_all r [] = []
notify_all r (ep ∷ eps) = notify r updated ep ++ notify_all r eps

unfoldable pub reorder :
    (List Endpoint → List Endpoint) → Registry → List Str → Registry × List Effect
reorder sort r ids =
    let (placed, changed) = place_all ids 0 r.endpoints in
    let r' = record r { endpoints = sort placed } in
    (r', notify_all r changed ++ (saved r'.endpoints ∷ []))

unfoldable pub register_observer : Registry → Registry × ℕ
register_observer r = (
  record r { observers = r.observers ++ (r.next_token ∷ []); next_token = suc r.next_token },
  r.next_token,
)

unfoldable pub unregister_observer : Registry → ℕ → Registry
unregister_observer r token = record r { observers = keep (λ t. not (t == token)) r.observers }

-- The constructor, on the endpoints of the store, which it sorts.
abbrev pub make_all : List Endpoint → Registry → Registry
make_all [] r = r
make_all (ep ∷ eps) r = make_all eps (record r {
  endpoints = r.endpoints ++ (ep ∷ []);
  controllers = set_controller r.controllers ep.id (some r.next_controller);
  next_controller = suc r.next_controller;
})

abbrev empty_registry : Registry
empty_registry = record {
  endpoints = [];
  controllers = λ id. none;
  next_controller = 0;
  observers = [];
  next_token = 1;
}

unfoldable pub construct : (List Endpoint → List Endpoint) → List Endpoint → Registry
construct sort loaded = make_all (sort loaded) empty_registry

-- The destructor; `ids` is the order in which the map of the controllers is walked.
unfoldable pub destroy : List Str → Registry → Registry × List Effect
destroy [] r = (r, [])
destroy (id ∷ ids) r =
    let (r', later) =
      destroy ids (record r { controllers = set_controller r.controllers id none }) in
    (r', retire id (r.controllers id) ++ later)
