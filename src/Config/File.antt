-- ===== src/Config/File.antt =====
-- src/core/ConfigStore.cpp: write_to_disk(), read_from_disk() and load(), over a file system that is
-- a parameter.
use stream_multicast.Common.{
  ◌≡◌, refl, sym, ap, subst, ◌∙◌, Bool, true, false, ◌||◌, not, List, [], ◌∷◌, Option, none, some,
  arith, if◌then◌else◌, Str, codes, str_eq, is_empty, map, All, Bool-cases, inl, inr,
}
use stream_multicast.Common.Int.{ℤ, pos, ltb_ℤ, leb_ℤ}
use stream_multicast.ObsData.{Value, int_value, array_value, ObsData, IsObsData}
use stream_multicast.ObsData.Docs.{set_all, held_after, view-set_all}
use stream_multicast.Endpoint.{Endpoint}
use stream_multicast.Endpoint.Stored.{to_int, serialize, deserialize}
use stream_multicast.Endpoint.Roundtrip.{
  IsStorable, deserialize-serialize, IsSane, deserialize-IsSane,
}
use stream_multicast.Canvas.{migrate_legacy_orientation, migrate_all, migrate_config}

-- The JSON files of libobs and the files of the system: `save` is obs_data_save_json_safe, and says
-- whether it wrote, `read` is obs_data_create_from_json_file.
pub record Files (D F : Type 0) : Type 0 where
  pub exists : F → Str → Bool
  pub save : F → Str → D → F × Bool
  pub read : F → Str → Option D

-- A document that was written is read back.
pub record IsFiles {D F : Type 0} (fs : Files D F) : Type 0 where
  pub exists-save :
      (f : F) (p : Str) (d : D) → (fs.save f p d).1 ≡ true → fs.exists (fs.save f p d).0 p ≡ true
  pub read-save :
      (f : F) (p : Str) (d : D) → (fs.save f p d).1 ≡ true → fs.read (fs.save f p d).0 p ≡ some d

abbrev pub schema_version : ℤ
schema_version = pos 2

abbrev pub root_rows : {D : Type 0} → ObsData D → List Endpoint → List (Str × Value D)
root_rows o endpoints =
    (codes "schema_version", int_value schema_version)
    ∷ (codes "endpoints", array_value (map (serialize o) endpoints))
    ∷ []

abbrev pub root_of : {D : Type 0} → ObsData D → List Endpoint → D
root_of o endpoints = set_all o o.create (root_rows o endpoints)

unfoldable pub write_to_disk :
    {D F : Type 0} → ObsData D → Files D F → F → List Endpoint → Str → F × Bool
write_to_disk o fs f endpoints path = fs.save f path (root_of o endpoints)

-- The loop over the items: an endpoint without an id is dropped.
abbrev pub read_items : {D : Type 0} → ObsData D → List D → List Endpoint
read_items o [] = []
read_items o (d ∷ ds) =
    let ep = deserialize o (some d) in
    let rest = read_items o ds in if is_empty ep.id then rest else ep ∷ rest

-- `migrate`, the endpoints and whether they must be written back.
abbrev pub migrate_from : ℤ → List Endpoint → List Endpoint × Bool
migrate_from version endpoints =
    let (migrated, result) = migrate_config version schema_version endpoints in
    (migrated, result.needs_save)

abbrev pub read_array :
    {D : Type 0} → ObsData D → ℤ → Option (List D) → Option (List Endpoint × Bool)
read_array o version none = none
read_array o version (some items) =
    let endpoints = read_items o items in
    some
      (if ltb_ℤ version schema_version then migrate_from version endpoints else (endpoints, false))

abbrev pub read_root : {D : Type 0} → ObsData D → Option D → Option (List Endpoint × Bool)
read_root o none = none
read_root o (some root) =
    read_array o (to_int (o.get_int root (codes "schema_version")))
      (o.get_array root (codes "endpoints"))

-- `none` where it returns false; else the endpoints and `needs_write_back`.
unfoldable pub read_from_disk :
    {D F : Type 0} → ObsData D → Files D F → F → Str → Option (List Endpoint × Bool)
read_from_disk o fs f path =
    if is_empty path || not (fs.exists f path) then none else read_root o (fs.read f path)

-- An endpoint with an id that the file can hold.
abbrev pub IsKept : Endpoint → Type 0
IsKept ep = IsStorable ep × (is_empty ep.id ≡ false)

read_items-map :
    {D : Type 0} (o : ObsData D) (h : IsObsData o) (endpoints : List Endpoint)
    → All IsKept endpoints
    → read_items o (map (serialize o) endpoints) ≡ endpoints
read_items-map o h [] k = refl
read_items-map o h (ep ∷ eps) k =
    ap (λ x. if is_empty x.id then rest else x ∷ rest) (deserialize-serialize o h ep k.0.0)
    ∙ ap (λ b. if b then rest else ep ∷ rest) k.0.1
    ∙ ap (◌∷◌ ep) (read_items-map o h eps k.1)
  where
    rest : List Endpoint
    rest = read_items o (map (serialize o) eps)

read_array-kept :
    {D : Type 0} (o : ObsData D) (h : IsObsData o) (endpoints : List Endpoint) (version : ℤ)
    → version ≡ schema_version
    → All IsKept endpoints
    → read_array o version (some (map (serialize o) endpoints)) ≡ some (endpoints, false)
read_array-kept o h endpoints version v k = rw (v, read_items-map o h endpoints k) refl

-- A list of storable endpoints that was written is read back as it was, in its order, and with no
-- need to write it again.
pub read-write :
    {D F : Type 0} (o : ObsData D) (h : IsObsData o) (fs : Files D F) (g : IsFiles fs) (f : F)
    (endpoints : List Endpoint) (path : Str)
    → is_empty path ≡ false
    → All IsKept endpoints
    → (write_to_disk o fs f endpoints path).1 ≡ true
    → read_from_disk o fs (write_to_disk o fs f endpoints path).0 path ≡ some (endpoints, false)
unfolding write_to_disk read_from_disk str_eq to_int
read-write {D} o h fs g f endpoints path p k ok =
    rw (p, g.exists-save f path root ok, g.read-save f path root ok)
      (rw
        (h.get_array-some root (codes "endpoints") (map (serialize o) endpoints)
          (held (codes "endpoints")))
        (read_array-kept o h endpoints _
          (ap to_int (
            h.get_int-some root (codes "schema_version") schema_version
              (held (codes "schema_version"))))
          k))
  where
    root : D
    root = root_of o endpoints

    held : (key : Str) → h.view root key ≡ held_after (root_rows o endpoints) key none
    held key =
        view-set_all o h (root_rows o endpoints) o.create key
        ∙ ap (held_after (root_rows o endpoints) key) (h.view-create key)

abbrev pub IsUsable : Endpoint → Type 0
IsUsable ep = IsSane ep × (is_empty ep.id ≡ false)

read_items-IsUsable : {D : Type 0} (o : ObsData D) (ds : List D) → All IsUsable (read_items o ds)
read_items-IsUsable o [] = tt
read_items-IsUsable o (d ∷ ds) = elim (Bool-cases (is_empty (deserialize o (some d)).id)) [
  | inl e ↦ subst (All IsUsable) (sym (ap pick e)) (read_items-IsUsable o ds)
  | inr e ↦
      subst (All IsUsable) (sym (ap pick e))
        ((deserialize-IsSane o (some d), e), read_items-IsUsable o ds)
]
  where
    pick : Bool → List Endpoint
    pick b = if b then read_items o ds else deserialize o (some d) ∷ read_items o ds

migrate_legacy-IsUsable : (ep : Endpoint) → IsUsable ep → IsUsable (migrate_legacy_orientation ep).0
unfolding migrate_legacy_orientation
migrate_legacy-IsUsable ep u = ground (arith, u.0, u.1)

migrate_all-IsUsable : (eps : List Endpoint) → All IsUsable eps → All IsUsable (migrate_all eps).0
unfolding migrate_all
migrate_all-IsUsable [] u = tt
migrate_all-IsUsable (ep ∷ eps) u = (migrate_legacy-IsUsable ep u.0, migrate_all-IsUsable eps u.1)

migrate_config-IsUsable :
    (a b : ℤ) (eps : List Endpoint) → All IsUsable eps → All IsUsable (migrate_config a b eps).0
unfolding migrate_config
migrate_config-IsUsable a b eps u = elim (Bool-cases (leb_ℤ b a)) [
  | inl e ↦ rw e u
  | inr e ↦ elim (Bool-cases (ltb_ℤ a (pos 2))) [
    | inl l ↦ rw (e, l) (migrate_all-IsUsable eps u)
    | inr l ↦ rw (e, l) u
  ]
]

-- What an outcome of the reading holds.
abbrev AllRead : Option (List Endpoint × Bool) → Type 0
AllRead none = Unit
AllRead (some r) = All IsUsable r.0

read_array-IsUsable :
    {D : Type 0} (o : ObsData D) (version : ℤ) (items : Option (List D))
    → AllRead (read_array o version items)
read_array-IsUsable o version none = tt
read_array-IsUsable o version (some items) = elim (Bool-cases (ltb_ℤ version schema_version)) [
  | inl e ↦ rw e (
      migrate_config-IsUsable version schema_version (read_items o items)
        (read_items-IsUsable o items))
  | inr e ↦ rw e (read_items-IsUsable o items)
]

read_root-IsUsable : {D : Type 0} (o : ObsData D) (root : Option D) → AllRead (read_root o root)
read_root-IsUsable o none = tt
read_root-IsUsable o (some root) =
    read_array-IsUsable o (to_int (o.get_int root (codes "schema_version")))
      (o.get_array root (codes "endpoints"))

-- Whatever the file holds, and whatever the libraries return, each endpoint that is read has an id,
-- bitrates in range and a known provider, also after a migration.
pub read-IsUsable :
    {D F : Type 0} (o : ObsData D) (fs : Files D F) (f : F) (path : Str) {endpoints : List Endpoint}
    {write_back : Bool}
    → read_from_disk o fs f path ≡ some (endpoints, write_back)
    → All IsUsable endpoints
unfolding read_from_disk
read-IsUsable o fs f path e = subst AllRead e outcome
  where
    outcome :
        AllRead
          (if is_empty path || not (fs.exists f path) then none else read_root o (fs.read f path))
    outcome = elim (Bool-cases (is_empty path || not (fs.exists f path))) [
      | inl b ↦ rw b tt
      | inr b ↦ rw b (read_root-IsUsable o (fs.read f path))
    ]
