-- ===== src/SceneLink/Stored.antt =====
-- src/core/SceneLink.cpp: the settings in the data of the scene collection. A null pointer in place of
-- the document is left out.
use stream_multicast.Common.{
  ◌≡◌, refl, sym, ap, subst, ◌∙◌, inl, inr, Bool, true, false, List, [], ◌∷◌, Option, none, some,
  if◌then◌else◌, Str, codes, str_eq, str_eq→eq, is_empty, Memᴰ, arith, Bool-cases, Option-cases,
}
use stream_multicast.Common.Assoc.{Assoc, lookup, store, store-lookup, other-store}
use stream_multicast.ObsData.{
  Value, string_value, bool_value, obj_value, ObsData, IsObsData, c_str, count_name, is_some,
}
use stream_multicast.ObsData.Docs.{set_all, held_after, view-set_all}
use stream_multicast.Endpoint.Stored.{bool_or}
use stream_multicast.Endpoint.Roundtrip.{IsText, c_str_text, bool_or_held}
use stream_multicast.SceneLink.{SceneLinkSettings}

abbrev pub entry_rows : {D : Type 0} → Assoc Str → List (Str × Value D)
entry_rows [] = []
entry_rows ((k, v) ∷ entries) = (c_str k, string_value (c_str v)) ∷ entry_rows entries

abbrev pub link_rows : {D : Type 0} → ObsData D → SceneLinkSettings → List (Str × Value D)
link_rows o s =
    (codes "streammulticast_vertical_link_enabled", bool_value s.enabled)
    ∷ (
      codes "streammulticast_vertical_links",
      obj_value (set_all o o.create (entry_rows s.explicit_map)),
    )
    ∷ []

unfoldable pub scene_link_save : {D : Type 0} → ObsData D → D → SceneLinkSettings → D
scene_link_save o doc s = set_all o doc (link_rows o s)

-- The loop over the items of the stored map.
abbrev pub load_entries : List (Str × Str) → Assoc Str → Assoc Str
load_entries [] m = m
load_entries ((k, v) ∷ items) m = load_entries items (if is_empty k then m else store k v m)

abbrev pub load_links : {D : Type 0} → ObsData D → Option D → Assoc Str
load_links o none = []
load_links o (some links) = load_entries (o.items links) []

unfoldable pub scene_link_load : {D : Type 0} → ObsData D → D → SceneLinkSettings
scene_link_load o doc = record {
  enabled = bool_or o doc true (codes "streammulticast_vertical_link_enabled");
  explicit_map = load_links o (o.get_obj doc (codes "streammulticast_vertical_links"));
}

-- The entries of a map, as the file can hold them: keys once and not empty, no zero bytes.
abbrev pub IsStorableMap : Assoc Str → Type 0
IsStorableMap [] = Unit
IsStorableMap ((k, v) ∷ entries) =
    (is_empty k ≡ false) × IsText k × IsText v × (lookup k entries ≡ none) × IsStorableMap entries

unlisted :
    (items : List (Str × Str)) (m : Assoc Str) (j : Str)
    → count_name j items ≡ 0
    → lookup j (load_entries items m) ≡ lookup j m
unlisted [] m j e = refl
unlisted ((k, v) ∷ items) m j e = elim (Bool-cases (str_eq k j)) [
  | inl h ↦ ground (arith, e, h)
  | inr h ↦
      unlisted items (if is_empty k then m else store k v m) j (ground (arith, e, h))
      ∙ pick (is_empty k) h
]
  where
    pick : (b : Bool) → str_eq k j ≡ false → lookup j (if b then m else store k v m) ≡ lookup j m
    pick true h = refl
    pick false h = other-store k j v m h

listed :
    (items : List (Str × Str)) (m : Assoc Str) (j s : Str)
    → is_empty j ≡ false
    → count_name j items ≡ 1
    → ((x : Str) → Memᴰ (j, x) items → x ≡ s)
    → lookup j (load_entries items m) ≡ some s
listed [] m j s n e h = ground (arith, e)
listed ((k, v) ∷ items) m j s n e h = elim (Bool-cases (str_eq k j)) [
  | inl q ↦
      let same = str_eq→eq k j q in
      unlisted items (if is_empty k then m else store k v m) j (ground (arith, e, q))
      ∙ ap (λ b. lookup j (if b then m else store k v m)) (ap (λ x. is_empty x) same ∙ n)
      ∙ ap (λ x. lookup j (store x v m)) same
      ∙ store-lookup j v m
      ∙ ap some (h v (Memᴰ.head (ap (λ x. (x, v)) (sym same))))
  | inr q ↦
      listed items (if is_empty k then m else store k v m) j s n (ground (arith, e, q))
        (λ x i. h x (Memᴰ.tail i))
]

-- What a key of the stored map holds.
abbrev as_held : {D : Type 0} → Option Str → Option (Value D) → Option (Value D)
as_held none before = before
as_held (some v) before = some (string_value v)

entries_held :
    {D : Type 0} (entries : Assoc Str) (j : Str) (before : Option (Value D))
    → IsStorableMap entries
    → held_after (entry_rows entries) j before ≡ as_held (lookup j entries) before
unfolding lookup
entries_held [] j before h = refl
entries_held {D} ((k, v) ∷ entries) j before h =
    ap
      (λ x.
        held_after (entry_rows entries) j
          (if str_eq x j then some (string_value (c_str v)) else before))
      (c_str_text k h.1)
    ∙ elim (Bool-cases (str_eq k j)) [
      | inl e ↦ rw e (
          entries_held entries j (some (string_value (c_str v))) h.4
          ∙ ap (λ o. as_held o (some (string_value (c_str v))))
              (subst (λ x. lookup x entries ≡ none) (str_eq→eq k j e) h.3)
          ∙ ap (λ x. some (string_value x)) (c_str_text v h.2))
      | inr e ↦ rw e (entries_held entries j before h.4)
    ]

key_there :
    (entries : Assoc Str) (j v : Str)
    → IsStorableMap entries
    → lookup j entries ≡ some v
    → is_empty j ≡ false
unfolding lookup
key_there [] j v h e = ground (arith, e)
key_there ((k, w) ∷ entries) j v h e = elim (Bool-cases (str_eq k j)) [
  | inl q ↦ ap (λ x. is_empty x) (sym (str_eq→eq k j q)) ∙ h.0
  | inr q ↦ key_there entries j v h.4 (sym (ap (λ b. if b then some w else lookup j entries) q) ∙ e)
]

abbrev no_entries : Assoc Str
no_entries = []

nothing : (j : Str) → lookup j no_entries ≡ none
unfolding lookup
nothing j = refl

-- Saved settings are read back: whether the link is on, and for each main scene its entry.
pub scene_link_load-save :
    {D : Type 0} (o : ObsData D) (h : IsObsData o) (doc : D) (s : SceneLinkSettings)
    → IsStorableMap s.explicit_map
    → (let s' = scene_link_load o (scene_link_save o doc s) in
        (s'.enabled ≡ s.enabled)
        × ((main : Str) → lookup main s'.explicit_map ≡ lookup main s.explicit_map))
unfolding scene_link_save scene_link_load str_eq
scene_link_load-save {D} o h doc s k = (
  bool_or_held o h saved true (codes "streammulticast_vertical_link_enabled") s.enabled
      (held (codes "streammulticast_vertical_link_enabled")),
  λ main.
      ap (λ d. lookup main (load_links o d))
        (h.get_obj-some saved (codes "streammulticast_vertical_links") links
          (held (codes "streammulticast_vertical_links")))
      ∙ found main,
)
  where
    links : D
    links = set_all o o.create (entry_rows s.explicit_map)

    saved : D
    saved = set_all o doc (link_rows o s)

    held : (key : Str) → h.view saved key ≡ held_after (link_rows o s) key (h.view doc key)
    held key = view-set_all o h (link_rows o s) doc key

    seen : (main : Str) → h.view links main ≡ as_held (lookup main s.explicit_map) none
    seen main =
        view-set_all o h (entry_rows s.explicit_map) o.create main
        ∙ ap (held_after (entry_rows s.explicit_map) main) (h.view-create main)
        ∙ entries_held s.explicit_map main none k

    found :
        (main : Str) → lookup main (load_entries (o.items links) []) ≡ lookup main s.explicit_map
    found main = elim (Option-cases (lookup main s.explicit_map)) [
      | inl e ↦
          let v = seen main ∙ ap (λ x. as_held x none) e in
          unlisted (o.items links) [] main
            (h.items-once links main ∙ ap (λ x. if is_some x then 1 else 0) v)
          ∙ nothing main
          ∙ sym e
      | inr (w, e) ↦
          let v = seen main ∙ ap (λ x. as_held x none) e in
          listed (o.items links) [] main w (key_there s.explicit_map main w k e)
            (h.items-once links main ∙ ap (λ x. if is_some x then 1 else 0) v)
            (λ x m. h.items-string links main x w m v)
          ∙ sym e
    ]
