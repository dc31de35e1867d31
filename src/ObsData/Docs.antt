-- ===== src/ObsData/Docs.antt =====
-- The laws of obs_data can be met: documents as lists of values, the last setter first. And what a
-- row of setters leaves behind.
use stream_multicast.Common.{
  Memᴰ, Mem-cons_cases, Bool-cases, inl, inr, sym, subst, str_eq_refl, str_eq_comm, str_eq→eq, ◌≡◌,
  refl, ap, ◌∙◌, Bool, true, false, List, [], ◌∷◌, Option, none, some, arith, if◌then◌else◌, Str,
  str_eq,
}
use stream_multicast.Common.Int.{ℤ, pos}
use stream_multicast.ObsData.{
  Value, string_value, int_value, bool_value, obj_value, array_value, ObsData, IsObsData,
  count_name, is_some, set_value,
}

mutual
  pub data Doc : Type 0 where
    empty_doc : Doc
    entry : Str → Held → Doc → Doc

  pub data Held : Type 0 where
    held_string : Str → Held
    held_int : ℤ → Held
    held_bool : Bool → Held
    held_doc : Doc → Held
    held_array : Docs → Held

  pub data Docs : Type 0 where
    no_docs : Docs
    more_docs : Doc → Docs → Docs

abbrev pack : List Doc → Docs
pack [] = no_docs
pack (d ∷ ds) = more_docs d (pack ds)

abbrev unpack : Docs → List Doc
unpack no_docs = []
unpack (more_docs d ds) = d ∷ unpack ds

unpack-pack : (ds : List Doc) → unpack (pack ds) ≡ ds
unpack-pack [] = refl
unpack-pack (d ∷ ds) = ap (◌∷◌ d) (unpack-pack ds)

abbrev value_of : Held → Value Doc
value_of (held_string s) = string_value s
value_of (held_int n) = int_value n
value_of (held_bool b) = bool_value b
value_of (held_doc d) = obj_value d
value_of (held_array ds) = array_value (unpack ds)

abbrev doc_view : Doc → Str → Option (Value Doc)
doc_view empty_doc k = none
doc_view (entry j v d) k = if str_eq j k then some (value_of v) else doc_view d k

abbrev merge : Doc → Doc → Doc
merge d empty_doc = d
merge d (entry k v e) = entry k v (merge d e)

merge-view :
    (d e : Doc) (k : Str)
    → doc_view (merge d e) k ≡ (if is_some (doc_view e k) then doc_view e k else doc_view d k)
merge-view d empty_doc k = refl
merge-view d (entry j v e) k = ground (arith, merge-view d e k)

abbrev as_string : Option (Value Doc) → Str
as_string (some (string_value s)) = s
as_string _ = []

abbrev as_int : Option (Value Doc) → ℤ
as_int (some (int_value n)) = n
as_int _ = pos 0

abbrev as_bool : Option (Value Doc) → Bool
as_bool (some (bool_value b)) = b
as_bool _ = false

abbrev as_doc : Option (Value Doc) → Option Doc
as_doc (some (obj_value d)) = some d
as_doc _ = none

abbrev as_array : Option (Value Doc) → Option (List Doc)
as_array (some (array_value ds)) = some ds
as_array _ = none

abbrev text : Value Doc → Str
text (string_value s) = s
text _ = []

abbrev drop_name : Str → List (Str × Str) → List (Str × Str)
drop_name k [] = []
drop_name k ((j, s) ∷ items) = if str_eq j k then drop_name k items else (j, s) ∷ drop_name k items

abbrev doc_items : Doc → List (Str × Str)
doc_items empty_doc = []
doc_items (entry k v d) = (k, text (value_of v)) ∷ drop_name k (doc_items d)

count-drop_name :
    (k j : Str) (items : List (Str × Str))
    → count_name j (drop_name k items) ≡ (if str_eq k j then 0 else count_name j items)
count-drop_name k j [] = ground arith
count-drop_name k j ((i, s) ∷ items) = elim (Bool-cases (str_eq i k)) [
  | inl e ↦ ground (arith, e, count-drop_name k j items, ap (λ x. str_eq x j) (str_eq→eq i k e))
  | inr e ↦ ground (
    arith,
    e,
    count-drop_name k j items,
    λ (h : str_eq k j ≡ true). ap (str_eq i) (sym (str_eq→eq k j h)) ∙ e,
  )
]

doc_items-once :
    (d : Doc) (k : Str) → count_name k (doc_items d) ≡ (if is_some (doc_view d k) then 1 else 0)
doc_items-once empty_doc k = refl
doc_items-once (entry j v d) k =
    ground (arith, count-drop_name j k (doc_items d), doc_items-once d k)

Mem-drop_name :
    (k j x : Str) (items : List (Str × Str))
    → Memᴰ (j, x) (drop_name k items)
    → (str_eq k j ≡ false) × Memᴰ (j, x) items
Mem-drop_name k j x [] m = elim m [ ]
Mem-drop_name k j x ((i, s) ∷ items) m = elim (Bool-cases (str_eq i k)) [
  | inl e ↦
      let (n, r) = Mem-drop_name k j x items (
        subst (λ b. Memᴰ (j, x) (if b then drop_name k items else (i, s) ∷ drop_name k items)) e
          m) in
      (n, Memᴰ.tail r)
  | inr e ↦
      elim (Mem-cons_cases (
        subst (λ b. Memᴰ (j, x) (if b then drop_name k items else (i, s) ∷ drop_name k items)) e
          m)) [
            | inl same ↦ (ap (λ p. str_eq k p.0) same ∙ str_eq_comm k i ∙ e, Memᴰ.head same)
            | inr later ↦ let (n, r) = Mem-drop_name k j x items later in (n, Memᴰ.tail r)
          ]
]

doc_items-string :
    (d : Doc) (k x s : Str)
    → Memᴰ (k, x) (doc_items d)
    → doc_view d k ≡ some (string_value s)
    → x ≡ s
doc_items-string empty_doc k x s m e = elim m [ ]
doc_items-string (entry j v d) k x s m e = elim (Mem-cons_cases m) [
  | inl same ↦
      ap (λ p. p.1) same
      ∙ ap text_in (
          sym (
            ap (λ b. if b then some (value_of v) else doc_view d k)
              (ap (str_eq j) (ap (λ p. p.0) same) ∙ str_eq_refl j))
          ∙ e)
  | inr later ↦
      let (n, r) = Mem-drop_name j k x (doc_items d) later in
      doc_items-string d k x s r
        (sym (ap (λ b. if b then some (value_of v) else doc_view d k) n) ∙ e)
]
  where
    text_in : Option (Value Doc) → Str
    text_in none = []
    text_in (some v) = text v

abbrev pub docs : ObsData Doc
docs = record {
  create = empty_doc;
  set_string = λ d k s. entry k (held_string s) d;
  set_int = λ d k n. entry k (held_int n) d;
  set_bool = λ d k b. entry k (held_bool b) d;
  set_obj = λ d k e. entry k (held_doc e) d;
  set_array = λ d k es. entry k (held_array (pack es)) d;
  get_string = λ d k. as_string (doc_view d k);
  get_int = λ d k. as_int (doc_view d k);
  get_bool = λ d k. as_bool (doc_view d k);
  get_obj = λ d k. as_doc (doc_view d k);
  get_array = λ d k. as_array (doc_view d k);
  has_user_value = λ d k. is_some (doc_view d k);
  apply = merge;
  items = doc_items;
}

pub docs-IsObsData : IsObsData docs
docs-IsObsData = record {
  view = doc_view;
  view-create = λ k. refl;
  view-set_string = λ d k s j. refl;
  view-set_int = λ d k n j. refl;
  view-set_bool = λ d k b j. refl;
  view-set_obj = λ d k e j. refl;
  view-set_array = λ d k es j.
      ap (λ xs. if str_eq k j then some (array_value xs) else doc_view d j) (unpack-pack es);
  view-apply = merge-view;
  items-once = doc_items-once;
  items-string = doc_items-string;
  get_string-some = λ d k s e. ap as_string e;
  get_string-none = λ d k e. ap as_string e;
  get_int-some = λ d k n e. ap as_int e;
  get_int-none = λ d k e. ap as_int e;
  get_bool-some = λ d k b e. ap as_bool e;
  get_obj-some = λ d k e x. ap as_doc x;
  get_obj-none = λ d k e. ap as_doc e;
  get_array-some = λ d k es e. ap as_array e;
  get_array-none = λ d k e. ap as_array e;
  has-view = λ d k. refl;
}

-- A row of setters, from the first to the last.
abbrev pub set_all : {D : Type 0} → ObsData D → D → List (Str × Value D) → D
set_all o d [] = d
set_all o d ((k, v) ∷ rest) = set_all o (set_value o d k v) rest

-- What a key holds after it.
abbrev pub held_after :
    {D : Type 0} → List (Str × Value D) → Str → Option (Value D) → Option (Value D)
held_after [] j before = before
held_after ((k, v) ∷ rest) j before = held_after rest j (if str_eq k j then some v else before)

view-set_value :
    {D : Type 0} (o : ObsData D) (h : IsObsData o) (d : D) (k : Str) (v : Value D) (j : Str)
    → h.view (set_value o d k v) j ≡ (if str_eq k j then some v else h.view d j)
view-set_value o h d k (string_value s) j = h.view-set_string d k s j
view-set_value o h d k (int_value n) j = h.view-set_int d k n j
view-set_value o h d k (bool_value b) j = h.view-set_bool d k b j
view-set_value o h d k (obj_value e) j = h.view-set_obj d k e j
view-set_value o h d k (array_value es) j = h.view-set_array d k es j

pub view-set_all :
    {D : Type 0} (o : ObsData D) (h : IsObsData o) (rows : List (Str × Value D)) (d : D) (j : Str)
    → h.view (set_all o d rows) j ≡ held_after rows j (h.view d j)
view-set_all o h [] d j = refl
view-set_all o h ((k, v) ∷ rest) d j =
    view-set_all o h rest (set_value o d k v) j
    ∙ ap (held_after rest j) (view-set_value o h d k v j)
