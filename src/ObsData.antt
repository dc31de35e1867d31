-- ===== src/ObsData.antt =====
-- obs_data of libobs, as an interface: the operations that the settings files of the plugin use, and
-- what they are documented to do. A key holds one value; a setter replaces the value of its key and
-- of no other; a getter of the value's own type returns it, and one of a missing key the zero of its
-- type. What a getter returns for a value of another type is left open.
pub mod Docs
use stream_multicast.Common.{
  ℕ, ◌+◌, ◌≡◌, Memᴰ, ◌∷◌, Bool, true, false, List, [], Option, none, some, if◌then◌else◌, Str,
  str_eq, ◌==◌,
}
use stream_multicast.Common.Int.{ℤ, pos}
use stream_multicast.Common.Text.{before}

pub data Value (D : Type 0) : Type 0 where
  string_value : Str → Value D
  int_value : ℤ → Value D
  bool_value : Bool → Value D
  obj_value : D → Value D
  array_value : List D → Value D

pub record ObsData (D : Type 0) : Type 0 where
  pub create : D
  pub set_string : D → Str → Str → D
  pub set_int : D → Str → ℤ → D
  pub set_bool : D → Str → Bool → D
  pub set_obj : D → Str → D → D
  pub set_array : D → Str → List D → D
  pub get_string : D → Str → Str
  pub get_int : D → Str → ℤ
  pub get_bool : D → Str → Bool
  pub get_obj : D → Str → Option D
  pub get_array : D → Str → Option (List D)
  pub has_user_value : D → Str → Bool
  pub apply : D → D → D
  -- the names of the items and obs_data_item_get_string of each
  pub items : D → List (Str × Str)

abbrev pub is_some {ℓ} : {A : Type ℓ} → Option A → Bool
is_some none = false
is_some (some a) = true

-- How many items have a name.
abbrev pub count_name : Str → List (Str × Str) → ℕ
count_name k [] = 0
count_name k ((j, s) ∷ items) = (if str_eq j k then 1 else 0) + count_name k items

-- The documented behaviour, by the values that the keys hold.
pub record IsObsData {D : Type 0} (o : ObsData D) : Type 0 where
  pub view : D → Str → Option (Value D)
  pub view-create : (k : Str) → view o.create k ≡ none
  pub view-set_string :
      (d : D) (k : Str) (s : Str) (j : Str)
      → view (o.set_string d k s) j ≡ (if str_eq k j then some (string_value s) else view d j)
  pub view-set_int :
      (d : D) (k : Str) (n : ℤ) (j : Str)
      → view (o.set_int d k n) j ≡ (if str_eq k j then some (int_value n) else view d j)
  pub view-set_bool :
      (d : D) (k : Str) (b : Bool) (j : Str)
      → view (o.set_bool d k b) j ≡ (if str_eq k j then some (bool_value b) else view d j)
  pub view-set_obj :
      (d : D) (k : Str) (e : D) (j : Str)
      → view (o.set_obj d k e) j ≡ (if str_eq k j then some (obj_value e) else view d j)
  pub view-set_array :
      (d : D) (k : Str) (es : List D) (j : Str)
      → view (o.set_array d k es) j ≡ (if str_eq k j then some (array_value es) else view d j)
  pub view-apply :
      (d e : D) (k : Str)
      → view (o.apply d e) k ≡ (if is_some (view e k) then view e k else view d k)
  pub items-once :
      (d : D) (k : Str) → count_name k (o.items d) ≡ (if is_some (view d k) then 1 else 0)
  pub items-string :
      (d : D) (k x s : Str) → Memᴰ (k, x) (o.items d) → view d k ≡ some (string_value s) → x ≡ s
  pub get_string-some :
      (d : D) (k : Str) (s : Str) → view d k ≡ some (string_value s) → o.get_string d k ≡ s
  pub get_string-none : (d : D) (k : Str) → view d k ≡ none → o.get_string d k ≡ []
  pub get_int-some : (d : D) (k : Str) (n : ℤ) → view d k ≡ some (int_value n) → o.get_int d k ≡ n
  pub get_int-none : (d : D) (k : Str) → view d k ≡ none → o.get_int d k ≡ pos 0
  pub get_bool-some :
      (d : D) (k : Str) (b : Bool) → view d k ≡ some (bool_value b) → o.get_bool d k ≡ b
  pub get_obj-some :
      (d : D) (k : Str) (e : D) → view d k ≡ some (obj_value e) → o.get_obj d k ≡ some e
  pub get_obj-none : (d : D) (k : Str) → view d k ≡ none → o.get_obj d k ≡ none
  pub get_array-some :
      (d : D) (k : Str) (es : List D) → view d k ≡ some (array_value es) → o.get_array d k ≡ some es
  pub get_array-none : (d : D) (k : Str) → view d k ≡ none → o.get_array d k ≡ none
  pub has-view : (d : D) (k : Str) → o.has_user_value d k ≡ is_some (view d k)

-- `s.c_str()` as C reads it, up to the first zero byte.
abbrev pub c_str : Str → Str
c_str s = before (λ c. c == 0) s

-- The setter of a value's type.
abbrev pub set_value : {D : Type 0} → ObsData D → D → Str → Value D → D
set_value o d k (string_value s) = o.set_string d k s
set_value o d k (int_value n) = o.set_int d k n
set_value o d k (bool_value b) = o.set_bool d k b
set_value o d k (obj_value e) = o.set_obj d k e
set_value o d k (array_value es) = o.set_array d k es
