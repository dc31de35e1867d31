-- ===== src/Target/Url.antt =====
-- src/core/EndpointValidation.cpp: what the comparison of ingest URLs forgets, and what it keeps.
use stream_multicast.Common.{
  ℕ, suc, ◌+◌, ◌≡◌, refl, ap, ap₂, ◌∙◌, Bool, true, false, ◌||◌, [], ◌∷◌, ◌++◌, map, some, arith,
  ◌==◌, length, is_empty, All, Str, codes,
}
use mathlib.Core.List.{append-nil, map-append}
use stream_multicast.Common.Text.{
  take, drop, drop_front, drop_back, before, from, find, drop_back-append, drop_front-append,
  before-append, from-append,
}
use stream_multicast.Target.Port.{without_port, drop_default_port_lem}
use stream_multicast.Target.{
  is_blank, is_slash, trim, lower, lower_ascii, split_at, split_scheme, drop_default_port,
  join_parts, normalize_server_url,
}

abbrev pub is_colon : ℕ → Bool
is_colon c = c == b':'

abbrev Free : (ℕ → Bool) → Str → Type 0
Free p s = All (λ c. p c ≡ false) s

abbrev Only : (ℕ → Bool) → Str → Type 0
Only p s = All (λ c. p c ≡ true) s

-- An ingest URL `scheme://host/path`, host with its port; the path is empty or begins with '/'.
pub record Url : Type 0 where
  pub scheme : Str
  pub host : Str
  pub path : Str

abbrev pub path_begins : Str → Bool
path_begins [] = true
path_begins (c ∷ s) = is_slash c

pub record IsUrl (u : Url) : Type 0 where
  pub scheme_plain : All (λ c. is_blank c || is_colon c ≡ false) u.scheme
  pub host_plain : All (λ c. is_blank c || is_slash c ≡ false) u.host
  pub path_plain : All (λ c. is_blank c ≡ false) u.path
  pub path_rooted : path_begins u.path ≡ true

-- The URL as a user may type it: blanks around it, and slashes behind the path.
abbrev pub spelled : Url → Str → Str → Str → Str
spelled u front slashes back =
    front ++ ((u.scheme ++ (codes "://" ++ (u.host ++ (u.path ++ slashes)))) ++ back)

weaken : (p q : ℕ → Bool) (s : Str) → ((c : ℕ) → p c ≡ false → q c ≡ false) → Free p s → Free q s
weaken p q [] h f = tt
weaken p q (c ∷ s) h f = (h c f.0, weaken p q s h f.1)

Free-append : (p : ℕ → Bool) (s t : Str) → Free p s → Free p t → Free p (s ++ t)
Free-append p [] t f g = g
Free-append p (c ∷ s) t f g = (f.0, Free-append p s t f.1 g)

drop_back-Free : (p : ℕ → Bool) (s : Str) → Free p s → drop_back p s ≡ s
drop_back-Free p [] f = refl
drop_back-Free p (c ∷ s) f = ground (arith, drop_back-Free p s f.1)

drop_front-Free : (p : ℕ → Bool) (s : Str) → Free p s → drop_front p s ≡ s
drop_front-Free p [] f = refl
drop_front-Free p (c ∷ s) f = ground (arith, f.0)

drop_front-Only : (p : ℕ → Bool) (s : Str) → Only p s → drop_front p s ≡ []
drop_front-Only p [] f = refl
drop_front-Only p (c ∷ s) f = ground (arith, drop_front-Only p s f.1, f.0)

drop_back-Only : (p : ℕ → Bool) (s : Str) → Only p s → drop_back p s ≡ []
drop_back-Only p [] f = refl
drop_back-Only p (c ∷ s) f = ground (arith, drop_back-Only p s f.1, f.0)

-- Blanks around a text without blanks are trimmed.
trim_spelled :
    (front s back : Str)
    → Only is_blank front
    → Free is_blank s
    → Only is_blank back
    → trim (front ++ (s ++ back)) ≡ s
unfolding trim
trim_spelled front [] back f h b =
    rw (drop_front-append is_blank front back f, drop_front-Only is_blank back b)
trim_spelled front (c ∷ s) back f h b = rw (drop_front-append is_blank front (c ∷ s ++ back) f) (
    ap (drop_back is_blank) (first_kept (s ++ back))
    ∙ drop_back-append is_blank (c ∷ s) back b
    ∙ drop_back-Free is_blank (c ∷ s) h)
  where
    first_kept : (t : Str) → drop_front is_blank (c ∷ t) ≡ c ∷ t
    first_kept t = ground (arith, h.0)

-- The first "://" of a text stands behind its scheme.
find-scheme :
    (scheme rest : Str)
    → Free is_colon scheme
    → find (codes "://") (scheme ++ (codes "://" ++ rest)) ≡ some (length scheme)
find-scheme [] rest f = refl
find-scheme (c ∷ scheme) rest f = ground (arith, find-scheme scheme rest f.1, f.0)

length-codes : length (codes "://") ≡ 3
length-codes = refl

take-past : (s t : Str) (n : ℕ) → take (length s + n) (s ++ t) ≡ s ++ take n t
take-past [] t n = ap (λ k. take k t) (omega arith)
take-past (c ∷ s) t n =
    ap (λ k. take k (c ∷ (s ++ t))) {x = length (c ∷ s) + n} {y = suc (length s + n)} (omega arith)
    ∙ ap (◌∷◌ c) (take-past s t n)

drop-past : (s t : Str) (n : ℕ) → drop (length s + n) (s ++ t) ≡ drop n t
drop-past [] t n = ap (λ k. drop k t) (omega arith)
drop-past (c ∷ s) t n =
    ap (λ k. drop k (c ∷ (s ++ t))) {x = length (c ∷ s) + n} {y = suc (length s + n)} (omega arith)
    ∙ drop-past s t n

split_spelled :
    (scheme rest : Str)
    → Free is_colon scheme
    → split_scheme (scheme ++ (codes "://" ++ rest)) ≡ (lower_ascii scheme ++ codes "://", rest)
unfolding split_scheme lower_ascii
split_spelled scheme rest f =
    ap (λ o. split_at o (scheme ++ (codes "://" ++ rest))) (find-scheme scheme rest f)
    ∙ Σ_eq
        (ap (map lower) (take-past scheme (codes "://" ++ rest) 3)
          ∙ map-append lower scheme (codes "://"))
        (drop-past scheme (codes "://" ++ rest) 3)
  where
    Σ_eq : {a b c d : Str} → a ≡ b → c ≡ d → ◌≡◌ {A = Str × Str} (a, c) (b, d)
    Σ_eq p q = λ i. (p i, q i)

-- What is left of the parts: the scheme and the host in lower case, the host without the scheme's
-- default port, the path without the slashes at its end.
abbrev pub bare_scheme : Url → Str
bare_scheme u = lower_ascii u.scheme

abbrev pub bare_host : Url → Str
bare_host u = without_port (lower_ascii u.scheme) (lower_ascii u.host)

abbrev pub bare_path : Url → Str
bare_path u = drop_back is_slash u.path

rooted_before :
    (p slashes : Str)
    → path_begins p ≡ true
    → Only is_slash slashes
    → before is_slash (p ++ slashes) ≡ []
rooted_before [] [] h o = refl
rooted_before [] (c ∷ s) h o = ground (arith, o.0)
rooted_before (d ∷ p) s h o = ground arith

rooted_from :
    (p slashes : Str)
    → path_begins p ≡ true
    → Only is_slash slashes
    → from is_slash (p ++ slashes) ≡ p ++ slashes
rooted_from [] [] h o = refl
rooted_from [] (c ∷ s) h o = ground (arith, o.0)
rooted_from (d ∷ p) s h o = ground arith

module _ (u : Url) (v : IsUrl u) (front slashes back : Str) (f : Only is_blank front)
    (o : Only is_slash slashes) (b : Only is_blank back) where
  scheme_colon : Free is_colon u.scheme
  scheme_colon = weaken _ is_colon u.scheme (λ c h. ground arith) v.scheme_plain

  scheme_blank : Free is_blank u.scheme
  scheme_blank = weaken _ is_blank u.scheme (λ c h. ground arith) v.scheme_plain

  host_slash : Free is_slash u.host
  host_slash = weaken _ is_slash u.host (λ c h. ground arith) v.host_plain

  host_blank : Free is_blank u.host
  host_blank = weaken _ is_blank u.host (λ c h. ground arith) v.host_plain

  slashes_blank : (s : Str) → Only is_slash s → Free is_blank s
  slashes_blank [] h = tt
  slashes_blank (c ∷ s) h = (ground (arith, h.0), slashes_blank s h.1)

  text_blank : Free is_blank (u.scheme ++ (codes "://" ++ (u.host ++ (u.path ++ slashes))))
  text_blank = Free-append is_blank u.scheme _ scheme_blank (
      Free-append is_blank (codes "://") _ (refl, (refl, (refl, tt)))
        (Free-append is_blank u.host _ host_blank
          (Free-append is_blank u.path slashes v.path_plain (slashes_blank slashes o))))

  normalize_nonempty :
      (s : Str)
      → is_empty s ≡ false
      → trim (front ++ (s ++ back)) ≡ s
      → normalize_server_url (front ++ (s ++ back)) ≡ join_parts (split_scheme s)
  unfolding normalize_server_url
  normalize_nonempty s n t = rw t (rw n)

  join_spelled :
      join_parts (lower_ascii u.scheme ++ codes "://", u.host ++ (u.path ++ slashes))
      ≡ (bare_scheme u ++ codes "://") ++ (bare_host u ++ bare_path u)
  unfolding join_parts
  join_spelled =
      ap (λ t. (bare_scheme u ++ codes "://") ++ t)
        (ap₂ (λ h p. drop_default_port (bare_scheme u ++ codes "://") (lower_ascii h) ++ p)
          (before-append is_slash u.host _ host_slash
            ∙ ap (λ t. u.host ++ t) (rooted_before u.path slashes v.path_rooted o)
            ∙ append-nil u.host)
          (ap (drop_back is_slash) (
              from-append is_slash u.host _ host_slash ∙ rooted_from u.path slashes v.path_rooted o)
            ∙ drop_back-append is_slash u.path slashes o))
      ∙ ap (λ h. (bare_scheme u ++ codes "://") ++ (h ++ bare_path u))
          (drop_default_port_lem (bare_scheme u) (lower_ascii u.host))

  scheme_nonempty : (s t : Str) → is_empty (s ++ (codes "://" ++ t)) ≡ false
  scheme_nonempty [] t = refl
  scheme_nonempty (c ∷ s) t = refl

  -- A URL is compared by its scheme and host in lower case, without the default port of the
  -- scheme, and by its path without the slashes at its end: blanks around the text, slashes behind
  -- the path and the case of scheme and host make no difference.
  pub normalize-spelled :
      normalize_server_url (spelled u front slashes back)
      ≡ (bare_scheme u ++ codes "://") ++ (bare_host u ++ bare_path u)
  normalize-spelled =
      normalize_nonempty _ (scheme_nonempty u.scheme _) (trim_spelled front _ back f text_blank b)
      ∙ ap join_parts (split_spelled u.scheme _ scheme_colon)
      ∙ join_spelled
