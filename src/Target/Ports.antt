-- ===== src/Target/Ports.antt =====
-- src/core/EndpointValidation.cpp: equal normalised URLs, and default ports.
use mathlib.Core.List.{append-nil, append_assoc}
use stream_multicast.Common.{
  ℕ, zero, suc, ◌-◌, ◌≡◌, ◌≢◌, ◌↔◌, refl, sym, ap, subst, ◌∙◌, inl, inr, Bool, true, false, ◌&&◌,
  ◌||◌, [], ◌∷◌, ◌++◌, Option, none, some, arith, ltb, length, length-append, is_empty, All, Str,
  codes, str_eq, str_eq_iff, str_eq_refl, Bool-cases,
}
use stream_multicast.Common.Text.{
  take, drop, drop_back, before, from, ends_with, before-append, from-append, take-append_length,
  drop-append_length,
}
use stream_multicast.Target.{
  is_blank, is_slash, lower, lower_ascii, default_port, erase_suffix, drop_default_port,
  normalize_server_url,
}
use stream_multicast.Target.Port.{drop_default_port_lem}
use stream_multicast.Target.Url.{
  Url, IsUrl, is_colon, spelled, bare_scheme, bare_host, bare_path, path_begins, normalize-spelled,
}

lower_keeps :
    (p : ℕ → Bool) (s : Str)
    → ((c : ℕ) → p c ≡ false → p (lower c) ≡ false)
    → All (λ c. p c ≡ false) s
    → All (λ c. p c ≡ false) (lower_ascii s)
unfolding lower_ascii
lower_keeps p [] h f = tt
lower_keeps p (c ∷ s) h f = (h c f.0, lower_keeps p s h f.1)

take_keeps :
    (p : ℕ → Bool) (n : ℕ) (s : Str) → All (λ c. p c ≡ false) s → All (λ c. p c ≡ false) (take n s)
take_keeps p zero s f = tt
take_keeps p (suc n) [] f = tt
take_keeps p (suc n) (c ∷ s) f = (f.0, take_keeps p n s f.1)

drop_keeps :
    (p : ℕ → Bool) (n : ℕ) (s : Str) → All (λ c. p c ≡ false) s → All (λ c. p c ≡ false) (drop n s)
drop_keeps p zero s f = f
drop_keeps p (suc n) [] f = tt
drop_keeps p (suc n) (c ∷ s) f = drop_keeps p n s f.1

-- Dropping a port only cuts the text short.
erase_keeps :
    (p : ℕ → Bool) (o : Option Str) (a : Str)
    → All (λ c. p c ≡ false) a
    → All (λ c. p c ≡ false) (erase_suffix o a)
erase_keeps p none a f = f
erase_keeps p (some suffix) a f =
    elim (Bool-cases (ltb (length suffix) (length a) && ends_with suffix a)) [
      | inl e ↦ rw e (take_keeps p (length a - length suffix) a f)
      | inr e ↦ rw e f
    ]

-- A host without a colon does not end in a port.
no_colon_end :
    (a suffix : Str) → All (λ c. is_colon c ≡ false) a → ends_with (b':' ∷ suffix) a ≡ false
no_colon_end a suffix f =
    elim (Bool-cases (str_eq (drop (length a - suc (length suffix)) a) (b':' ∷ suffix))) [
      | inr e ↦ ground (arith, e)
      | inl e ↦
          absurd (
            clash (drop_keeps is_colon (length a - suc (length suffix)) a f) ((str_eq_iff _ _).0 e))
    ]
  where
    clash : {s : Str} → All (λ c. is_colon c ≡ false) s → s ≡ b':' ∷ suffix → ⊥
    clash h e = cc ((subst (All (λ c. is_colon c ≡ false)) e h).0)

default_port-colon :
    (scheme suffix : Str) → default_port scheme ≡ some suffix → (t : Str) × (suffix ≡ b':' ∷ t)
default_port-colon scheme suffix h = elim (Bool-cases (str_eq scheme (codes "rtmp://"))) [
  | inl e ↦ (codes "1935", ground (arith, e))
  | inr e ↦ elim (Bool-cases (str_eq scheme (codes "rtmps://"))) [
    | inl e' ↦ (codes "443", ground (arith, e, e'))
    | inr e' ↦ absurd (ground (arith, e, e'))
  ]
]

ends_with-append : (a suffix : Str) → ends_with suffix (a ++ suffix) ≡ true
ends_with-append a suffix =
    rw (length_back, drop-append_length a suffix)
      (ground (arith, str_eq_refl suffix, length-append a suffix))
  where
    length_back : length (a ++ suffix) - length suffix ≡ length a
    length_back = omega (arith, length-append a suffix)

-- The default port of a scheme makes no difference: behind a host without a colon it is dropped,
-- and the host alone stays as it is.
pub default_port_dropped :
    (scheme suffix host : Str)
    → default_port scheme ≡ some suffix
    → All (λ c. is_colon c ≡ false) host
    → is_empty host ≡ false
    → (drop_default_port scheme (host ++ suffix) ≡ host) × (drop_default_port scheme host ≡ host)
unfolding drop_default_port
default_port_dropped scheme suffix [] port plain n = cc
default_port_dropped scheme suffix (c ∷ host) port plain n =
    let (t, colon) = default_port-colon scheme suffix port in
    (rw port (dropped (c ∷ host) (λ e. cc)), rw port (rw colon (kept t)))
  where
    dropped : (a : Str) → a ≢ [] → erase_suffix (some suffix) (a ++ suffix) ≡ a
    dropped [] h = absurd (h refl)
    dropped (x ∷ a) h =
        let len = length-append (x ∷ a) suffix in
        let longer : ltb (length suffix) (length (x ∷ a ++ suffix)) ≡ true = ground (arith, len) in
        let left : length (x ∷ a ++ suffix) - length suffix ≡ length (x ∷ a) = omega (arith, len) in
        rw (longer, ends_with-append (x ∷ a) suffix, left) (take-append_length (x ∷ a) suffix)

    kept : (t : Str) → erase_suffix (some (b':' ∷ t)) (c ∷ host) ≡ c ∷ host
    kept t = ground (arith, no_colon_end (c ∷ host) t plain)

begins-drop_back : (p : Str) → path_begins p ≡ true → path_begins (drop_back is_slash p) ≡ true
begins-drop_back [] h = refl
begins-drop_back (c ∷ p) h = ground arith

before-rooted :
    (h p : Str)
    → All (λ c. is_slash c ≡ false) h
    → path_begins p ≡ true
    → before is_slash (h ++ p) ≡ h
before-rooted h [] f r = before-append is_slash h [] f ∙ append-nil h
before-rooted h (c ∷ p) f r =
    before-append is_slash h (c ∷ p) f ∙ ap (λ t. h ++ t) (ground arith) ∙ append-nil h

from-rooted :
    (h p : Str)
    → All (λ c. is_slash c ≡ false) h
    → path_begins p ≡ true
    → from is_slash (h ++ p) ≡ p
from-rooted h [] f r = from-append is_slash h [] f
from-rooted h (c ∷ p) f r = from-append is_slash h (c ∷ p) f ∙ ground arith

before-colon :
    (s t : Str) → All (λ c. is_colon c ≡ false) s → before is_colon ((s ++ codes "://") ++ t) ≡ s
before-colon s t f = rw append_assoc (before-append is_colon s _ f ∙ append-nil s)

from-colon :
    (s t : Str)
    → All (λ c. is_colon c ≡ false) s
    → drop 3 (from is_colon ((s ++ codes "://") ++ t)) ≡ t
from-colon s t f = rw append_assoc (ap (drop 3) (from-append is_colon s _ f))

-- The parts of a normalised URL can be read back from it.
module _ (u : Url) (v : IsUrl u) where
  scheme-colon : All (λ c. is_colon c ≡ false) (bare_scheme u)
  scheme-colon = lower_keeps is_colon u.scheme (λ c h. ground arith) (go u.scheme v.scheme_plain)
    where
      go :
          (s : Str)
          → All (λ c. is_blank c || is_colon c ≡ false) s
          → All (λ c. is_colon c ≡ false) s
      go [] h = tt
      go (c ∷ s) h = (ground (arith, h.0), go s h.1)

  host-slash : All (λ c. is_slash c ≡ false) (bare_host u)
  unfolding drop_default_port
  host-slash =
      subst (All (λ c. is_slash c ≡ false))
        (drop_default_port_lem (bare_scheme u) (lower_ascii u.host))
        (erase_keeps is_slash (default_port (bare_scheme u ++ codes "://")) (lower_ascii u.host)
          (lower_keeps is_slash u.host (λ c h. ground arith) (go u.host v.host_plain)))
    where
      go :
          (s : Str)
          → All (λ c. is_blank c || is_slash c ≡ false) s
          → All (λ c. is_slash c ≡ false) s
      go [] h = tt
      go (c ∷ s) h = (ground (arith, h.0), go s h.1)

-- Two ways of typing URLs are the same to the comparison exactly when scheme and host are equal in
-- lower case, the host without a port 1935 of RTMP or 443 of RTMPS, and the paths are equal, letter
-- case included, without the slashes at their ends; blanks around the texts make no difference.
pub normalize-eq_iff :
    (u : Url) (v : IsUrl u) (front slashes back : Str) (u' : Url) (v' : IsUrl u')
    (front' slashes' back' : Str)
    → All (λ c. is_blank c ≡ true) front
    → All (λ c. is_slash c ≡ true) slashes
    → All (λ c. is_blank c ≡ true) back
    → All (λ c. is_blank c ≡ true) front'
    → All (λ c. is_slash c ≡ true) slashes'
    → All (λ c. is_blank c ≡ true) back'
    → (normalize_server_url (spelled u front slashes back)
        ≡ normalize_server_url (spelled u' front' slashes' back'))
      ↔ ((bare_scheme u ≡ bare_scheme u')
          × (bare_host u ≡ bare_host u')
          × (bare_path u ≡ bare_path u'))
normalize-eq_iff u v front slashes back u' v' front' slashes' back' f o b f' o' b' =
    (λ e. parts (sym n ∙ e ∙ n'), λ p. n ∙ whole p.0 p.1 p.2 ∙ sym n')
  where
    n :
        normalize_server_url (spelled u front slashes back)
        ≡ (bare_scheme u ++ codes "://") ++ (bare_host u ++ bare_path u)
    n = normalize-spelled u v front slashes back f o b

    n' :
        normalize_server_url (spelled u' front' slashes' back')
        ≡ (bare_scheme u' ++ codes "://") ++ (bare_host u' ++ bare_path u')
    n' = normalize-spelled u' v' front' slashes' back' f' o' b'

    whole :
        bare_scheme u ≡ bare_scheme u'
        → bare_host u ≡ bare_host u'
        → bare_path u ≡ bare_path u'
        → (bare_scheme u ++ codes "://") ++ (bare_host u ++ bare_path u)
          ≡ (bare_scheme u' ++ codes "://") ++ (bare_host u' ++ bare_path u')
    whole p q r = λ i. (p i ++ codes "://") ++ (q i ++ r i)

    parts :
        (bare_scheme u ++ codes "://") ++ (bare_host u ++ bare_path u)
          ≡ (bare_scheme u' ++ codes "://") ++ (bare_host u' ++ bare_path u')
        → (bare_scheme u ≡ bare_scheme u')
          × (bare_host u ≡ bare_host u')
          × (bare_path u ≡ bare_path u')
    parts e =
        let c = scheme-colon u v in
        let c' = scheme-colon u' v' in
        let h = host-slash u v in
        let h' = host-slash u' v' in
        let r = begins-drop_back u.path v.path_rooted in
        let r' = begins-drop_back u'.path v'.path_rooted in
        let tail =
          sym (from-colon (bare_scheme u) (bare_host u ++ bare_path u) c)
          ∙ ap (λ t. drop 3 (from is_colon t)) e
          ∙ from-colon (bare_scheme u') (bare_host u' ++ bare_path u') c' in
        (
          sym (before-colon (bare_scheme u) (bare_host u ++ bare_path u) c)
              ∙ ap (before is_colon) e
              ∙ before-colon (bare_scheme u') (bare_host u' ++ bare_path u') c',
          sym (before-rooted (bare_host u) (bare_path u) h r)
              ∙ ap (before is_slash) tail
              ∙ before-rooted (bare_host u') (bare_path u') h' r',
          sym (from-rooted (bare_host u) (bare_path u) h r)
              ∙ ap (from is_slash) tail
              ∙ from-rooted (bare_host u') (bare_path u') h' r',
        )
