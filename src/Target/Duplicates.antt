-- ===== src/Target/Duplicates.antt =====
-- src/core/EndpointValidation.cpp: which endpoints are reported as duplicates.
use stream_multicast.Common.{
  ◌≡◌, ◌↔◌, refl, sym, ap, ◌∙◌, inl, inr, Bool, true, false, ◌&&◌, ◌||◌, not, List, [], ◌∷◌, Memᴰ,
  Option, none, some, arith, is_empty, All, Str, str_eq, str_eq_iff, Bool-cases,
}
use stream_multicast.Endpoint.{Endpoint}
use stream_multicast.Target.{
  is_blank, is_slash, StreamTarget, trim, normalize_server_url, is_duplicate_target, DuplicateKind,
  no_duplicate, other_endpoint, main_service, target, find_duplicate,
}
use stream_multicast.Target.Url.{Url, IsUrl, spelled, bare_scheme, bare_host, bare_path}
use stream_multicast.Target.Ports.{normalize-eq_iff}

duplicate_iff :
    (a b : StreamTarget)
    → (is_duplicate_target a b ≡ true) ↔ (
        (is_empty (trim a.stream_key) ≡ false)
        × (trim a.stream_key ≡ trim b.stream_key)
        × (normalize_server_url a.server_url ≡ normalize_server_url b.server_url))
unfolding is_duplicate_target
duplicate_iff a b = ground (
  arith,
  str_eq_iff (trim a.stream_key) (trim b.stream_key),
  str_eq_iff (normalize_server_url a.server_url) (normalize_server_url b.server_url),
)

-- Being a duplicate is a partial equivalence of stream targets: it holds of a target and itself
-- exactly when the key is not blank, and it is symmetric and transitive.
pub duplicate_equivalence :
    (a b c : StreamTarget)
    → ((is_duplicate_target a a ≡ true) ↔ (is_empty (trim a.stream_key) ≡ false))
      × (is_duplicate_target a b ≡ is_duplicate_target b a)
      × (is_duplicate_target a b ≡ true
          → is_duplicate_target b c ≡ true
          → is_duplicate_target a c ≡ true)
duplicate_equivalence a b c = ground (
  arith,
  duplicate_iff a a,
  duplicate_iff a b,
  duplicate_iff b a,
  duplicate_iff b c,
  duplicate_iff a c,
)

-- Two stream targets whose URLs are spelled in any way are duplicates exactly when they have the
-- same key, which is not blank, but for blanks around it, and the same ingest: the same scheme and
-- host in lower case, the host without a port 1935 of RTMP or 443 of RTMPS, and the same path but
-- for slashes at its end.
pub duplicate_spelled_iff :
    (a b : StreamTarget) (u : Url) (v : IsUrl u) (front slashes back : Str) (u' : Url)
    (v' : IsUrl u') (front' slashes' back' : Str)
    → a.server_url ≡ spelled u front slashes back
    → b.server_url ≡ spelled u' front' slashes' back'
    → All (λ c. is_blank c ≡ true) front
    → All (λ c. is_slash c ≡ true) slashes
    → All (λ c. is_blank c ≡ true) back
    → All (λ c. is_blank c ≡ true) front'
    → All (λ c. is_slash c ≡ true) slashes'
    → All (λ c. is_blank c ≡ true) back'
    → (is_duplicate_target a b ≡ true) ↔ (
        (is_empty (trim a.stream_key) ≡ false)
        × (trim a.stream_key ≡ trim b.stream_key)
        × (bare_scheme u ≡ bare_scheme u')
        × (bare_host u ≡ bare_host u')
        × (bare_path u ≡ bare_path u'))
duplicate_spelled_iff a b u v fr sl bk u' v' fr' sl' bk' s s' f o k f' o' k' =
    let same = normalize-eq_iff u v fr sl bk u' v' fr' sl' bk' f o k f' o' k' in
    let both = duplicate_iff a b in
    (
      λ d.
          let (n, key, url) = both.0 d in
          let ingest =
            same.0 (sym (ap normalize_server_url s) ∙ url ∙ ap normalize_server_url s') in
          (n, key, ingest.0, ingest.1, ingest.2),
      λ p. both.1 (
        p.0,
        p.1,
        ap normalize_server_url s ∙ same.1 (p.2, p.3, p.4) ∙ sym (ap normalize_server_url s'),
      ),
    )

-- Another enabled endpoint, by its id, with the same target.
abbrev pub clashes : Endpoint → Endpoint → Bool
clashes candidate other =
    not (str_eq other.id candidate.id)
    && (other.enabled && is_duplicate_target (target candidate) (target other))

-- What each kind of answer, with its name, says of the endpoints and of the main service.
abbrev pub Explains : Endpoint → List Endpoint → Option StreamTarget → DuplicateKind → Str → Type 0
Explains candidate all main no_duplicate name =
    All (λ o. clashes candidate o ≡ false) all
    × ((m : StreamTarget) → main ≡ some m → is_duplicate_target (target candidate) m ≡ false)
Explains candidate all main other_endpoint name =
    (o : Endpoint) × (Memᴰ o all) × (clashes candidate o ≡ true) × (o.name ≡ name)
Explains candidate all main main_service name =
    All (λ o. clashes candidate o ≡ false) all
    × ((m : StreamTarget) × (main ≡ some m) × (is_duplicate_target (target candidate) m ≡ true))

skip :
    (candidate other : Endpoint) (all : List Endpoint) (main : Option StreamTarget)
    (k : DuplicateKind) (n : Str)
    → clashes candidate other ≡ false
    → Explains candidate all main k n
    → Explains candidate (other ∷ all) main k n
skip candidate other all main no_duplicate n h (rest, m) = ((h, rest), m)
skip candidate other all main other_endpoint n h (o, i, c, e) = (o, Memᴰ.tail i, c, e)
skip candidate other all main main_service n h (rest, m) = ((h, rest), m)

-- Each answer is right: `no_duplicate` is given only when no other enabled endpoint and not the
-- main service has the candidate's target, `other_endpoint` names such an endpoint, and
-- `main_service` is given only when no endpoint clashes and the main service does.
pub find_duplicate-Explains :
    (candidate : Endpoint) (all : List Endpoint) (main : Option StreamTarget)
    → let r = find_duplicate candidate all main in Explains candidate all main r.kind r.other_name
unfolding find_duplicate
find_duplicate-Explains candidate [] none = (tt, λ m e. cc)
find_duplicate-Explains candidate [] (some main) =
    elim (Bool-cases (is_duplicate_target (target candidate) main)) [
      | inl e ↦ rw e (tt, (main, refl, e))
      | inr e ↦ rw e (tt, λ m same. cc)
    ]
find_duplicate-Explains candidate (other ∷ all) main =
    elim (Bool-cases (str_eq other.id candidate.id || not other.enabled)) [
      | inl e ↦ rw e (
          skip candidate other all main _ _ (ground (arith, e))
            (find_duplicate-Explains candidate all main))
      | inr e ↦ elim (Bool-cases (is_duplicate_target (target candidate) (target other))) [
        | inl d ↦ rw (e, d) (other, Memᴰ.head refl, ground (arith, e, d), refl)
        | inr d ↦
            rw (e, d)
              (skip candidate other all main _ _ (ground (arith, e, d))
                (find_duplicate-Explains candidate all main))
      ]
    ]
