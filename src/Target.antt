-- ===== src/Target.antt =====
-- src/core/EndpointValidation.hpp and EndpointValidation.cpp: when two endpoints stream to the same
-- place. src/core/LinkedStart.hpp and LinkedStart.cpp: which endpoints start with the main stream.
pub mod Port
pub mod Url
pub mod Ports
pub mod Duplicates
pub mod LinkedStart
pub mod Coverage
use stream_multicast.Common.{
  ℕ, ◌+◌, ◌-◌, ◌≡◌, Bool, true, false, ◌&&◌, ◌||◌, not, List, [], ◌∷◌, ◌++◌, map, Option, none,
  some, if◌then◌else◌, ltb, leb, ◌==◌, length, is_empty, Str, codes, str_eq,
}
use stream_multicast.Common.Text.{take, drop, drop_front, drop_back, before, from, find, ends_with}
use stream_multicast.Endpoint.{Endpoint}

abbrev pub is_blank : ℕ → Bool
is_blank c = c == b' ' || c == 9 || c == 13 || c == 10

unfoldable pub trim : Str → Str
trim s = drop_back is_blank (drop_front is_blank s)

abbrev pub lower : ℕ → ℕ
lower c = if leb b'A' c && leb c b'Z' then c - b'A' + b'a' else c

unfoldable pub lower_ascii : Str → Str
lower_ascii = map lower

abbrev pub is_slash : ℕ → Bool
is_slash c = c == b'/'

-- The scheme with its "://", lowercased, and the rest of the text; by the position of "://".
abbrev pub split_at : Option ℕ → Str → Str × Str
split_at none s = ([], s)
split_at (some n) s = (lower_ascii (take (n + 3) s), drop (n + 3) s)

unfoldable pub split_scheme : Str → Str × Str
split_scheme s = split_at (find (codes "://") s) s

abbrev pub default_port : Str → Option Str
default_port scheme =
    if str_eq scheme (codes "rtmp://")
    then some (codes ":1935")
    else if str_eq scheme (codes "rtmps://")
    then some (codes ":443")
    else none

-- `authority.erase(authority.size() - suffix.size())` where the host ends in the port and is longer.
abbrev pub erase_suffix : Option Str → Str → Str
erase_suffix none authority = authority
erase_suffix (some suffix) authority =
    if ltb (length suffix) (length authority) && ends_with suffix authority
    then take (length authority - length suffix) authority
    else authority

unfoldable pub drop_default_port : Str → Str → Str
drop_default_port scheme authority = erase_suffix (default_port scheme) authority

-- `scheme + authority + path`
unfoldable pub join_parts : Str × Str → Str
join_parts (scheme, rest) =
    scheme
    ++ (drop_default_port scheme (lower_ascii (before is_slash rest))
        ++ drop_back is_slash (from is_slash rest))

unfoldable pub normalize_server_url : Str → Str
normalize_server_url url =
    let s = trim url in if is_empty s then [] else join_parts (split_scheme s)

pub record StreamTarget : Type 0 where
  pub server_url : Str
  pub stream_key : Str

unfoldable pub is_duplicate_target : StreamTarget → StreamTarget → Bool
is_duplicate_target a b =
    let key_a = trim a.stream_key in
    if is_empty key_a || not (str_eq key_a (trim b.stream_key))
    then false
    else str_eq (normalize_server_url a.server_url) (normalize_server_url b.server_url)

pub data DuplicateKind : Type 0 where
  no_duplicate other_endpoint main_service : DuplicateKind

pub record DuplicateResult : Type 0 where
  pub kind : DuplicateKind
  pub other_name : Str

abbrev pub result : DuplicateKind → Str → DuplicateResult
result k n = record { kind = k; other_name = n }

abbrev pub target : Endpoint → StreamTarget
target e = record { server_url = e.server_url; stream_key = e.stream_key }

-- what stands behind the loop of `find_duplicate`
abbrev pub against_main : StreamTarget → Option StreamTarget → DuplicateResult
against_main candidate none = result no_duplicate []
against_main candidate (some main) =
    if is_duplicate_target candidate main then result main_service [] else result no_duplicate []

unfoldable pub find_duplicate : Endpoint → List Endpoint → Option StreamTarget → DuplicateResult
find_duplicate candidate [] main_target = against_main (target candidate) main_target
find_duplicate candidate (other ∷ all) main_target =
    let rest = find_duplicate candidate all main_target in
    if str_eq other.id candidate.id || not other.enabled
    then rest
    else if is_duplicate_target (target candidate) (target other)
    then result other_endpoint other.name
    else rest
