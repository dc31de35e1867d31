-- ===== src/Tests/Target.antt =====
-- src/core/EndpointValidation and LinkedStart on concrete endpoints (after
-- tests/test_endpoint_validation.cpp and test_linked_start_duplicates.cpp).
use stream_multicast.Common.{
  ◌≡◌, ◌↔◌, refl, ◌+◌, true, false, [], ◌∷◌, Memᴰ, none, some, length, is_empty, ◌||◌, not_any→All,
  All, codes, str_eq,
}
use stream_multicast.Endpoint.{Endpoint, make_default}
use stream_multicast.Target.{
  is_blank, is_slash, StreamTarget, trim, normalize_server_url, split_scheme, lower_ascii,
  drop_default_port, join_parts, is_duplicate_target, find_duplicate,
}
use stream_multicast.Target.Url.{is_colon, Url, IsUrl, spelled, bare_scheme, bare_host, bare_path}
use stream_multicast.Target.Ports.{normalize-eq_iff}
use stream_multicast.Target.Duplicates.{Explains, duplicate_spelled_iff, find_duplicate-Explains}
use stream_multicast.Target.LinkedStart.{
  is_linked, select_linked_for_start, plan_step, plan_loop, plan_linked_start, NoClash, NotMain,
  plan_no_duplicates,
}
use stream_multicast.Target.Coverage.{Served, plan_serves_all}

normalized :
    normalize_server_url (codes " RTMP://Live.Twitch.tv:1935/app/ ")
    ≡ codes "rtmp://live.twitch.tv/app"
unfolding normalize_server_url trim split_scheme lower_ascii drop_default_port join_parts str_eq
normalized = refl

abbrev shouted : Url
shouted = record { scheme = codes "RTMP"; host = codes "Live.TV:1935"; path = codes "/app" }

abbrev plain : Url
plain = record { scheme = codes "rtmp"; host = codes "live.tv"; path = codes "/app" }

shouted-IsUrl : IsUrl shouted
shouted-IsUrl = record {
  scheme_plain = not_any→All (λ c. is_blank c || is_colon c) shouted.scheme refl;
  host_plain = not_any→All (λ c. is_blank c || is_slash c) shouted.host refl;
  path_plain = not_any→All is_blank shouted.path refl;
  path_rooted = refl;
}

plain-IsUrl : IsUrl plain
plain-IsUrl = record {
  scheme_plain = not_any→All (λ c. is_blank c || is_colon c) plain.scheme refl;
  host_plain = not_any→All (λ c. is_blank c || is_slash c) plain.host refl;
  path_plain = not_any→All is_blank plain.path refl;
  path_rooted = refl;
}

normalize-eq_iff_example :
    (normalize_server_url (spelled shouted (codes " ") (codes "/") (codes "  "))
      ≡ normalize_server_url (spelled plain [] [] []))
    ↔ ((bare_scheme shouted ≡ bare_scheme plain)
        × (bare_host shouted ≡ bare_host plain)
        × (bare_path shouted ≡ bare_path plain))
normalize-eq_iff_example =
    normalize-eq_iff shouted shouted-IsUrl (codes " ") (codes "/") (codes "  ") plain plain-IsUrl []
      [] [] (refl, tt) (refl, tt) (refl, (refl, tt)) tt tt tt

-- The two spellings are indeed of one ingest.
same_host : bare_host shouted ≡ bare_host plain
unfolding drop_default_port lower_ascii str_eq
same_host = refl

abbrev twitch : Endpoint
twitch = record (make_default (codes "1") (codes "Twitch")) {
  server_url = codes "rtmp://live.twitch.tv/app";
  stream_key = codes "k1";
}

abbrev twitch_again : Endpoint
twitch_again = record twitch { id = codes "2"; name = codes "Again" }

abbrev main_target : StreamTarget
main_target = record {
  server_url = codes "rtmp://a.rtmp.youtube.com/live2";
  stream_key = codes "yt";
}

abbrev loud : StreamTarget
loud = record { server_url = codes " RTMP://Live.TV:1935/app/  "; stream_key = codes " k1" }

abbrev quiet : StreamTarget
quiet = record { server_url = codes "rtmp://live.tv/app"; stream_key = codes "k1" }

duplicate_spelled_iff_example : (is_duplicate_target loud quiet ≡ true) ↔ (
    (is_empty (trim loud.stream_key) ≡ false)
    × (trim loud.stream_key ≡ trim quiet.stream_key)
    × (bare_scheme shouted ≡ bare_scheme plain)
    × (bare_host shouted ≡ bare_host plain)
    × (bare_path shouted ≡ bare_path plain))
duplicate_spelled_iff_example =
    duplicate_spelled_iff loud quiet shouted shouted-IsUrl (codes " ") (codes "/") (codes "  ")
      plain plain-IsUrl [] [] [] refl refl (refl, tt) (refl, tt) (refl, (refl, tt)) tt tt tt

find_duplicate-Explains_example :
    let r = find_duplicate twitch (twitch ∷ twitch_again ∷ []) (some main_target) in
    Explains twitch (twitch ∷ twitch_again ∷ []) (some main_target) r.kind r.other_name
find_duplicate-Explains_example =
    find_duplicate-Explains twitch (twitch ∷ twitch_again ∷ []) (some main_target)

plan_no_duplicates_example :
    let plan = plan_linked_start (twitch ∷ twitch_again ∷ []) (some main_target) in
    All (λ e. is_linked e ≡ true) plan.to_start
    × NoClash plan.to_start
    × NotMain (some main_target) plan.to_start
plan_no_duplicates_example = plan_no_duplicates (twitch ∷ twitch_again ∷ []) (some main_target)

plan_serves_all_example :
    let plan = plan_linked_start (twitch ∷ twitch_again ∷ []) none in
    Served none plan.to_start twitch_again
    × (length plan.to_start + length plan.skipped_duplicates
        ≡ length (select_linked_for_start (twitch ∷ twitch_again ∷ [])))
plan_serves_all_example =
    plan_serves_all (twitch ∷ twitch_again ∷ []) none (Memᴰ.tail (Memᴰ.head refl)) refl

-- The second endpoint with one target is skipped.
one_started : length (plan_linked_start (twitch ∷ twitch_again ∷ []) none).to_start ≡ 1
unfolding plan_linked_start select_linked_for_start plan_loop plan_step find_duplicate
    is_duplicate_target trim normalize_server_url split_scheme lower_ascii join_parts
    drop_default_port str_eq
one_started = refl
