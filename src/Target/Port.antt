-- ===== src/Target/Port.antt =====
-- src/core/EndpointValidation.cpp: the default port of a scheme, described by itself.
use stream_multicast.Common.{
  ◌-◌, ◌≡◌, refl, sym, ap, ◌∙◌, inl, inr, ◌&&◌, ◌++◌, arith, if◌then◌else◌, ltb, length,
  length-append, Str, codes, str_eq, str_eq→eq, str_eq_iff, str_eq_refl, Bool-cases,
}
use stream_multicast.Common.Text.{take, ends_with, take-append_length}
use stream_multicast.Target.{drop_default_port}

-- RTMP has port 1935 and RTMPS port 443; a host that is nothing but the port keeps it.
abbrev cut_port : Str → Str → Str
cut_port port host =
    if ltb (length port) (length host) && ends_with port host
    then take (length host - length port) host
    else host

abbrev pub without_port : Str → Str → Str
without_port scheme host =
    if str_eq scheme (codes "rtmp")
    then cut_port (codes ":1935") host
    else if str_eq scheme (codes "rtmps")
    then cut_port (codes ":443") host
    else host

-- A scheme is compared with or without the "://" behind it.
str_eq-scheme : (s t : Str) → str_eq (s ++ codes "://") (t ++ codes "://") ≡ str_eq s t
str_eq-scheme s t = elim (Bool-cases (str_eq s t)) [
  | inl e ↦ rw (str_eq→eq s t e, str_eq_refl t, str_eq_refl (t ++ codes "://"))
  | inr e ↦ elim (Bool-cases (str_eq (s ++ codes "://") (t ++ codes "://"))) [
    | inr f ↦ f ∙ sym e
    | inl f ↦ absurd (
        ground (
          arith,
          e,
          (str_eq_iff s t).1 (
              sym (front_back s)
              ∙ ap (λ x. take (length x - 3) x) (str_eq→eq _ _ f)
              ∙ front_back t),
        ))
  ]
]
  where
    front_back : (x : Str) → take (length (x ++ codes "://") - 3) (x ++ codes "://") ≡ x
    front_back x =
        ap (λ n. take n (x ++ codes "://")) {x = length (x ++ codes "://") - 3} {y = length x}
          (omega (arith, length-append x (codes "://")))
        ∙ take-append_length x (codes "://")

pub drop_default_port_lem :
    (scheme host : Str) → drop_default_port (scheme ++ codes "://") host ≡ without_port scheme host
unfolding drop_default_port
drop_default_port_lem s host =
    rw (str_eq-scheme s (codes "rtmp"), str_eq-scheme s (codes "rtmps"))
      (elim (Bool-cases (str_eq s (codes "rtmp"))) [
        | inl e ↦ rw e refl
        | inr e ↦ elim (Bool-cases (str_eq s (codes "rtmps"))) [
          | inl f ↦ rw (e, f) refl
          | inr f ↦ rw (e, f) refl
        ]
      ])
