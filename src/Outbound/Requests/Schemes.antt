-- ===== src/Outbound/Requests/Schemes.antt =====
-- The schemes that pkg/securityruntime/outbound.go lets through, and those for which private hosts are allowed.
use labtether_linux.Base.{
  ◌≡◌, ◌≢◌, refl, sym, ap, ◌∙◌, Bool, true, false, ◌&&◌, not, List, [], ◌∷◌, ◌++◌, arith,
  Bool-cases, inl, inr, ◌⊎◌, Some, here, there,
}
use labtether_linux.Base.Text.{
  Text, codes, text_eq, text_eq_iff, is_empty, trim_space, to_lower, equal_fold, in_list,
}
use labtether_linux.Base.Trim.{trim_space-to_lower, trim_space-trim_space, to_lower-to_lower}
use labtether_linux.Command.Env.{Env, parse_bool_env, parse_csv_env, raw_env}
use labtether_linux.Outbound.Hosts.{
  outbound_allow_private, outbound_allowed_schemes, allow_insecure_transport,
}
use labtether_linux.Outbound.Requests.{
  lower_set, contains_string_fold, with_scheme, effective_allowed_outbound_schemes, is_insecure,
  resolved_outbound_allow_private, default_allow_private_for_scheme,
}

-- The configured schemes, https and wss if there are none, have this one, up to the case of the letters; or it is http
-- or ws, and insecure transport is allowed.
abbrev pub IsAllowedScheme : Env → Text → Type 0
IsAllowedScheme env s =
    Some (λ v. to_lower v ≡ s)
      (parse_csv_env env outbound_allowed_schemes (codes "https" ∷ codes "wss" ∷ []))
    ⊎ (((s ≡ codes "http") ⊎ (s ≡ codes "ws"))
        × (parse_bool_env env allow_insecure_transport false ≡ true))

in_list-lower_set :
    (s : Text) (l : List Text) → in_list s (lower_set l) ≡ true → Some (λ v. to_lower v ≡ s) l
unfolding in_list lower_set
in_list-lower_set s [] h = cc
in_list-lower_set s (v ∷ l) h = elim (Bool-cases (is_empty (to_lower v))) [
  | inl gone ↦ there (in_list-lower_set s l (rw (gone, lower_set) at h))
  | inr kept ↦ elim (Bool-cases (text_eq (to_lower v) s)) [
    | inl same ↦ here ((text_eq_iff (to_lower v) s).0 same)
    | inr other ↦ there (in_list-lower_set s l (rw (kept, lower_set, in_list, other) at h))
  ]
]

Some-append :
    {P : Text → Type 0} (l : List Text) {x : Text} → Some P (l ++ (x ∷ [])) → Some P l ⊎ P x
Some-append [] (here p) = inr p
Some-append [] (there m) = elim m [ ]
Some-append (y ∷ l) (here p) = inl (here p)
Some-append (y ∷ l) (there m) = elim (Some-append l m) [ inl k ↦ inl (there k) | inr p ↦ inr p ]

Some-with_scheme :
    {P : Text → Type 0} (x : Text) (l : List Text) → Some P (with_scheme x l) → Some P l ⊎ P x
Some-with_scheme {P} x l m = elim (Bool-cases (contains_string_fold l x)) [
  | inl has ↦ inl (rw has at m)
  | inr new ↦ Some-append l (rw new at m)
]

pub in_list-IsAllowedScheme :
    (env : Env) (s : Text)
    → in_list s (lower_set (effective_allowed_outbound_schemes env)) ≡ true
    → IsAllowedScheme env s
unfolding effective_allowed_outbound_schemes
in_list-IsAllowedScheme env s h =
    go (in_list-lower_set s (effective_allowed_outbound_schemes env) h)
  where
    Is : Text → Type 0
    Is v = to_lower v ≡ s

    schemes : List Text
    schemes = parse_csv_env env outbound_allowed_schemes (codes "https" ∷ codes "wss" ∷ [])

    added :
        parse_bool_env env allow_insecure_transport false ≡ true
        → Some Is (with_scheme (codes "ws") (with_scheme (codes "http") schemes))
        → IsAllowedScheme env s
    added on m = elim (Some-with_scheme (codes "ws") (with_scheme (codes "http") schemes) m) [
      | inl k ↦ elim (Some-with_scheme (codes "http") schemes k) [
        | inl own ↦ inl own
        | inr http ↦ inr (inl (unfold to_lower in sym http), on)
      ]
      | inr ws ↦ inr (inr (unfold to_lower in sym ws), on)
    ]

    go : Some Is (effective_allowed_outbound_schemes env) → IsAllowedScheme env s
    go m = elim (Bool-cases (parse_bool_env env allow_insecure_transport false)) [
      | inl on ↦ added on (rw (effective_allowed_outbound_schemes, on) at m)
      | inr off ↦ inl (rw (effective_allowed_outbound_schemes, off) at m)
    ]

-- The scheme is neither http nor ws, or insecure transport is allowed.
abbrev pub IsSecure : Env → Text → Type 0
IsSecure env s =
    ((s ≢ codes "http") × (s ≢ codes "ws"))
    ⊎ (parse_bool_env env allow_insecure_transport false ≡ true)

pub not_insecure-IsSecure :
    (env : Env) (s : Text)
    → (is_insecure s && not (parse_bool_env env allow_insecure_transport false)) ≡ false
    → IsSecure env s
not_insecure-IsSecure env s h =
    elim (Bool-cases (parse_bool_env env allow_insecure_transport false)) [
      | inl on ↦ inr on
      | inr off ↦ inl (
        (λ e. ground (arith, off, h, (text_eq_iff s (codes "http")).1 e)),
        (λ e. ground (arith, off, h, (text_eq_iff s (codes "ws")).1 e)),
      )
    ]

-- Whether private hosts are allowed for a scheme: as the setting says, if it is set, and otherwise for https and wss
-- only.
abbrev pub IsPrivateRule : Env → Text → Bool → Type 0
IsPrivateRule env s allow =
    ((raw_env env outbound_allow_private ≢ [])
      × (allow ≡ parse_bool_env env outbound_allow_private false))
    ⊎ ((raw_env env outbound_allow_private ≡ [])
        × (((allow ≡ true) × ((s ≡ codes "https") ⊎ (s ≡ codes "wss")))
            ⊎ ((allow ≡ false) × (s ≢ codes "https") × (s ≢ codes "wss"))))

-- A scheme as `ValidateOutboundURL` compares it.
abbrev pub plain_scheme : Text → Text
plain_scheme s = to_lower (trim_space s)

plain_scheme_plain : (s : Text) → to_lower (trim_space (plain_scheme s)) ≡ plain_scheme s
plain_scheme_plain s =
    ap to_lower (trim_space-to_lower (trim_space s))
    ∙ to_lower-to_lower (trim_space (trim_space s))
    ∙ ap to_lower (trim_space-trim_space s)

empty_or_not : (t : Text) → ((is_empty t ≡ true) × (t ≡ [])) ⊎ ((is_empty t ≡ false) × (t ≢ []))
empty_or_not [] = inl (refl, refl)
empty_or_not (c ∷ t) = inr (refl, λ e. cc)

is_https :
    (s : Text)
    → equal_fold (trim_space (plain_scheme s)) (codes "https")
      ≡ text_eq (plain_scheme s) (codes "https")
unfolding equal_fold
is_https s =
    ap (λ t. text_eq t (to_lower (codes "https"))) (plain_scheme_plain s)
    ∙ (unfold to_lower in refl)

is_wss :
    (s : Text)
    → equal_fold (trim_space (plain_scheme s)) (codes "wss")
      ≡ text_eq (plain_scheme s) (codes "wss")
unfolding equal_fold
is_wss s =
    ap (λ t. text_eq t (to_lower (codes "wss"))) (plain_scheme_plain s) ∙ (unfold to_lower in refl)

default_private :
    (s : Text)
    → ((default_allow_private_for_scheme (plain_scheme s) ≡ true)
        × ((plain_scheme s ≡ codes "https") ⊎ (plain_scheme s ≡ codes "wss")))
      ⊎ ((default_allow_private_for_scheme (plain_scheme s) ≡ false)
          × (plain_scheme s ≢ codes "https")
          × (plain_scheme s ≢ codes "wss"))
default_private s = elim (Bool-cases (text_eq (plain_scheme s) (codes "https"))) [
  | inl https ↦ inl (rw (is_https s, https) refl, inl ((text_eq_iff _ _).0 https))
  | inr other ↦ elim (Bool-cases (text_eq (plain_scheme s) (codes "wss"))) [
    | inl wss ↦ inl (rw (is_https s, other, is_wss s, wss) refl, inr ((text_eq_iff _ _).0 wss))
    | inr neither ↦ inr (
      rw (is_https s, other, is_wss s, neither) refl,
      (λ e. cc ((text_eq_iff (plain_scheme s) (codes "https")).1 e, other)),
      (λ e. cc ((text_eq_iff (plain_scheme s) (codes "wss")).1 e, neither)),
    )
  ]
]

pub resolved_outbound_allow_private-IsPrivateRule :
    (env : Env) (s : Text)
    → IsPrivateRule env (plain_scheme s) (resolved_outbound_allow_private env (plain_scheme s))
resolved_outbound_allow_private-IsPrivateRule env s =
    unfold resolved_outbound_allow_private in
    (elim (empty_or_not (raw_env env outbound_allow_private)) [
      | inl (blank, none_set) ↦ inr (none_set, rw blank (default_private s))
      | inr (set, some_set) ↦ inl (some_set, rw set refl)
    ])
