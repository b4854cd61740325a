-- ===== src/Outbound/Hosts.antt =====
-- Host names and the patterns of the allow list: pkg/securityruntime/outbound.go.
use labtether_linux.Base.{
  ℕ, Bool, true, false, ◌&&◌, ◌||◌, not, Option, none, some, List, [], ◌∷◌, ◌++◌, if◌then◌else◌,
  any, ◌==◌,
}
use labtether_linux.Base.Text.{
  Text, codes, trim_space, is_empty, to_lower, equal_fold, contains, has_prefix, has_suffix,
}
use labtether_linux.Command.Env.{Env, parse_csv_env}
use labtether_linux.Outbound.Network.{Ip, Network}

abbrev pub outbound_allowlist_mode : Text
outbound_allowlist_mode = codes "LABTETHER_OUTBOUND_ALLOWLIST_MODE"

abbrev pub outbound_allowed_hosts : Text
outbound_allowed_hosts = codes "LABTETHER_OUTBOUND_ALLOWED_HOSTS"

abbrev pub outbound_allow_private : Text
outbound_allow_private = codes "LABTETHER_OUTBOUND_ALLOW_PRIVATE"

abbrev pub outbound_allow_loopback : Text
outbound_allow_loopback = codes "LABTETHER_OUTBOUND_ALLOW_LOOPBACK"

abbrev pub outbound_allowed_schemes : Text
outbound_allowed_schemes = codes "LABTETHER_OUTBOUND_ALLOWED_SCHEMES"

abbrev pub allow_insecure_transport : Text
allow_insecure_transport = codes "LABTETHER_ALLOW_INSECURE_TRANSPORT"

abbrev pub default_allowed_outbound_schemes : List Text
default_allowed_outbound_schemes = codes "https" ∷ codes "wss" ∷ []

abbrev pub private_hostname_suffixes : List Text
private_hostname_suffixes =
    codes ".local" ∷ codes ".lan" ∷ codes ".home" ∷ codes ".internal" ∷ codes ".home.arpa" ∷ []

-- strings.TrimPrefix and strings.TrimSuffix by one character.
abbrev pub trim_first : ℕ → Text → Text
trim_first c [] = []
trim_first c (d ∷ s) = if d == c then s else d ∷ s

unfoldable pub trim_last : ℕ → Text → Text
trim_last c [] = []
trim_last c (d ∷ []) = if d == c then [] else d ∷ []
trim_last c (d ∷ e ∷ s) = d ∷ trim_last c (e ∷ s)

-- `normalizeHostname`
unfoldable pub normalize_hostname : Text → Text
normalize_hostname value =
    trim_last b'.' (trim_last b']' (trim_first b'[' (trim_space (to_lower value))))

abbrev pub or_text : Option Text → Text → Text
or_text none s = s
or_text (some t) s = t

-- `parseHostPattern` after its first check: the URL's host name, then the host without its port.
unfoldable pub without_url : Network → Text → Text
without_url net s =
    if contains s (codes "://")
    then (elim (net.parse_url s) [ none ↦ s | some u ↦ u.hostname ])
    else s

unfoldable pub without_port : Network → Text → Text
without_port net s = or_text (net.split_host_port s) s

unfoldable pub parse_host_pattern : Network → Text → Text
parse_host_pattern net value =
    let trimmed = trim_space (to_lower value) in
    let host = without_port net (without_url net trimmed) in
    if is_empty trimmed
    then []
    else if contains host (codes "/") && net.is_cidr host
    then host
    else normalize_hostname host

unfoldable pub host_patterns : Network → List Text → List Text
host_patterns net [] = []
host_patterns net (p ∷ ps) =
    let rest = host_patterns net ps in
    if is_empty (parse_host_pattern net p) then rest else parse_host_pattern net p ∷ rest

unfoldable pub parse_allowed_host_patterns : Network → Env → List Text
parse_allowed_host_patterns net env =
    host_patterns net (parse_csv_env env outbound_allowed_hosts [])

abbrev pub is_private_ip_address : Ip → Bool
is_private_ip_address ip = ip.is_private || ip.is_link_local_unicast || ip.is_link_local_multicast

abbrev pub has_any_suffix : Text → List Text → Bool
has_any_suffix host = any (λ suffix. has_suffix host suffix)

unfoldable pub is_likely_private_hostname : Text → Bool
is_likely_private_hostname host =
    if is_empty host
    then false
    else if not (contains host (codes "."))
    then true
    else has_any_suffix host private_hostname_suffixes

abbrev pub drop_two : Text → Text
drop_two (a ∷ b ∷ s) = s
drop_two s = s

abbrev pub ip_in_pattern : Network → Text → Option Ip → Bool
ip_in_pattern net pattern none = false
ip_in_pattern net pattern (some ip) = net.cidr_holds pattern ip

-- `hostMatchesPattern`
unfoldable pub host_matches_pattern : Network → Text → Text → Bool
host_matches_pattern net raw pattern =
    let host = normalize_hostname raw in
    if is_empty host || is_empty pattern
    then false
    else if contains pattern (codes "/")
    then ip_in_pattern net pattern (net.parse_ip host)
    else if has_prefix pattern (codes "*.")
    then (if is_empty (drop_two pattern)
        then false
        else has_suffix host (codes "." ++ drop_two pattern))
    else equal_fold host pattern
