-- ===== src/Outbound/Requests.antt =====
-- The checks of URLs and ports in pkg/securityruntime/outbound.go, and the dialling of outbound_http.go.
pub mod Schemes
pub mod Checked
pub mod Dial
use labtether_linux.Base.{
  Bool, false, ◌&&◌, ◌||◌, not, Option, none, some, List, [], ◌∷◌, ◌++◌, if◌then◌else◌, any, leb,
  ltb,
}
use labtether_linux.Base.Int.{ℤ, pos, negsuc}
use labtether_linux.Base.Decimal.{atoi}
use labtether_linux.Base.Result.{Result, ok, err}
use labtether_linux.Base.Text.{
  Text, codes, text_eq, trim_space, is_empty, to_lower, equal_fold, in_list,
}
use labtether_linux.Command.Env.{Env, raw_env, parse_bool_env, parse_csv_env}
use labtether_linux.Outbound.Network.{Ip, Url, Network}
use labtether_linux.Outbound.Hosts.{
  normalize_hostname, outbound_allowlist_mode, outbound_allow_private, outbound_allow_loopback,
  outbound_allowed_schemes, allow_insecure_transport, default_allowed_outbound_schemes,
}
use labtether_linux.Outbound.Policy.{
  OutboundError, url_required, invalid_url, not_absolute, host_required, insecure_scheme,
  scheme_not_allowed, bad_address, not_resolved, invalid_port, validate_outbound_host,
  validate_outbound_host_with_policy, validate_all,
}

abbrev pub default_allow_private_for_scheme : Text → Bool
default_allow_private_for_scheme scheme =
    equal_fold (trim_space scheme) (codes "https") || equal_fold (trim_space scheme) (codes "wss")

-- `resolvedOutboundAllowPrivate`: a setting that is set decides, also if it is no truth value, and otherwise the
-- scheme.
unfoldable pub resolved_outbound_allow_private : Env → Text → Bool
resolved_outbound_allow_private env scheme =
    if is_empty (raw_env env outbound_allow_private)
    then default_allow_private_for_scheme scheme
    else parse_bool_env env outbound_allow_private false

-- `containsStringFold`
abbrev pub contains_string_fold : List Text → Text → Bool
contains_string_fold values candidate = any (λ v. equal_fold (trim_space v) candidate) values

abbrev pub with_scheme : Text → List Text → List Text
with_scheme scheme schemes =
    if contains_string_fold schemes scheme then schemes else schemes ++ (scheme ∷ [])

-- `effectiveAllowedOutboundSchemes`
unfoldable pub effective_allowed_outbound_schemes : Env → List Text
effective_allowed_outbound_schemes env =
    let schemes = parse_csv_env env outbound_allowed_schemes default_allowed_outbound_schemes in
    if parse_bool_env env allow_insecure_transport false
    then with_scheme (codes "ws") (with_scheme (codes "http") schemes)
    else schemes

-- `toSet` with strings.ToLower.
unfoldable pub lower_set : List Text → List Text
lower_set [] = []
lower_set (v ∷ vs) = if is_empty (to_lower v) then lower_set vs else to_lower v ∷ lower_set vs

abbrev pub is_insecure : Text → Bool
is_insecure scheme = text_eq scheme (codes "http") || text_eq scheme (codes "ws")

-- `ValidateOutboundURL` of a parsed URL.
unfoldable pub validate_parsed_url : Network → Env → Url → Option OutboundError
validate_parsed_url net env u =
    let scheme = to_lower (trim_space u.scheme) in
    if not u.is_abs
    then some not_absolute
    else if is_empty (trim_space u.hostname)
    then some host_required
    else if is_insecure scheme && not (parse_bool_env env allow_insecure_transport false)
    then some insecure_scheme
    else if not (in_list scheme (lower_set (effective_allowed_outbound_schemes env)))
    then some scheme_not_allowed
    else validate_outbound_host_with_policy net env u.hostname
        (parse_bool_env env outbound_allowlist_mode false)
        (resolved_outbound_allow_private env scheme)
        (parse_bool_env env outbound_allow_loopback false)

-- `ValidateOutboundURL`
unfoldable pub validate_outbound_url : Network → Env → Text → Result OutboundError Url
validate_outbound_url net env raw =
    if is_empty (trim_space raw) then err url_required else elim (net.parse_url (trim_space raw)) [
      | none ↦ err invalid_url
      | some u ↦ elim (validate_parsed_url net env u) [ none ↦ ok u | some e ↦ err e ]
    ]

-- `ValidateOutboundDialTarget`
unfoldable pub validate_outbound_dial_target : Network → Env → Text → ℤ → Option OutboundError
validate_outbound_dial_target net env host (negsuc n) =
    if is_empty (trim_space host) then some host_required else some invalid_port
validate_outbound_dial_target net env host (pos n) =
    if is_empty (trim_space host)
    then some host_required
    else if leb n 0 || ltb 65535 n
    then some invalid_port
    else validate_outbound_host net env host

abbrev pub port_or : ℤ → Text → Option ℤ
port_or fallback raw = if is_empty (trim_space raw) then some fallback else atoi (trim_space raw)

-- `ValidateOutboundHostPort`
unfoldable pub validate_outbound_host_port :
    Network → Env → Text → Text → ℤ → Result OutboundError (Text × ℤ)
validate_outbound_host_port net env host port_raw fallback_port =
    if is_empty (trim_space host)
    then err host_required
    else elim (port_or fallback_port port_raw) [
      | none ↦ err invalid_port
      | some port ↦ elim (validate_outbound_dial_target net env (trim_space host) port) [
        | none ↦ ok (trim_space host, port)
        | some e ↦ err e
      ]
    ]

-- What a dial does: the addresses that it tries in order, and the error if it never tries or none answers.
pub record Dialled : Type 0 where
  pub tried : List Ip
  pub error : Option OutboundError

-- The dials of the addresses in turn until one answers. A missing address cannot be dialled.
unfoldable pub dial_each : (Ip → Bool) → List (Option Ip) → Dialled
dial_each answers [] = record { tried = []; error = some not_resolved }
dial_each answers (none ∷ addrs) = dial_each answers addrs
dial_each answers (some ip ∷ addrs) =
    let rest = dial_each answers addrs in
    if answers ip
    then record { tried = ip ∷ []; error = none }
    else record { tried = ip ∷ rest.tried; error = rest.error }

abbrev pub refused : OutboundError → Dialled
refused e = record { tried = []; error = some e }

abbrev pub dial_checked : (Ip → Bool) → List (Option Ip) → Option OutboundError → Dialled
dial_checked answers addrs (some e) = refused e
dial_checked answers addrs none = dial_each answers addrs

abbrev pub dial_name : (Ip → Bool) → Bool → Bool → Option (List (Option Ip)) → Dialled
dial_name answers allow_loopback allow_private none = refused not_resolved
dial_name answers allow_loopback allow_private (some addrs) =
    dial_checked answers addrs (validate_all allow_loopback allow_private addrs)

-- The dial of a normalized host: as an address, or by its name.
unfoldable pub dial_host : Network → (Ip → Bool) → Bool → Bool → Text → Option Ip → Dialled
dial_host net answers allow_loopback allow_private host (some ip) =
    dial_checked answers (some ip ∷ []) (validate_all allow_loopback allow_private (some ip ∷ []))
dial_host net answers allow_loopback allow_private host none =
    dial_name answers allow_loopback allow_private (net.dial_lookup host)

abbrev pub dial_split : Network → (Ip → Bool) → Bool → Bool → Option Text → Dialled
dial_split net answers allow_loopback allow_private none = refused bad_address
dial_split net answers allow_loopback allow_private (some raw) =
    let host = normalize_hostname raw in
    if is_empty host
    then refused host_required
    else dial_host net answers allow_loopback allow_private host (net.parse_ip host)

-- `dialOutboundValidated`; `answers` says which addresses accept a connection.
unfoldable pub dial_outbound_validated : Network → (Ip → Bool) → Bool → Bool → Text → Dialled
dial_outbound_validated net answers allow_loopback allow_private address =
    dial_split net answers allow_loopback allow_private (net.split_host_port address)
