-- ===== src/Outbound/Policy.antt =====
-- The check of a host: pkg/securityruntime/outbound.go.
pub mod Risk
use labtether_linux.Base.{
  Bool, true, false, ◌&&◌, not, Option, none, some, List, [], ◌∷◌, if◌then◌else◌, any,
}
use labtether_linux.Base.Text.{Text, codes, is_empty, equal_fold}
use labtether_linux.Command.Env.{Env, parse_bool_env}
use labtether_linux.Outbound.Network.{Ip, Network}
use labtether_linux.Outbound.Hosts.{
  normalize_hostname, host_matches_pattern, parse_allowed_host_patterns, is_likely_private_hostname,
  is_private_ip_address, outbound_allowlist_mode, outbound_allow_private, outbound_allow_loopback,
}

pub data OutboundError : Type 0 where
  url_required invalid_url not_absolute host_required insecure_scheme scheme_not_allowed
        loopback_not_allowed private_not_allowed not_allowlisted resolves_to_loopback
        resolves_to_private bad_address not_resolved invalid_port :
      OutboundError

-- What a host is, as far as the policy minds: a loopback host, and a private one.
pub record HostRisk : Type 0 where
  pub loopback : Bool
  pub private : Bool

-- One address of the loop of `resolvedHostRisk`.
abbrev pub add_risk : Ip → HostRisk → HostRisk
add_risk ip risk =
    if ip.is_loopback
    then record { loopback = true; private = true }
    else if is_private_ip_address ip
    then record risk { private = true }
    else risk

unfoldable pub add_risks : List (Option Ip) → HostRisk → HostRisk
add_risks [] risk = risk
add_risks (none ∷ addrs) risk = add_risks addrs risk
add_risks (some ip ∷ addrs) risk = add_risks addrs (add_risk ip risk)

abbrev pub no_risk : HostRisk
no_risk = record { loopback = false; private = false }

abbrev pub risk_of_answer : Option (List (Option Ip)) → Option HostRisk
risk_of_answer none = none
risk_of_answer (some []) = none
risk_of_answer (some (a ∷ addrs)) = some (add_risks (a ∷ addrs) no_risk)

-- `resolvedHostRisk`, if the host resolves.
unfoldable pub resolved_host_risk : Network → Text → Option HostRisk
resolved_host_risk net raw =
    let host = normalize_hostname raw in
    if is_empty host then none else risk_of_answer (net.lookup_ip_addrs host)

abbrev pub risk_or_guess : Text → Option HostRisk → HostRisk
risk_or_guess host (some risk) = risk
risk_or_guess host none = record { loopback = false; private = is_likely_private_hostname host }

abbrev pub ip_risk : Ip → HostRisk
ip_risk ip =
    if ip.is_loopback
    then record { loopback = true; private = true }
    else record { loopback = false; private = is_private_ip_address ip }

unfoldable pub name_risk : Network → Text → HostRisk
name_risk net host =
    if equal_fold host (codes "localhost")
    then record { loopback = true; private = true }
    else risk_or_guess host (resolved_host_risk net host)

-- `hostRiskProfile`
unfoldable pub host_risk_profile : Network → Text → HostRisk
host_risk_profile net host = elim (net.parse_ip host) [
  | some ip ↦ ip_risk ip
  | none ↦ name_risk net host
]

-- `validateResolvedOutboundIP`, the error if any.
unfoldable pub validate_resolved_outbound_ip : Bool → Bool → Option Ip → Option OutboundError
validate_resolved_outbound_ip allow_loopback allow_private none = none
validate_resolved_outbound_ip allow_loopback allow_private (some ip) =
    if ip.is_loopback && not allow_loopback
    then some resolves_to_loopback
    else if is_private_ip_address ip && not allow_private
    then some resolves_to_private
    else none

abbrev pub first_error : Option OutboundError → Option OutboundError → Option OutboundError
first_error (some e) rest = some e
first_error none rest = rest

-- The loop over resolved addresses.
unfoldable pub validate_all : Bool → Bool → List (Option Ip) → Option OutboundError
validate_all allow_loopback allow_private [] = none
validate_all allow_loopback allow_private (ip ∷ ips) =
    first_error (validate_resolved_outbound_ip allow_loopback allow_private ip)
      (validate_all allow_loopback allow_private ips)

abbrev pub validate_answer : Bool → Bool → Option (List (Option Ip)) → Option OutboundError
validate_answer allow_loopback allow_private none = none
validate_answer allow_loopback allow_private (some ips) =
    validate_all allow_loopback allow_private ips

-- `validateResolvedOutboundHost`: a host that does not resolve passes.
unfoldable pub validate_resolved_outbound_host : Network → Bool → Bool → Text → Option OutboundError
validate_resolved_outbound_host net allow_loopback allow_private host = elim (net.parse_ip host) [
  | some ip ↦ validate_resolved_outbound_ip allow_loopback allow_private (some ip)
  | none ↦ validate_answer allow_loopback allow_private (net.lookup_ip host)
]

abbrev pub is_allowlisted : Network → Env → Text → Bool
is_allowlisted net env host =
    any (host_matches_pattern net host) (parse_allowed_host_patterns net env)

-- `validateOutboundHostWithPolicy` of a normalized host that is not empty; the last argument is whether the
-- allow list names it.
unfoldable pub validate_host_risk :
    Network → Text → Bool → Bool → Bool → Bool → HostRisk → Option OutboundError
validate_host_risk net host enforce_allowlist allow_private allow_loopback allowlisted risk =
    if risk.loopback
    then (if not allow_loopback
        then some loopback_not_allowed
        else if enforce_allowlist && not allowlisted
        then some not_allowlisted
        else none)
    else if risk.private
    then (if not allow_private
        then some private_not_allowed
        else if enforce_allowlist && not allowlisted
        then some not_allowlisted
        else none)
    else if not enforce_allowlist
    then validate_resolved_outbound_host net allow_loopback allow_private host
    else first_error (validate_resolved_outbound_host net allow_loopback allow_private host)
        (if allowlisted then none else some not_allowlisted)

-- `validateOutboundHostWithPolicy`
unfoldable pub validate_outbound_host_with_policy :
    Network → Env → Text → Bool → Bool → Bool → Option OutboundError
validate_outbound_host_with_policy net env raw enforce_allowlist allow_private allow_loopback =
    let host = normalize_hostname raw in
    if is_empty host
    then some host_required
    else validate_host_risk net host enforce_allowlist allow_private allow_loopback
        (enforce_allowlist && is_allowlisted net env host) (host_risk_profile net host)

-- `validateOutboundHost`
unfoldable pub validate_outbound_host : Network → Env → Text → Option OutboundError
validate_outbound_host net env host =
    validate_outbound_host_with_policy net env host
      (parse_bool_env env outbound_allowlist_mode false)
      (parse_bool_env env outbound_allow_private false)
      (parse_bool_env env outbound_allow_loopback false)
