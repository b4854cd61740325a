-- ===== src/Outbound/Policy/Risk.antt =====
-- What the check of a host lets through: pkg/securityruntime/outbound.go.
use labtether_linux.Base.{
  ◌≡◌, refl, ap, Bool, true, false, ◌&&◌, ◌||◌, not, Option, none, some, List, [], ◌∷◌, All, any,
  arith, Bool-cases, inl, inr,
}
use labtether_linux.Base.Text.{Text, codes, is_empty, equal_fold}
use labtether_linux.Command.Env.{Env}
use labtether_linux.Outbound.Network.{Ip, Network}
use labtether_linux.Outbound.Hosts.{
  normalize_hostname, is_private_ip_address, is_likely_private_hostname,
}
use labtether_linux.Outbound.Policy.{
  HostRisk, add_risk, add_risks, no_risk, risk_of_answer, resolved_host_risk, risk_or_guess,
  ip_risk, name_risk, host_risk_profile, validate_host_risk, is_allowlisted,
  validate_outbound_host_with_policy,
}

-- An address that the settings allow. Where loopback hosts are allowed, the check of a name does not look
-- at its private addresses.
abbrev pub Permitted : Bool → Bool → Option Ip → Type 0
Permitted allow_loopback allow_private none = Unit
Permitted allow_loopback allow_private (some ip) =
    ((ip.is_loopback && not allow_loopback) ≡ false)
    × ((is_private_ip_address ip && not allow_private && not allow_loopback) ≡ false)

-- How a host came to be let through: as an address, as the local host, by its name alone, since it does not
-- resolve, or by all addresses that it resolved to.
pub data IsJudged (net : Network) (host : Text) (allow_loopback allow_private : Bool) : Type 0 where
  literal :
      (ip : Ip)
      → net.parse_ip host ≡ some ip
      → (ip.is_loopback && not allow_loopback) ≡ false
      → (is_private_ip_address ip && not ip.is_loopback && not allow_private) ≡ false
      → IsJudged net host allow_loopback allow_private
  local :
      equal_fold host (codes "localhost") ≡ true
      → allow_loopback ≡ true
      → IsJudged net host allow_loopback allow_private
  guessed :
      resolved_host_risk net host ≡ none
      → (is_likely_private_hostname host && not allow_private) ≡ false
      → IsJudged net host allow_loopback allow_private
  resolved :
      (addrs : List (Option Ip))
      → net.lookup_ip_addrs (normalize_hostname host) ≡ some addrs
      → All (Permitted allow_loopback allow_private) addrs
      → IsJudged net host allow_loopback allow_private

-- The settings let this risk through.
abbrev IsCovered : Bool → Bool → HostRisk → Type 0
IsCovered allow_loopback allow_private risk =
    ((risk.loopback && not allow_loopback) ≡ false)
    × ((risk.private && not risk.loopback && not allow_private) ≡ false)

abbrev on_ip : (Ip → Bool) → Option Ip → Bool
on_ip p none = false
on_ip p (some ip) = p ip

abbrev is_risky : Ip → Bool
is_risky ip = ip.is_loopback || is_private_ip_address ip

-- The loop finds each risk that an address is.
loopback-add_risks :
    (addrs : List (Option Ip)) (risk : HostRisk)
    → (add_risks addrs risk).loopback ≡ (risk.loopback || any (on_ip (λ ip. ip.is_loopback)) addrs)
unfolding add_risks
loopback-add_risks [] risk = ground arith
loopback-add_risks (none ∷ addrs) risk = loopback-add_risks addrs risk
loopback-add_risks (some ip ∷ addrs) risk =
    ground (arith, loopback-add_risks addrs (add_risk ip risk))

private-add_risks :
    (addrs : List (Option Ip)) (risk : HostRisk)
    → (add_risks addrs risk).private ≡ (risk.private || any (on_ip is_risky) addrs)
unfolding add_risks
private-add_risks [] risk = ground arith
private-add_risks (none ∷ addrs) risk = private-add_risks addrs risk
private-add_risks (some ip ∷ addrs) risk =
    ground (arith, private-add_risks addrs (add_risk ip risk))

All-Permitted :
    (al ap : Bool) (addrs : List (Option Ip))
    → (any (on_ip (λ ip. ip.is_loopback)) addrs && not al) ≡ false
    → (any (on_ip is_risky) addrs && not ap && not al) ≡ false
    → All (Permitted al ap) addrs
All-Permitted al ap [] l p = tt
All-Permitted al ap (none ∷ addrs) l p = (tt, All-Permitted al ap addrs l p)
All-Permitted al ap (some ip ∷ addrs) l p = (
  (ground (arith, l), ground (arith, p)),
  All-Permitted al ap addrs (ground (arith, l)) (ground (arith, p)),
)

add_risks-Permitted :
    (al ap : Bool) (addrs : List (Option Ip))
    → IsCovered al ap (add_risks addrs no_risk)
    → All (Permitted al ap) addrs
add_risks-Permitted al ap addrs c =
    All-Permitted al ap addrs (ground (arith, c.0, loopback-add_risks addrs no_risk))
      (ground (arith, c.0, c.1, loopback-add_risks addrs no_risk, private-add_risks addrs no_risk))

validate_host_risk-IsCovered :
    (net : Network) (host : Text) (enforce allow_private allow_loopback listed : Bool)
    (risk : HostRisk)
    → validate_host_risk net host enforce allow_private allow_loopback listed risk ≡ none
    → IsCovered allow_loopback allow_private risk × ((enforce && not listed) ≡ false)
unfolding validate_host_risk
validate_host_risk-IsCovered net host enforce ap al listed risk h = ground arith

answer-IsJudged :
    (net : Network) (host : Text) (al ap : Bool) (answer : Option (List (Option Ip)))
    → net.lookup_ip_addrs (normalize_hostname host) ≡ answer
    → is_empty (normalize_hostname host) ≡ false
    → IsCovered al ap (risk_or_guess host (risk_of_answer answer))
    → IsJudged net host al ap
unfolding resolved_host_risk
answer-IsJudged net host al ap none q full c = guessed (simp (full, q) refl) (ground (arith, c.1))
answer-IsJudged net host al ap (some []) q full c =
    guessed (simp (full, q) refl) (ground (arith, c.1))
answer-IsJudged net host al ap (some (a ∷ addrs)) q full c =
    resolved (a ∷ addrs) q (add_risks-Permitted al ap (a ∷ addrs) c)

name_risk-IsJudged :
    (net : Network) (host : Text) (al ap : Bool)
    → IsCovered al ap (name_risk net host)
    → IsJudged net host al ap
unfolding name_risk resolved_host_risk
name_risk-IsJudged net host al ap c = elim (Bool-cases (equal_fold host (codes "localhost"))) [
  | inl here_ ↦ local here_ (ground (arith, here_, c.0))
  | inr other ↦ elim (Bool-cases (is_empty (normalize_hostname host))) [
    | inl blank ↦ guessed (simp blank refl) (ground (arith, other, blank, c.1))
    | inr full ↦
        answer-IsJudged net host al ap (net.lookup_ip_addrs (normalize_hostname host)) refl full
          (simp (other, full) at c)
  ]
]

host_risk_profile-IsJudged :
    (net : Network) (host : Text) (al ap : Bool)
    → IsCovered al ap (host_risk_profile net host)
    → IsJudged net host al ap
unfolding host_risk_profile
host_risk_profile-IsJudged net host al ap c = go (net.parse_ip host) refl c
  where
    go :
        (o : Option Ip)
        → net.parse_ip host ≡ o
        → IsCovered al ap
            (elim o as (λ _. HostRisk) [ some ip ↦ ip_risk ip | none ↦ name_risk net host ])
        → IsJudged net host al ap
    go none q c' = name_risk-IsJudged net host al ap c'
    go (some ip) q c' = literal ip q (ground (arith, c'.0)) (ground (arith, c'.0, c'.1))

-- An accepted host: it is judged, and the allow list, if it is on, names it.
pub record IsAccepted (net : Network) (env : Env) (host : Text)
    (enforce allow_private allow_loopback : Bool) : Type 0 where
  pub named : is_empty host ≡ false
  pub judged : IsJudged net host allow_loopback allow_private
  pub listed : (enforce && not (is_allowlisted net env host)) ≡ false

-- A host that the policy accepts was judged, under its normalized name, before: as an address that the settings allow; as
-- the local host, if loopback is allowed; by its name alone, if it does not resolve, and then it does not look private
-- unless that is allowed; or by all addresses that it resolved to, each of them allowed. And if the allow list is on, an entry
-- matches it.
pub validate_outbound_host_with_policy-IsAccepted :
    (net : Network) (env : Env) (raw : Text) (enforce allow_private allow_loopback : Bool)
    → validate_outbound_host_with_policy net env raw enforce allow_private allow_loopback ≡ none
    → IsAccepted net env (normalize_hostname raw) enforce allow_private allow_loopback
unfolding validate_outbound_host_with_policy
validate_outbound_host_with_policy-IsAccepted net env raw enforce ap al h =
    elim (Bool-cases (is_empty host)) [
      | inl blank ↦ ground (arith, blank, h)
      | inr named ↦
          let c =
            validate_host_risk-IsCovered net host enforce ap al
              (enforce && is_allowlisted net env host) (host_risk_profile net host)
              (simp named at h) in
          record {
            named = named;
            judged = host_risk_profile-IsJudged net host al ap c.0;
            listed = ground (arith, c.1);
          }
    ]
  where
    host : Text
    host = normalize_hostname raw
