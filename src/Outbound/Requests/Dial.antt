-- ===== src/Outbound/Requests/Dial.antt =====
-- Which addresses are dialled: pkg/securityruntime/outbound_http.go.
use labtether_linux.Base.{
  ◌≡◌, refl, Bool, false, ◌&&◌, not, Option, none, some, List, [], ◌∷◌, All, arith, Bool-cases, inl,
  inr,
}
use labtether_linux.Base.Text.{Text, is_empty}
use labtether_linux.Outbound.Network.{Ip, Network}
use labtether_linux.Outbound.Hosts.{normalize_hostname, is_private_ip_address}
use labtether_linux.Outbound.Policy.{OutboundError, validate_resolved_outbound_ip, validate_all}
use labtether_linux.Outbound.Requests.{
  dial_each, dial_checked, dial_name, dial_host, dial_split, dial_outbound_validated,
}

-- An address that the settings allow.
abbrev pub IsAllowedIp : Bool → Bool → Ip → Type 0
IsAllowedIp allow_loopback allow_private ip =
    ((ip.is_loopback && not allow_loopback) ≡ false)
    × ((is_private_ip_address ip && not allow_private) ≡ false)

abbrev AllowedIp? : Bool → Bool → Option Ip → Type 0
AllowedIp? al ap none = Unit
AllowedIp? al ap (some ip) = IsAllowedIp al ap ip

validate_all-Allowed :
    (al ap : Bool) (addrs : List (Option Ip))
    → validate_all al ap addrs ≡ none
    → All (AllowedIp? al ap) addrs
unfolding validate_all validate_resolved_outbound_ip
validate_all-Allowed al ap [] h = tt
validate_all-Allowed al ap (none ∷ addrs) h = (tt, validate_all-Allowed al ap addrs h)
validate_all-Allowed al ap (some ip ∷ addrs) h =
    ((ground (arith, h), ground (arith, h)), validate_all-Allowed al ap addrs (ground (arith, h)))

dial_each-Allowed :
    (answers : Ip → Bool) (al ap : Bool) (addrs : List (Option Ip))
    → All (AllowedIp? al ap) addrs
    → All (IsAllowedIp al ap) (dial_each answers addrs).tried
unfolding dial_each
dial_each-Allowed answers al ap [] a = tt
dial_each-Allowed answers al ap (none ∷ addrs) a = dial_each-Allowed answers al ap addrs a.1
dial_each-Allowed answers al ap (some ip ∷ addrs) a = elim (Bool-cases (answers ip)) [
  | inl yes_ ↦ rw yes_ (a.0, tt)
  | inr no_ ↦ rw no_ (a.0, dial_each-Allowed answers al ap addrs a.1)
]

dial_checked-Allowed :
    (answers : Ip → Bool) (al ap : Bool) (addrs : List (Option Ip)) (e : Option OutboundError)
    → validate_all al ap addrs ≡ e
    → All (IsAllowedIp al ap) (dial_checked answers addrs e).tried
dial_checked-Allowed answers al ap addrs (some x) q = tt
dial_checked-Allowed answers al ap addrs none q =
    dial_each-Allowed answers al ap addrs (validate_all-Allowed al ap addrs q)

dial_name-Allowed :
    (answers : Ip → Bool) (al ap : Bool) (answer : Option (List (Option Ip)))
    → All (IsAllowedIp al ap) (dial_name answers al ap answer).tried
dial_name-Allowed answers al ap none = tt
dial_name-Allowed answers al ap (some addrs) =
    dial_checked-Allowed answers al ap addrs (validate_all al ap addrs) refl

dial_host-Allowed :
    (net : Network) (answers : Ip → Bool) (al ap : Bool) (host : Text) (o : Option Ip)
    → All (IsAllowedIp al ap) (dial_host net answers al ap host o).tried
unfolding dial_host
dial_host-Allowed net answers al ap host none =
    dial_name-Allowed answers al ap (net.dial_lookup host)
dial_host-Allowed net answers al ap host (some ip) =
    dial_checked-Allowed answers al ap (some ip ∷ []) (validate_all al ap (some ip ∷ [])) refl

dial_split-Allowed :
    (net : Network) (answers : Ip → Bool) (al ap : Bool) (o : Option Text)
    → All (IsAllowedIp al ap) (dial_split net answers al ap o).tried
dial_split-Allowed net answers al ap none = tt
dial_split-Allowed net answers al ap (some raw) =
    elim (Bool-cases (is_empty (normalize_hostname raw))) [
      | inl blank ↦ rw blank tt
      | inr named ↦ rw named (
          dial_host-Allowed net answers al ap (normalize_hostname raw)
            (net.parse_ip (normalize_hostname raw)))
    ]

-- Every address that is dialled is allowed, whatever the name server answers at that moment and whatever it answered when the
-- URL was checked.
pub dial_outbound_validated-IsAllowedIp :
    (net : Network) (answers : Ip → Bool) (al ap : Bool) (address : Text)
    → All (IsAllowedIp al ap) (dial_outbound_validated net answers al ap address).tried
unfolding dial_outbound_validated
dial_outbound_validated-IsAllowedIp net answers al ap address =
    dial_split-Allowed net answers al ap (net.split_host_port address)
