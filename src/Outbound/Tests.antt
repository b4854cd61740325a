-- ===== src/Outbound/Tests.antt =====
-- Runs of the outbound policy of pkg/securityruntime/outbound.go and outbound_http.go.
use labtether_linux.Base.{◌≡◌, refl, true, false, none, some, [], ◌∷◌, if◌then◌else◌, All}
use labtether_linux.Base.Int.{pos}
use labtether_linux.Base.Result.{ok}
use labtether_linux.Base.Text.{Text, codes, text_eq, trim_space}
use labtether_linux.Command.Env.{Env}
use labtether_linux.Outbound.Network.{Ip, Url, Network}
use labtether_linux.Outbound.Hosts.{normalize_hostname, trim_last}
use labtether_linux.Outbound.Policy.{
  add_risks, resolved_host_risk, name_risk, host_risk_profile, validate_host_risk,
  validate_outbound_host_with_policy, validate_outbound_host, validate_resolved_outbound_host,
  validate_resolved_outbound_ip, validate_all,
}
use labtether_linux.Outbound.Policy.Risk.{IsAccepted, validate_outbound_host_with_policy-IsAccepted}
use labtether_linux.Outbound.Requests.{
  validate_outbound_url, validate_parsed_url, lower_set, effective_allowed_outbound_schemes,
  resolved_outbound_allow_private, dial_outbound_validated, dial_host, validate_outbound_host_port,
  validate_outbound_dial_target, port_or,
}
use labtether_linux.Outbound.Requests.Checked.{
  IsChecked, IsTarget, validate_outbound_url-IsChecked, validate_outbound_host_port-IsTarget,
}
use labtether_linux.Outbound.Requests.Dial.{IsAllowedIp, dial_outbound_validated-IsAllowedIp}

abbrev lan_ip : Ip
lan_ip = record {
  is_loopback = false;
  is_private = true;
  is_link_local_unicast = false;
  is_link_local_multicast = false;
  text = codes "10.0.0.5";
}

abbrev public_ip : Ip
public_ip = record lan_ip { is_private = false; text = codes "198.51.100.7" }

abbrev local_ip : Ip
local_ip = record public_ip { is_loopback = true; text = codes "127.0.0.1" }

abbrev hub : Url
hub = record { is_abs = true; scheme = codes "HTTPS"; hostname = codes "hub.lan" }

-- `hub.lan` is on the private network, `x.org` is public, and when it is dialled it turns out to be the local host.
abbrev lan : Network
lan = record {
  parse_url = λ s. if text_eq s (codes "https://hub.lan") then some hub else none;
  split_host_port = λ s.
      if text_eq s (codes "x.org:80")
      then some (codes "x.org")
      else if text_eq s (codes "hub.lan:80")
      then some (codes "hub.lan")
      else none;
  parse_ip = λ s. none;
  is_cidr = λ s. false;
  cidr_holds = λ s ip. false;
  lookup_ip_addrs = λ s.
      if text_eq s (codes "hub.lan") then some (some lan_ip ∷ []) else some (some public_ip ∷ []);
  lookup_ip = λ s.
      if text_eq s (codes "hub.lan") then some (some lan_ip ∷ []) else some (some public_ip ∷ []);
  dial_lookup = λ s.
      if text_eq s (codes "hub.lan")
      then some (some lan_ip ∷ none ∷ [])
      else some (some public_ip ∷ some local_ip ∷ []);
}

abbrev unset : Env
unset = record { process = λ k. none; overrides = [] }

accepts_hub : validate_outbound_url lan unset (codes " https://hub.lan ") ≡ ok hub
unfolding validate_outbound_url validate_parsed_url lower_set labtether_linux.Base.Text.in_list
    effective_allowed_outbound_schemes resolved_outbound_allow_private normalize_hostname trim_last
    trim_space text_eq labtether_linux.Base.Text.to_lower labtether_linux.Base.Text.equal_fold
    host_risk_profile name_risk resolved_host_risk add_risks validate_resolved_outbound_host
    validate_all validate_resolved_outbound_ip validate_host_risk validate_outbound_host_with_policy
    labtether_linux.Command.Env.raw_env labtether_linux.Command.Env.lookup_env
    labtether_linux.Command.Env.assoc labtether_linux.Command.Env.parse_bool_env
    labtether_linux.Command.Env.parse_csv_env labtether_linux.Base.Text.parse_bool
accepts_hub = refl

accepts_host :
    validate_outbound_host_with_policy lan unset (codes "X.org.") false false false ≡ none
unfolding normalize_hostname trim_last trim_space text_eq labtether_linux.Base.Text.to_lower
    labtether_linux.Base.Text.equal_fold host_risk_profile name_risk resolved_host_risk add_risks
    validate_resolved_outbound_host validate_all validate_resolved_outbound_ip validate_host_risk
    validate_outbound_host_with_policy
accepts_host = refl

accepts_port :
    validate_outbound_host_port lan unset (codes " x.org") (codes "443") (pos 80)
    ≡ ok (codes "x.org", pos 443)
unfolding validate_outbound_host_port validate_outbound_dial_target validate_outbound_host
    labtether_linux.Base.Decimal.atoi normalize_hostname trim_last trim_space text_eq
    labtether_linux.Base.Text.to_lower labtether_linux.Base.Text.equal_fold host_risk_profile
    name_risk resolved_host_risk add_risks validate_resolved_outbound_host validate_all
    validate_resolved_outbound_ip validate_host_risk validate_outbound_host_with_policy
    labtether_linux.Command.Env.raw_env labtether_linux.Command.Env.lookup_env
    labtether_linux.Command.Env.assoc labtether_linux.Command.Env.parse_bool_env
    labtether_linux.Command.Env.parse_csv_env labtether_linux.Base.Text.parse_bool
accepts_port = refl

rebound_is_refused :
    (dial_outbound_validated lan (λ ip. true) false true (codes "x.org:80")).tried ≡ []
unfolding dial_outbound_validated dial_host validate_all validate_resolved_outbound_ip
    normalize_hostname trim_last trim_space text_eq labtether_linux.Base.Text.to_lower
rebound_is_refused = refl

validate_outbound_host_with_policy-IsAccepted_example :
    IsAccepted lan unset (normalize_hostname (codes "X.org.")) false false false
validate_outbound_host_with_policy-IsAccepted_example =
    validate_outbound_host_with_policy-IsAccepted lan unset (codes "X.org.") false false false
      accepts_host

validate_outbound_url-IsChecked_example :
    (lan.parse_url (trim_space (codes " https://hub.lan ")) ≡ some hub) × IsChecked lan unset hub
validate_outbound_url-IsChecked_example =
    validate_outbound_url-IsChecked lan unset (codes " https://hub.lan ") hub accepts_hub

validate_outbound_host_port-IsTarget_example :
    (codes "x.org" ≡ trim_space (codes " x.org"))
    × (port_or (pos 80) (codes "443") ≡ some (pos 443))
    × IsTarget lan unset (codes "x.org") (pos 443)
validate_outbound_host_port-IsTarget_example =
    validate_outbound_host_port-IsTarget lan unset (codes " x.org") (codes "443") (pos 80)
      (codes "x.org") (pos 443) accepts_port

dial_outbound_validated-IsAllowedIp_example :
    All
      (IsAllowedIp false true)
      (dial_outbound_validated lan (λ ip. true) false true (codes "hub.lan:80")).tried
dial_outbound_validated-IsAllowedIp_example =
    dial_outbound_validated-IsAllowedIp lan (λ ip. true) false true (codes "hub.lan:80")
