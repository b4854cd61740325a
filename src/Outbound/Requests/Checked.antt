-- ===== src/Outbound/Requests/Checked.antt =====
-- What `ValidateOutboundURL` lets through: pkg/securityruntime/outbound.go.
use labtether_linux.Base.{
  ◌≡◌, refl, sym, ap, subst, ◌∙◌, Bool, true, false, Option, none, some, arith, Bool-cases, inl,
  inr, ℕ, ◌≤◌,
}
use labtether_linux.Base.Int.{ℤ, pos, negsuc}
use labtether_linux.Base.Result.{Result, ok, err}
use labtether_linux.Base.Text.{Text, is_empty, trim_space}
use labtether_linux.Command.Env.{Env, parse_bool_env}
use labtether_linux.Outbound.Network.{Url, Network}
use labtether_linux.Outbound.Hosts.{
  normalize_hostname, outbound_allowlist_mode, outbound_allow_loopback, outbound_allow_private,
}
use labtether_linux.Outbound.Policy.{OutboundError, validate_outbound_host}
use labtether_linux.Outbound.Policy.Risk.{IsAccepted, validate_outbound_host_with_policy-IsAccepted}
use labtether_linux.Outbound.Requests.Schemes.{
  IsAllowedScheme, IsSecure, IsPrivateRule, plain_scheme, in_list-IsAllowedScheme,
  not_insecure-IsSecure, resolved_outbound_allow_private-IsPrivateRule,
}
use labtether_linux.Outbound.Requests.{
  validate_parsed_url, validate_outbound_url, resolved_outbound_allow_private,
  validate_outbound_dial_target, port_or, validate_outbound_host_port,
}

-- An accepted URL, with whether private hosts are allowed for it.
pub record IsChecked (net : Network) (env : Env) (u : Url) : Type 0 where
  pub allow_private : Bool
  pub absolute : u.is_abs ≡ true
  pub allowed : IsAllowedScheme env (plain_scheme u.scheme)
  pub secure : IsSecure env (plain_scheme u.scheme)
  pub private_rule : IsPrivateRule env (plain_scheme u.scheme) allow_private
  pub host :
      IsAccepted net env
        (normalize_hostname u.hostname)
        (parse_bool_env env outbound_allowlist_mode false)
        allow_private
        (parse_bool_env env outbound_allow_loopback false)

validate_parsed_url-IsChecked :
    (net : Network) (env : Env) (u : Url)
    → validate_parsed_url net env u ≡ none
    → IsChecked net env u
unfolding validate_parsed_url
validate_parsed_url-IsChecked net env u h = record {
  allow_private = resolved_outbound_allow_private env (plain_scheme u.scheme);
  absolute = ground (arith, h);
  allowed = in_list-IsAllowedScheme env (plain_scheme u.scheme) (ground (arith, h));
  secure = not_insecure-IsSecure env (plain_scheme u.scheme) (ground (arith, h));
  private_rule = resolved_outbound_allow_private-IsPrivateRule env u.scheme;
  host = validate_outbound_host_with_policy-IsAccepted net env u.hostname _ _ _ (ground (arith, h));
}

-- A URL that the policy accepts is what the parser makes of the trimmed text, and it is absolute. Its scheme, trimmed and
-- in lower case, is one of the configured ones (https and wss if there are none), or http or ws while insecure transport
-- is allowed; it is http or ws only while that is allowed. Its host was accepted under the settings, where private hosts
-- are allowed as the setting says, or, if it is not set, exactly for https and wss.
pub validate_outbound_url-IsChecked :
    (net : Network) (env : Env) (raw : Text) (u : Url)
    → validate_outbound_url net env raw ≡ ok u
    → (net.parse_url (trim_space raw) ≡ some u) × IsChecked net env u
unfolding validate_outbound_url
validate_outbound_url-IsChecked net env raw u h =
    go (net.parse_url (trim_space raw)) refl (ground (arith, h))
  where
    checked :
        (v : Url) (e : Option OutboundError)
        → validate_parsed_url net env v ≡ e
        → (elim e as (λ _. Result OutboundError Url) [ none ↦ ok v | some x ↦ err x ]) ≡ ok u
        → (v ≡ u) × IsChecked net env v
    checked v none q k = (ground (arith, k), validate_parsed_url-IsChecked net env v q)
    checked v (some x) q k = cc

    go :
        (o : Option Url)
        → net.parse_url (trim_space raw) ≡ o
        → (elim o as (λ _. Result OutboundError Url) [
          | none ↦ err OutboundError.invalid_url
          | some v ↦ elim (validate_parsed_url net env v) [ none ↦ ok v | some e ↦ err e ]
        ])
          ≡ ok u
        → (net.parse_url (trim_space raw) ≡ some u) × IsChecked net env u
    go none q k = cc
    go (some v) q k =
        let c = checked v (validate_parsed_url net env v) refl k in
        (q ∙ ap some c.0, subst (IsChecked net env) c.0 c.1)

-- An accepted dial target: a port of TCP, and a host that passed the policy, which here allows private hosts only by the
-- setting.
pub record IsTarget (net : Network) (env : Env) (host : Text) (port : ℤ) : Type 0 where
  pub number : ℕ
  pub is_port : port ≡ pos number
  pub low : 1 ≤ number
  pub high : number ≤ 65535
  pub accepted :
      IsAccepted net env
        (normalize_hostname host)
        (parse_bool_env env outbound_allowlist_mode false)
        (parse_bool_env env outbound_allow_private false)
        (parse_bool_env env outbound_allow_loopback false)

validate_outbound_dial_target-IsTarget :
    (net : Network) (env : Env) (host : Text) (port : ℤ)
    → validate_outbound_dial_target net env host port ≡ none
    → IsTarget net env host port
unfolding validate_outbound_dial_target validate_outbound_host
validate_outbound_dial_target-IsTarget net env host (negsuc n) h = ground (arith, h)
validate_outbound_dial_target-IsTarget net env host (pos n) h = record {
  number = n;
  is_port = refl;
  low = ground (arith, h);
  high = ground (arith, h);
  accepted = validate_outbound_host_with_policy-IsAccepted net env host _ _ _ (ground (arith, h));
}

-- A host and port that are accepted: the trimmed host and the number that the port's text says, or the fallback for a
-- blank one, from 1 to 65535, and the host passed the policy.
pub validate_outbound_host_port-IsTarget :
    (net : Network) (env : Env) (host port_raw : Text) (fallback : ℤ) (out_host : Text)
    (out_port : ℤ)
    → validate_outbound_host_port net env host port_raw fallback ≡ ok (out_host, out_port)
    → (out_host ≡ trim_space host)
      × (port_or fallback port_raw ≡ some out_port)
      × IsTarget net env out_host out_port
unfolding validate_outbound_host_port
validate_outbound_host_port-IsTarget net env host port_raw fallback out_host out_port h =
    elim (Bool-cases (is_empty (trim_space host))) [
      | inl blank ↦ ground (arith, blank, h)
      | inr named ↦ go (port_or fallback port_raw) refl (simp named at h)
    ]
  where
    made :
        (port : ℤ) (e : Option OutboundError)
        → validate_outbound_dial_target net env (trim_space host) port ≡ e
        → (elim e as (λ _. Result OutboundError (Text × ℤ)) [
          | none ↦ ok (trim_space host, port)
          | some x ↦ err x
        ])
          ≡ ok (out_host, out_port)
        → (out_host ≡ trim_space host) × (port ≡ out_port) × IsTarget net env (trim_space host) port
    made port (some x) q k = cc
    made port none q k =
        (cc, cc, validate_outbound_dial_target-IsTarget net env (trim_space host) port q)

    go :
        (o : Option ℤ)
        → port_or fallback port_raw ≡ o
        → (elim o as (λ _. Result OutboundError (Text × ℤ)) [
          | none ↦ err OutboundError.invalid_port
          | some port ↦ elim (validate_outbound_dial_target net env (trim_space host) port) [
            | none ↦ ok (trim_space host, port)
            | some e ↦ err e
          ]
        ])
          ≡ ok (out_host, out_port)
        → (out_host ≡ trim_space host)
          × (port_or fallback port_raw ≡ some out_port)
          × IsTarget net env out_host out_port
    go none q k = cc
    go (some port) q k =
        let m = made port (validate_outbound_dial_target net env (trim_space host) port) refl k in
        (
          m.0,
          q ∙ ap some m.1,
          subst (λ p. IsTarget net env p out_port) (sym m.0)
              (subst (IsTarget net env (trim_space host)) m.1 m.2),
        )
