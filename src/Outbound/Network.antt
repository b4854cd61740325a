-- ===== src/Outbound/Network.antt =====
-- What pkg/securityruntime/outbound.go asks of the packages net and net/url, and of the name server.
use labtether_linux.Base.{Bool, Option, List}
use labtether_linux.Base.Text.{Text}

-- `net.IP`, as far as the policy asks; `text` is its text.
pub record Ip : Type 0 where
  pub is_loopback : Bool
  pub is_private : Bool
  pub is_link_local_unicast : Bool
  pub is_link_local_multicast : Bool
  pub text : Text

-- `url.URL`
pub record Url : Type 0 where
  pub is_abs : Bool
  pub scheme : Text
  pub hostname : Text

-- The functions of net and net/url; `cidr_holds` says whether a network, if the text is one, holds an
-- address. The name server answers each of the three lookups by itself: when the risk of a host is
-- judged, when its addresses are checked, and when it is dialled. An address may be missing in an answer.
pub record Network : Type 0 where
  pub parse_url : Text → Option Url
  pub split_host_port : Text → Option Text
  pub parse_ip : Text → Option Ip
  pub is_cidr : Text → Bool
  pub cidr_holds : Text → Ip → Bool
  pub lookup_ip_addrs : Text → Option (List (Option Ip))
  pub lookup_ip : Text → Option (List (Option Ip))
  pub dial_lookup : Text → Option (List (Option Ip))
