-- ===== src/Settings/Values.antt =====
-- The check of a value: internal/agentcore/sysconfig/settings_value_validation.go.
pub mod Ports
pub mod Kinds
pub mod Defaults
mod Tests
use labtether_linux.Base.{
  ℕ, Bool, true, false, ◌&&◌, ◌||◌, not, Option, none, some, List, [], ◌∷◌, ◌++◌, if◌then◌else◌,
  ltb, leb, ◌==◌, map, any, take, drop,
}
use labtether_linux.Base.Int.{ℤ, pos, negsuc, ltb_ℤ}
use labtether_linux.Base.Result.{Result, ok, err, ◌>>=◌}
use labtether_linux.Base.Text.{
  Text, text_eq, trim_space, to_lower, equal_fold, is_empty, join, codes, with_field, has_prefix,
  parse_bool, in_list,
}
use labtether_linux.Base.Decimal.{atoi, itoa}
use labtether_linux.Settings.Definition.{
  Definition, SettingType, no_setting, string_setting, int_setting, bool_setting, enum_setting,
}
use labtether_linux.Settings.Discovery.{discovery_definitions}
use labtether_linux.Settings.Services.{services_definitions}
use labtether_linux.Settings.Remote.{remote_definitions}
use labtether_linux.Settings.Keys.{
  key_docker_endpoint, key_webrtc_turn_url, key_webrtc_turn_user, key_webrtc_turn_pass,
  key_tls_ca_file, key_services_discovery_port_scan_ports, key_services_discovery_lan_scan_ports,
  key_services_discovery_lan_scan_cidrs,
}

pub data SettingError : Type 0 where
  unknown_key cannot_be_empty not_a_number too_small too_large not_a_bool not_allowed
        unsupported_type bad_port bad_cidr unsupported_cidr public_cidr bad_endpoint :
      SettingError

-- `netip.Prefix`, as far as it is asked: `text` is its masked form.
pub record Prefix : Type 0 where
  pub is4 : Bool
  pub is6 : Bool
  pub is_loopback : Bool
  pub is_private : Bool
  pub is_link_local : Bool
  pub text : Text

-- The packages netip and sort, and what becomes of an http URL.
pub record Packages : Type 0 where
  pub parse_prefix : Text → Option Prefix
  pub sort_strings : List Text → List Text
  pub http_endpoint : Text → Result SettingError Text

abbrev pub agent_setting_definitions : List Definition
agent_setting_definitions = discovery_definitions ++ services_definitions ++ remote_definitions

-- A later entry of a key replaces an earlier one.
unfoldable pub find_definition : Text → List Definition → Option Definition
find_definition key [] = none
find_definition key (d ∷ ds) = elim (find_definition key ds) [
  | some e ↦ some e
  | none ↦ if text_eq d.key key then some d else none
]

unfoldable pub agent_setting_definition_by_key : Text → Option Definition
agent_setting_definition_by_key key =
    find_definition (trim_space (to_lower key)) agent_setting_definitions

abbrev pub is_list_separator : ℕ → Bool
is_list_separator c = c == b',' || c == b';' || c == b' ' || c == b'\n' || c == b'\t'

-- strings.FieldsFunc, with the field that is being read.
pub list_fields : Text → Text → List Text
list_fields current [] = with_field current []
list_fields current (c ∷ s) =
    let rest = list_fields [] s in
    let more = list_fields (current ++ (c ∷ [])) s in
    if is_list_separator c then with_field current rest else more

abbrev pub member : ℕ → List ℕ → Bool
member p = any (λ q. q == p)

abbrev pub port_in_range : Option ℤ → Option ℕ
port_in_range none = none
port_in_range (some (negsuc n)) = none
port_in_range (some (pos n)) = if leb 1 n && leb n 65535 then some n else none

abbrev pub port_of : Text → Option ℕ
port_of token = port_in_range (atoi token)

-- The ports with the one that a field names, or none if it names none.
pub add_named : Option ℕ → List ℕ → Option (List ℕ)
add_named none ports = none
add_named (some port) ports = if member port ports then some ports else some (ports ++ (port ∷ []))

pub add_port : Text → List ℕ → Option (List ℕ)
add_port field ports =
    let token = trim_space field in
    if is_empty token then some ports else add_named (port_of token) ports

pub add_ports : List Text → List ℕ → Option (List ℕ)
add_ports [] ports = some ports
add_ports (field ∷ fields) ports = elim (add_port field ports) [
  | none ↦ none
  | some next ↦ add_ports fields next
]

-- sort.Ints
pub insert : ℕ → List ℕ → List ℕ
insert x [] = x ∷ []
insert x (y ∷ ys) = if leb x y then x ∷ y ∷ ys else y ∷ insert x ys

pub sort_ints : List ℕ → List ℕ
sort_ints [] = []
sort_ints (x ∷ xs) = insert x (sort_ints xs)

abbrev pub comma : Text
comma = codes ","

abbrev pub port_text : ℕ → Text
port_text p = itoa (pos p)

-- `NormalizeDiscoveryPortListValue`
pub normalize_discovery_port_list_value : Text → Result SettingError Text
normalize_discovery_port_list_value raw =
    let value = trim_space raw in
    if is_empty value then ok [] else elim (add_ports (list_fields [] value) []) [
      | none ↦ err bad_port
      | some ports ↦ ok (join (map port_text (sort_ints ports)) comma)
    ]

-- `isPrivateOrLocalCIDR` of a valid prefix.
pub is_private_or_local_cidr : Prefix → Bool
is_private_or_local_cidr p =
    if p.is_loopback || p.is_private
    then true
    else if p.is4
    then p.is_link_local
    else p.is6 && p.is_link_local

pub add_cidr : Packages → Text → List Text → Result SettingError (List Text)
add_cidr net field cidrs =
    let token = trim_space field in
    if is_empty token then ok cidrs else elim (net.parse_prefix token) [
      | none ↦ err bad_cidr
      | some p ↦
          if not p.is4 && not p.is6
          then err unsupported_cidr
          else if not (is_private_or_local_cidr p)
          then err public_cidr
          else if in_list p.text cidrs
          then ok cidrs
          else ok (cidrs ++ (p.text ∷ []))
    ]

pub add_cidrs : Packages → List Text → List Text → Result SettingError (List Text)
add_cidrs net [] cidrs = ok cidrs
add_cidrs net (field ∷ fields) cidrs = add_cidr net field cidrs >>= add_cidrs net fields

-- `NormalizeDiscoveryCIDRListValue`
pub normalize_discovery_cidr_list_value : Packages → Text → Result SettingError Text
normalize_discovery_cidr_list_value net raw =
    let value = trim_space raw in
    if is_empty value
    then ok []
    else add_cidrs net (list_fields [] value) []
      >>= (λ cidrs. ok (join (net.sort_strings cidrs) comma))

-- The first two characters of a network path.
abbrev pub is_network_path : Text → Bool
is_network_path (a ∷ b ∷ s) = b == b'/' || b == 92
is_network_path s = false

abbrev pub docker_unix_scheme : Text
docker_unix_scheme = codes "unix://"

-- `TrimDockerUnixScheme`, when it finds the scheme.
pub trim_docker_unix_scheme : Text → Option Text
trim_docker_unix_scheme value =
    let trimmed = trim_space value in
    if equal_fold (take 7 trimmed) docker_unix_scheme
    then some (trim_space (drop 7 trimmed))
    else none

-- `normalizeDockerEndpointValue`
pub normalize_docker_endpoint_value : Packages → Text → Result SettingError Text
normalize_docker_endpoint_value net raw =
    let value = trim_space raw in
    if is_empty value
    then err cannot_be_empty
    else if has_prefix value (codes "/")
    then (if is_network_path value then err bad_endpoint else ok value)
    else elim (trim_docker_unix_scheme value) [
      | some path ↦
          if has_prefix path (codes "/") then ok (codes "unix://" ++ path) else err bad_endpoint
      | none ↦ net.http_endpoint value
    ]

-- A value of a string setting.
unfoldable pub normalize_string : Packages → Text → Text → Result SettingError Text
normalize_string net key value =
    if text_eq key key_docker_endpoint
    then normalize_docker_endpoint_value net value
    else if text_eq key key_webrtc_turn_url
        || text_eq key key_webrtc_turn_user
        || text_eq key key_webrtc_turn_pass
        || text_eq key key_tls_ca_file
    then ok value
    else if text_eq key key_services_discovery_port_scan_ports
        || text_eq key key_services_discovery_lan_scan_ports
    then normalize_discovery_port_list_value value
    else if text_eq key key_services_discovery_lan_scan_cidrs
    then normalize_discovery_cidr_list_value net value
    else if is_empty value
    then err cannot_be_empty
    else ok value

unfoldable pub normalize_int : ℕ → ℕ → Option ℤ → Result SettingError Text
normalize_int min_int max_int none = err not_a_number
normalize_int min_int max_int (some parsed) =
    if ltb 0 min_int && ltb_ℤ parsed (pos min_int)
    then err too_small
    else if ltb 0 max_int && ltb_ℤ (pos max_int) parsed
    then err too_large
    else ok (itoa parsed)

abbrev pub format_bool : Bool → Text
format_bool true = codes "true"
format_bool false = codes "false"

abbrev pub normalize_bool : Option Bool → Result SettingError Text
normalize_bool none = err not_a_bool
normalize_bool (some b) = ok (format_bool b)

unfoldable pub normalize_enum : Text → List Text → Result SettingError Text
normalize_enum value [] = err not_allowed
normalize_enum value (allowed ∷ rest) =
    if equal_fold value allowed then ok allowed else normalize_enum value rest

unfoldable pub normalize_as : Packages → Definition → Text → SettingType → Result SettingError Text
normalize_as net d value string_setting = normalize_string net d.key value
normalize_as net d value int_setting = normalize_int d.min_int d.max_int (atoi value)
normalize_as net d value bool_setting = normalize_bool (parse_bool value)
normalize_as net d value enum_setting = normalize_enum value d.allowed_values
normalize_as net d value no_setting = err unsupported_type

-- `NormalizeAgentSettingValue`
unfoldable pub normalize_agent_setting_value : Packages → Text → Text → Result SettingError Text
normalize_agent_setting_value net key raw = elim (agent_setting_definition_by_key key) [
  | none ↦ err unknown_key
  | some d ↦ normalize_as net d (trim_space raw) d.kind
]
