-- ===== src/Settings/Values/Tests.antt =====
-- Runs of the checks in internal/agentcore/sysconfig/settings_value_validation.go.
use labtether_linux.Base.{◌≡◌, refl, none, All, if◌then◌else◌}
use labtether_linux.Base.Result.{ok, err}
use labtether_linux.Base.Text.{Text, text_eq, codes, trim_space}
use labtether_linux.Settings.Keys.{key_webrtc_wayland_pipewire_node_id}
use labtether_linux.Settings.Values.{
  SettingError, Packages, agent_setting_definitions, normalize_agent_setting_value,
  agent_setting_definition_by_key, find_definition, normalize_as, normalize_int,
  normalize_discovery_port_list_value, list_fields, add_ports, add_port, add_named, sort_ints,
  insert,
}
use labtether_linux.Settings.Values.Ports.{PortList, normalize_discovery_port_list_value-PortList}
use labtether_linux.Settings.Values.Kinds.{Accepted, normalize_agent_setting_value-ReadsBack}
use labtether_linux.Settings.Values.Defaults.{normalize_agent_setting_value-defaults}

-- No prefix parses and no URL is allowed.
abbrev strict : Packages
strict = record {
  parse_prefix = λ t. none;
  sort_strings = λ ts. ts;
  http_endpoint = λ t. err SettingError.bad_endpoint;
}

runs_ports :
    normalize_discovery_port_list_value (codes " 443, 80;8080 80 ") ≡ ok (codes "80,443,8080")
unfolding normalize_discovery_port_list_value list_fields add_ports add_port add_named sort_ints
    insert labtether_linux.Base.Text.trim_space labtether_linux.Base.Decimal.atoi
    labtether_linux.Base.Decimal.itoa labtether_linux.Base.Text.join
runs_ports = refl

runs_fps :
    normalize_agent_setting_value strict (codes " Capture_FPS") (codes " 060 ") ≡ ok (codes "60")
unfolding normalize_agent_setting_value agent_setting_definition_by_key find_definition normalize_as
    normalize_int labtether_linux.Base.Text.trim_space labtether_linux.Base.Text.to_lower
    labtether_linux.Base.Text.text_eq labtether_linux.Base.Decimal.atoi
    labtether_linux.Base.Decimal.itoa
runs_fps = refl

normalize_discovery_port_list_value-PortList_example :
    PortList (trim_space (codes " 443, 80;8080 80 ")) (codes "80,443,8080")
normalize_discovery_port_list_value-PortList_example =
    normalize_discovery_port_list_value-PortList (codes " 443, 80;8080 80 ") (codes "80,443,8080")
      runs_ports

normalize_agent_setting_value-ReadsBack_example : Accepted (codes " Capture_FPS") (codes "60")
normalize_agent_setting_value-ReadsBack_example =
    normalize_agent_setting_value-ReadsBack strict (codes " Capture_FPS") (codes " 060 ")
      (codes "60") runs_fps

normalize_agent_setting_value-defaults_example :
    All
      (λ d. normalize_agent_setting_value strict d.key d.default_value ≡ (
        if text_eq d.key key_webrtc_wayland_pipewire_node_id
        then err SettingError.cannot_be_empty
        else ok d.default_value))
      agent_setting_definitions
normalize_agent_setting_value-defaults_example = normalize_agent_setting_value-defaults strict
