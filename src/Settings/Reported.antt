-- ===== src/Settings/Reported.antt =====
-- What the agent reports of its settings: `AgentSettingValuesFromConfig` of
-- internal/agentcore/sysconfig/settings_values.go, of the configuration that
-- internal/agentcore/settings_runtime.go hands to it, and `ReportedAgentSettings`.
pub mod Rendered
pub mod Applied
pub mod Others
pub mod AppliedBatch
pub mod AfterApply
mod Tests
use labtether_linux.Base.{◌/◌, Option, none, some, List, [], ◌∷◌, if◌then◌else◌, map}
use labtether_linux.Base.Int.{ℤ, pos, negsuc, ltb_ℤ}
use labtether_linux.Base.Decimal.{itoa}
use labtether_linux.Base.Text.{Text, codes, text_eq, is_empty, trim_space, to_lower}
use labtether_linux.Settings.Keys.{
  key_collect_interval_sec, key_heartbeat_interval_sec, key_docker_enabled, key_docker_endpoint,
  key_docker_discovery_interval_sec, key_services_discovery_docker_enabled,
  key_services_discovery_proxy_enabled, key_services_discovery_proxy_traefik_enabled,
  key_services_discovery_proxy_caddy_enabled, key_services_discovery_proxy_npm_enabled,
  key_services_discovery_port_scan_enabled, key_services_discovery_port_scan_include_listening,
  key_services_discovery_port_scan_ports, key_services_discovery_lan_scan_enabled,
  key_services_discovery_lan_scan_cidrs, key_services_discovery_lan_scan_ports,
  key_services_discovery_lan_scan_max_hosts, key_files_root_mode, key_webrtc_enabled,
  key_webrtc_stun_url, key_webrtc_turn_url, key_webrtc_turn_user, key_webrtc_turn_pass,
  key_webrtc_wayland_experimental_enabled, key_webrtc_wayland_pipewire_node_id,
  key_webrtc_wayland_input_backend, key_capture_fps, key_tls_skip_verify, key_tls_ca_file,
  key_allow_remote_overrides, key_log_level,
}
use labtether_linux.Settings.Values.{agent_setting_definitions, format_bool}
use labtether_linux.Settings.Apply.Config.{RuntimeConfig, Runtime}
use labtether_linux.Settings.Apply.File.{Values, put_value}

-- `DefaultAgentSettingValues`
unfoldable pub default_agent_setting_values : Values
default_agent_setting_values = map (λ d. (d.key, d.default_value)) agent_setting_definitions

abbrev pub or_default : Text → Text → Text
or_default default v = if is_empty v then default else v

abbrev pub positive_or : ℤ → ℤ → ℤ
positive_or default z = if ltb_ℤ (pos 0) z then z else default

-- `DurationSeconds`, which counts the seconds as a floating-point number first: that is exact as long as a
-- duration is below some months.
abbrev pub duration_seconds : ℤ → ℤ
duration_seconds (pos n) = pos (n / 1000000000)
duration_seconds (negsuc n) = pos 0

-- A word, in lower case.
abbrev pub word : Text → Text → Text
word default v = or_default default (trim_space (to_lower v))

abbrev pub Entry : Type 0
Entry = Text × (RuntimeConfig → Text)

-- The entries that `AgentSettingValuesFromConfig` sets, in its order.
unfoldable pub config_entries : List Entry
config_entries =
    (key_collect_interval_sec, λ c. itoa (duration_seconds c.collect_interval))
    ∷ (key_heartbeat_interval_sec, λ c. itoa (duration_seconds c.heartbeat_interval))
    ∷ (key_docker_enabled, λ c. word (codes "auto") c.docker_enabled)
    ∷ (
      key_docker_endpoint,
      λ c. or_default (codes "/var/run/docker.sock") (trim_space c.docker_socket),
    )
    ∷ (
      key_docker_discovery_interval_sec,
      λ c. itoa (duration_seconds (positive_or (pos 30000000000) c.docker_discovery_interval)),
    )
    ∷ (key_services_discovery_docker_enabled, λ c. format_bool c.services_discovery_docker_enabled)
    ∷ (key_services_discovery_proxy_enabled, λ c. format_bool c.services_discovery_proxy_enabled)
    ∷ (
      key_services_discovery_proxy_traefik_enabled,
      λ c. format_bool c.services_discovery_proxy_traefik_enabled,
    )
    ∷ (
      key_services_discovery_proxy_caddy_enabled,
      λ c. format_bool c.services_discovery_proxy_caddy_enabled,
    )
    ∷ (
      key_services_discovery_proxy_npm_enabled,
      λ c. format_bool c.services_discovery_proxy_npm_enabled,
    )
    ∷ (
      key_services_discovery_port_scan_enabled,
      λ c. format_bool c.services_discovery_port_scan_enabled,
    )
    ∷ (
      key_services_discovery_port_scan_include_listening,
      λ c. format_bool c.services_discovery_port_scan_include_listening,
    )
    ∷ (key_services_discovery_port_scan_ports, λ c. trim_space c.services_discovery_port_scan_ports)
    ∷ (
      key_services_discovery_lan_scan_enabled,
      λ c. format_bool c.services_discovery_lan_scan_enabled,
    )
    ∷ (key_services_discovery_lan_scan_cidrs, λ c. trim_space c.services_discovery_lan_scan_cidrs)
    ∷ (key_services_discovery_lan_scan_ports, λ c. trim_space c.services_discovery_lan_scan_ports)
    ∷ (
      key_services_discovery_lan_scan_max_hosts,
      λ c. itoa (positive_or (pos 64) c.services_discovery_lan_scan_max_hosts),
    )
    ∷ (key_files_root_mode, λ c. word (codes "home") c.file_root_mode)
    ∷ (key_webrtc_enabled, λ c. format_bool c.webrtc_enabled)
    ∷ (
      key_webrtc_stun_url,
      λ c. or_default (codes "stun:stun.l.google.com:19302") (trim_space c.webrtc_stun_url),
    )
    ∷ (key_webrtc_turn_url, λ c. trim_space c.webrtc_turn_url)
    ∷ (key_webrtc_turn_user, λ c. trim_space c.webrtc_turn_user)
    ∷ (key_webrtc_turn_pass, λ c. trim_space c.webrtc_turn_pass)
    ∷ (
      key_webrtc_wayland_experimental_enabled,
      λ c. format_bool c.webrtc_wayland_experimental_enabled,
    )
    ∷ (key_webrtc_wayland_pipewire_node_id, λ c. trim_space c.webrtc_wayland_pipewire_node_id)
    ∷ (key_webrtc_wayland_input_backend, λ c. word (codes "auto") c.webrtc_wayland_input_backend)
    ∷ (key_capture_fps, λ c. itoa (positive_or (pos 30) c.capture_fps))
    ∷ (key_tls_skip_verify, λ c. format_bool c.tls_skip_verify)
    ∷ (key_tls_ca_file, λ c. trim_space c.tls_ca_file)
    ∷ (key_allow_remote_overrides, λ c. format_bool c.allow_remote_overrides)
    ∷ (key_log_level, λ c. word (codes "info") c.log_level)
    ∷ []

unfoldable pub set_entries : List Entry → RuntimeConfig → Values → Values
set_entries [] c values = values
set_entries ((key, value) ∷ entries) c values =
    set_entries entries c (put_value key (value c) values)

-- `AgentSettingValuesFromConfig`
unfoldable pub agent_setting_values_from_config : RuntimeConfig → Values
agent_setting_values_from_config c = set_entries config_entries c default_agent_setting_values

-- `effectiveCollectIntervalSec` and `effectiveHeartbeatIntervalSec`
abbrev pub effective_sec : ℤ → ℤ → ℤ
effective_sec override interval =
    if ltb_ℤ (pos 0) override then override else duration_seconds interval

-- `ReportedAgentSettings`
unfoldable pub reported_agent_settings : Runtime → Values
reported_agent_settings r =
    put_value key_heartbeat_interval_sec
      (itoa (effective_sec r.heartbeat_interval_override r.cfg.heartbeat_interval))
      (put_value key_collect_interval_sec
        (itoa (effective_sec r.collect_interval_override r.cfg.collect_interval))
        (agent_setting_values_from_config r.cfg))

-- What a map holds under a key.
unfoldable pub find_value : Text → Values → Option Text
find_value key [] = none
find_value key ((k, v) ∷ values) =
    let rest = find_value key values in if text_eq k key then some v else rest

-- The entries of a map under other keys.
unfoldable pub without_key : Text → Values → Values
without_key key [] = []
without_key key ((k, v) ∷ values) =
    let rest = without_key key values in if text_eq k key then rest else (k, v) ∷ rest
