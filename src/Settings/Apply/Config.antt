-- ===== src/Settings/Apply/Config.antt =====
-- The part of the runtime that settings reach: `RuntimeConfig` and `Runtime` of
-- internal/agentcore/settings_runtime.go. Durations are counted in nanoseconds.
use labtether_linux.Base.{Bool, Option, List}
use labtether_linux.Base.Int.{ℤ}
use labtether_linux.Base.Text.{Text}

pub record RuntimeConfig : Type 0 where
  pub collect_interval : ℤ
  pub heartbeat_interval : ℤ
  pub docker_enabled : Text
  pub docker_socket : Text
  pub docker_discovery_interval : ℤ
  pub services_discovery_docker_enabled : Bool
  pub services_discovery_proxy_enabled : Bool
  pub services_discovery_proxy_traefik_enabled : Bool
  pub services_discovery_proxy_caddy_enabled : Bool
  pub services_discovery_proxy_npm_enabled : Bool
  pub services_discovery_port_scan_enabled : Bool
  pub services_discovery_port_scan_include_listening : Bool
  pub services_discovery_port_scan_ports : Text
  pub services_discovery_lan_scan_enabled : Bool
  pub services_discovery_lan_scan_cidrs : Text
  pub services_discovery_lan_scan_ports : Text
  pub services_discovery_lan_scan_max_hosts : ℤ
  pub file_root_mode : Text
  pub webrtc_enabled : Bool
  pub webrtc_stun_url : Text
  pub webrtc_turn_url : Text
  pub webrtc_turn_user : Text
  pub webrtc_turn_pass : Text
  pub webrtc_wayland_experimental_enabled : Bool
  pub webrtc_wayland_pipewire_node_id : Text
  pub webrtc_wayland_input_backend : Text
  pub capture_fps : ℤ
  pub tls_skip_verify : Bool
  pub tls_ca_file : Text
  pub allow_remote_overrides : Bool
  pub log_level : Text

-- `fingerprint` is that of the device identity, if there is one.
pub record Runtime : Type 0 where
  pub cfg : RuntimeConfig
  pub collect_interval_override : ℤ
  pub heartbeat_interval_override : ℤ
  pub base_collect_interval : ℤ
  pub base_heartbeat_interval : ℤ
  pub fingerprint : Option Text

-- The variables of the loop over the values.
pub record Batch : Type 0 where
  pub runtime : Runtime
  pub applied : List (Text × Text)
  pub restart_required : Bool
  pub needs_persisted_config_write : Bool
