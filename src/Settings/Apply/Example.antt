-- ===== src/Settings/Apply/Example.antt =====
-- A configuration to run internal/agentcore/settings_runtime.go on.
use labtether_linux.Base.{true, false, none, some, []}
use labtether_linux.Base.Int.{pos}
use labtether_linux.Base.Result.{err}
use labtether_linux.Base.Text.{codes}
use labtether_linux.Settings.Values.{SettingError, Packages}
use labtether_linux.Settings.Apply.Config.{RuntimeConfig, Runtime}
use labtether_linux.Settings.Apply.File.{Disk}

abbrev pub config : RuntimeConfig
config = record {
  collect_interval = pos 30000000000;
  heartbeat_interval = pos 15000000000;
  docker_enabled = codes "auto";
  docker_socket = codes "/var/run/docker.sock";
  docker_discovery_interval = pos 30000000000;
  services_discovery_docker_enabled = true;
  services_discovery_proxy_enabled = true;
  services_discovery_proxy_traefik_enabled = true;
  services_discovery_proxy_caddy_enabled = true;
  services_discovery_proxy_npm_enabled = true;
  services_discovery_port_scan_enabled = false;
  services_discovery_port_scan_include_listening = false;
  services_discovery_port_scan_ports = [];
  services_discovery_lan_scan_enabled = false;
  services_discovery_lan_scan_cidrs = [];
  services_discovery_lan_scan_ports = [];
  services_discovery_lan_scan_max_hosts = pos 64;
  file_root_mode = codes "home";
  webrtc_enabled = true;
  webrtc_stun_url = [];
  webrtc_turn_url = [];
  webrtc_turn_user = [];
  webrtc_turn_pass = [];
  webrtc_wayland_experimental_enabled = false;
  webrtc_wayland_pipewire_node_id = [];
  webrtc_wayland_input_backend = codes "auto";
  capture_fps = pos 30;
  tls_skip_verify = false;
  tls_ca_file = [];
  allow_remote_overrides = true;
  log_level = codes "info";
}

abbrev pub agent : Runtime
agent = record {
  cfg = config;
  collect_interval_override = pos 0;
  heartbeat_interval_override = pos 0;
  base_collect_interval = pos 30000000000;
  base_heartbeat_interval = pos 15000000000;
  fingerprint = none;
}

-- No prefix parses and no URL is allowed.
abbrev pub strict : Packages
strict = record {
  parse_prefix = λ t. none;
  sort_strings = λ ts. ts;
  http_endpoint = λ t. err SettingError.bad_endpoint;
}

abbrev pub disk : Disk
disk = record { has_path = true; payload = some []; writable = true }
