-- ===== src/Settings/Keys.antt =====
-- The keys of internal/agentcore/sysconfig/settings_definitions.go.
use labtether_linux.Base.Text.{Text, codes}

abbrev pub key_collect_interval_sec : Text
key_collect_interval_sec = codes "collect_interval_sec"

abbrev pub key_heartbeat_interval_sec : Text
key_heartbeat_interval_sec = codes "heartbeat_interval_sec"

abbrev pub key_docker_enabled : Text
key_docker_enabled = codes "docker_enabled"

abbrev pub key_docker_endpoint : Text
key_docker_endpoint = codes "docker_endpoint"

abbrev pub key_docker_discovery_interval_sec : Text
key_docker_discovery_interval_sec = codes "docker_discovery_interval_sec"

abbrev pub key_services_discovery_docker_enabled : Text
key_services_discovery_docker_enabled = codes "services_discovery_docker_enabled"

abbrev pub key_services_discovery_proxy_enabled : Text
key_services_discovery_proxy_enabled = codes "services_discovery_proxy_enabled"

abbrev pub key_services_discovery_proxy_traefik_enabled : Text
key_services_discovery_proxy_traefik_enabled = codes "services_discovery_proxy_traefik_enabled"

abbrev pub key_services_discovery_proxy_caddy_enabled : Text
key_services_discovery_proxy_caddy_enabled = codes "services_discovery_proxy_caddy_enabled"

abbrev pub key_services_discovery_proxy_npm_enabled : Text
key_services_discovery_proxy_npm_enabled = codes "services_discovery_proxy_npm_enabled"

abbrev pub key_services_discovery_port_scan_enabled : Text
key_services_discovery_port_scan_enabled = codes "services_discovery_port_scan_enabled"

abbrev pub key_services_discovery_port_scan_include_listening : Text
key_services_discovery_port_scan_include_listening =
    codes "services_discovery_port_scan_include_listening"

abbrev pub key_services_discovery_port_scan_ports : Text
key_services_discovery_port_scan_ports = codes "services_discovery_port_scan_ports"

abbrev pub key_services_discovery_lan_scan_enabled : Text
key_services_discovery_lan_scan_enabled = codes "services_discovery_lan_scan_enabled"

abbrev pub key_services_discovery_lan_scan_cidrs : Text
key_services_discovery_lan_scan_cidrs = codes "services_discovery_lan_scan_cidrs"

abbrev pub key_services_discovery_lan_scan_ports : Text
key_services_discovery_lan_scan_ports = codes "services_discovery_lan_scan_ports"

abbrev pub key_services_discovery_lan_scan_max_hosts : Text
key_services_discovery_lan_scan_max_hosts = codes "services_discovery_lan_scan_max_hosts"

abbrev pub key_files_root_mode : Text
key_files_root_mode = codes "files_root_mode"

abbrev pub key_webrtc_enabled : Text
key_webrtc_enabled = codes "webrtc_enabled"

abbrev pub key_webrtc_stun_url : Text
key_webrtc_stun_url = codes "webrtc_stun_url"

abbrev pub key_webrtc_turn_url : Text
key_webrtc_turn_url = codes "webrtc_turn_url"

abbrev pub key_webrtc_turn_user : Text
key_webrtc_turn_user = codes "webrtc_turn_user"

abbrev pub key_webrtc_turn_pass : Text
key_webrtc_turn_pass = codes "webrtc_turn_pass"

abbrev pub key_webrtc_wayland_experimental_enabled : Text
key_webrtc_wayland_experimental_enabled = codes "webrtc_wayland_experimental_enabled"

abbrev pub key_webrtc_wayland_pipewire_node_id : Text
key_webrtc_wayland_pipewire_node_id = codes "webrtc_wayland_pipewire_node_id"

abbrev pub key_webrtc_wayland_input_backend : Text
key_webrtc_wayland_input_backend = codes "webrtc_wayland_input_backend"

abbrev pub key_capture_fps : Text
key_capture_fps = codes "capture_fps"

abbrev pub key_allow_remote_overrides : Text
key_allow_remote_overrides = codes "allow_remote_overrides"

abbrev pub key_log_level : Text
key_log_level = codes "log_level"

abbrev pub key_tls_skip_verify : Text
key_tls_skip_verify = codes "tls_skip_verify"

abbrev pub key_tls_ca_file : Text
key_tls_ca_file = codes "tls_ca_file"
