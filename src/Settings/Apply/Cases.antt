-- ===== src/Settings/Apply/Cases.antt =====
-- The cases of the switch of `applyAgentSettings`: internal/agentcore/settings_runtime.go.
use labtether_linux.Base.{true, false, List, [], ◌∷◌, ◌++◌}
use labtether_linux.Base.Text.{Text}
use labtether_linux.Settings.Keys.{
  key_capture_fps, key_allow_remote_overrides, key_log_level, key_files_root_mode,
  key_webrtc_enabled, key_webrtc_stun_url, key_webrtc_turn_url, key_webrtc_turn_user,
  key_webrtc_turn_pass, key_webrtc_wayland_experimental_enabled,
  key_webrtc_wayland_pipewire_node_id, key_webrtc_wayland_input_backend,
  key_services_discovery_port_scan_enabled, key_services_discovery_port_scan_include_listening,
  key_services_discovery_port_scan_ports, key_services_discovery_lan_scan_enabled,
  key_services_discovery_lan_scan_cidrs, key_services_discovery_lan_scan_ports,
  key_services_discovery_lan_scan_max_hosts, key_collect_interval_sec, key_heartbeat_interval_sec,
  key_docker_enabled, key_docker_endpoint, key_docker_discovery_interval_sec,
  key_services_discovery_docker_enabled, key_services_discovery_proxy_enabled,
  key_services_discovery_proxy_traefik_enabled, key_services_discovery_proxy_caddy_enabled,
  key_services_discovery_proxy_npm_enabled,
}
use labtether_linux.Settings.Apply.Config.{Batch}
use labtether_linux.Settings.Apply.Change.{
  int_of, bool_of, nanoseconds, same_int, same_bool, same_text, same_word, put_quietly,
  set_interval, set_field, Case, switch,
}

-- The first cases of the switch.
unfoldable pub interval_and_docker_cases : List Case
interval_and_docker_cases =
    (key_collect_interval_sec, set_interval true)
    ∷ (key_heartbeat_interval_sec, set_interval false)
    ∷ (
      key_docker_enabled,
      set_field (λ c x. same_word c.docker_enabled x) (λ v. v)
          (λ x c. record c { docker_enabled = x }),
    )
    ∷ (
      key_docker_endpoint,
      set_field (λ c x. same_text c.docker_socket x) (λ v. v)
          (λ x c. record c { docker_socket = x }),
    )
    ∷ (
      key_docker_discovery_interval_sec,
      set_field (λ c x. same_int c.docker_discovery_interval x) (λ v. nanoseconds (int_of v))
          (λ x c. record c { docker_discovery_interval = x }),
    )
    ∷ []

-- The cases of the discovery of services.
unfoldable pub service_cases : List Case
service_cases =
    (
      key_services_discovery_docker_enabled,
      set_field (λ c x. same_bool c.services_discovery_docker_enabled x) bool_of
          (λ x c. record c { services_discovery_docker_enabled = x }),
    )
    ∷ (
      key_services_discovery_proxy_enabled,
      set_field (λ c x. same_bool c.services_discovery_proxy_enabled x) bool_of
          (λ x c. record c { services_discovery_proxy_enabled = x }),
    )
    ∷ (
      key_services_discovery_proxy_traefik_enabled,
      set_field (λ c x. same_bool c.services_discovery_proxy_traefik_enabled x) bool_of
          (λ x c. record c { services_discovery_proxy_traefik_enabled = x }),
    )
    ∷ (
      key_services_discovery_proxy_caddy_enabled,
      set_field (λ c x. same_bool c.services_discovery_proxy_caddy_enabled x) bool_of
          (λ x c. record c { services_discovery_proxy_caddy_enabled = x }),
    )
    ∷ (
      key_services_discovery_proxy_npm_enabled,
      set_field (λ c x. same_bool c.services_discovery_proxy_npm_enabled x) bool_of
          (λ x c. record c { services_discovery_proxy_npm_enabled = x }),
    )
    ∷ (
      key_services_discovery_port_scan_enabled,
      set_field (λ c x. same_bool c.services_discovery_port_scan_enabled x) bool_of
          (λ x c. record c { services_discovery_port_scan_enabled = x }),
    )
    ∷ (
      key_services_discovery_port_scan_include_listening,
      set_field (λ c x. same_bool c.services_discovery_port_scan_include_listening x) bool_of
          (λ x c. record c { services_discovery_port_scan_include_listening = x }),
    )
    ∷ (
      key_services_discovery_port_scan_ports,
      set_field (λ c x. same_text c.services_discovery_port_scan_ports x) (λ v. v)
          (λ x c. record c { services_discovery_port_scan_ports = x }),
    )
    ∷ (
      key_services_discovery_lan_scan_enabled,
      set_field (λ c x. same_bool c.services_discovery_lan_scan_enabled x) bool_of
          (λ x c. record c { services_discovery_lan_scan_enabled = x }),
    )
    ∷ (
      key_services_discovery_lan_scan_cidrs,
      set_field (λ c x. same_text c.services_discovery_lan_scan_cidrs x) (λ v. v)
          (λ x c. record c { services_discovery_lan_scan_cidrs = x }),
    )
    ∷ (
      key_services_discovery_lan_scan_ports,
      set_field (λ c x. same_text c.services_discovery_lan_scan_ports x) (λ v. v)
          (λ x c. record c { services_discovery_lan_scan_ports = x }),
    )
    ∷ (
      key_services_discovery_lan_scan_max_hosts,
      set_field (λ c x. same_int c.services_discovery_lan_scan_max_hosts x) int_of
          (λ x c. record c { services_discovery_lan_scan_max_hosts = x }),
    )
    ∷ []

-- The cases of files and remote desktops, and the last ones.
unfoldable pub remote_cases : List Case
remote_cases =
    (
      key_files_root_mode,
      set_field (λ c x. same_word c.file_root_mode x) (λ v. v)
          (λ x c. record c { file_root_mode = x }),
    )
    ∷ (
      key_webrtc_enabled,
      set_field (λ c x. same_bool c.webrtc_enabled x) bool_of
          (λ x c. record c { webrtc_enabled = x }),
    )
    ∷ (
      key_webrtc_stun_url,
      set_field (λ c x. same_text c.webrtc_stun_url x) (λ v. v)
          (λ x c. record c { webrtc_stun_url = x }),
    )
    ∷ (
      key_webrtc_turn_url,
      set_field (λ c x. same_text c.webrtc_turn_url x) (λ v. v)
          (λ x c. record c { webrtc_turn_url = x }),
    )
    ∷ (
      key_webrtc_turn_user,
      set_field (λ c x. same_text c.webrtc_turn_user x) (λ v. v)
          (λ x c. record c { webrtc_turn_user = x }),
    )
    ∷ (
      key_webrtc_turn_pass,
      set_field (λ c x. same_text c.webrtc_turn_pass x) (λ v. v)
          (λ x c. record c { webrtc_turn_pass = x }),
    )
    ∷ (
      key_webrtc_wayland_experimental_enabled,
      set_field (λ c x. same_bool c.webrtc_wayland_experimental_enabled x) bool_of
          (λ x c. record c { webrtc_wayland_experimental_enabled = x }),
    )
    ∷ (
      key_webrtc_wayland_pipewire_node_id,
      set_field (λ c x. same_text c.webrtc_wayland_pipewire_node_id x) (λ v. v)
          (λ x c. record c { webrtc_wayland_pipewire_node_id = x }),
    )
    ∷ (
      key_webrtc_wayland_input_backend,
      set_field (λ c x. same_word c.webrtc_wayland_input_backend x) (λ v. v)
          (λ x c. record c { webrtc_wayland_input_backend = x }),
    )
    ∷ (
      key_capture_fps,
      set_field (λ c x. same_int c.capture_fps x) int_of (λ x c. record c { capture_fps = x }),
    )
    ∷ (
      key_allow_remote_overrides,
      (λ v b. put_quietly (record b.runtime.cfg { allow_remote_overrides = bool_of v }) b),
    )
    ∷ (key_log_level, (λ v b. put_quietly (record b.runtime.cfg { log_level = v }) b))
    ∷ []

-- The switch of the loop.
unfoldable pub set_value : Text → Text → Batch → Batch
set_value key = switch key (interval_and_docker_cases ++ (service_cases ++ remote_cases))
