-- ===== src/Settings/Reported/Applied/Services.antt =====
-- The settings of the discovery of services, applied and reported: internal/agentcore/settings_runtime.go.
use labtether_linux.Base.{refl, ap, some, List, [], ◌∷◌, All, arith}
use labtether_linux.Base.Int.{pos}
use labtether_linux.Base.Decimal.{atoi}
use labtether_linux.Base.Text.{Text, text_eq, trim_space, to_lower, parse_bool}
use labtether_linux.Settings.Keys.{
  key_services_discovery_docker_enabled, key_services_discovery_proxy_enabled,
  key_services_discovery_proxy_traefik_enabled, key_services_discovery_proxy_caddy_enabled,
  key_services_discovery_proxy_npm_enabled, key_services_discovery_port_scan_enabled,
  key_services_discovery_port_scan_include_listening, key_services_discovery_port_scan_ports,
  key_services_discovery_lan_scan_enabled, key_services_discovery_lan_scan_cidrs,
  key_services_discovery_lan_scan_ports, key_services_discovery_lan_scan_max_hosts,
}
use labtether_linux.Settings.Values.{
  Packages, agent_setting_definition_by_key, find_definition, normalize_as, normalize_string,
  normalize_agent_setting_value,
}
use labtether_linux.Settings.Apply.Change.{switch}
use labtether_linux.Settings.Apply.Cases.{
  interval_and_docker_cases, service_cases, remote_cases, set_value,
}
use labtether_linux.Settings.Apply.File.{put_value}
use labtether_linux.Settings.Reported.{
  default_agent_setting_values, config_entries, set_entries, agent_setting_values_from_config,
  reported_agent_settings, find_value,
}
use labtether_linux.Settings.Reported.Rendered.{bool_field, int_field, text_field}
use labtether_linux.Settings.Reported.Applied.{IsReported}

abbrev pub service_keys : List Text
service_keys =
    key_services_discovery_docker_enabled ∷ key_services_discovery_proxy_enabled
    ∷ key_services_discovery_proxy_traefik_enabled ∷ key_services_discovery_proxy_caddy_enabled
    ∷ key_services_discovery_proxy_npm_enabled ∷ key_services_discovery_port_scan_enabled
    ∷ key_services_discovery_port_scan_include_listening ∷ key_services_discovery_port_scan_ports
    ∷ key_services_discovery_lan_scan_enabled ∷ key_services_discovery_lan_scan_cidrs
    ∷ key_services_discovery_lan_scan_ports ∷ key_services_discovery_lan_scan_max_hosts ∷ []

pub service_keys-IsReported : (net : Packages) → All (IsReported net) service_keys
unfolding set_value switch interval_and_docker_cases service_cases remote_cases put_value find_value
    default_agent_setting_values config_entries set_entries agent_setting_values_from_config
    reported_agent_settings agent_setting_definition_by_key find_definition normalize_as
    normalize_string normalize_agent_setting_value text_eq trim_space to_lower
service_keys-IsReported net = (
  (λ raw v b h p q. ap some (
      bool_field (λ c. c.services_discovery_docker_enabled)
        (λ x c. record c { services_discovery_docker_enabled = x }) (λ x c. refl)
        (parse_bool (trim_space raw)) v b h)),
  (
    (λ raw v b h p q. ap some (
        bool_field (λ c. c.services_discovery_proxy_enabled)
          (λ x c. record c { services_discovery_proxy_enabled = x }) (λ x c. refl)
          (parse_bool (trim_space raw)) v b h)),
    (
      (λ raw v b h p q. ap some (
          bool_field (λ c. c.services_discovery_proxy_traefik_enabled)
            (λ x c. record c { services_discovery_proxy_traefik_enabled = x }) (λ x c. refl)
            (parse_bool (trim_space raw)) v b h)),
      (
        (λ raw v b h p q. ap some (
            bool_field (λ c. c.services_discovery_proxy_caddy_enabled)
              (λ x c. record c { services_discovery_proxy_caddy_enabled = x }) (λ x c. refl)
              (parse_bool (trim_space raw)) v b h)),
        (
          (λ raw v b h p q. ap some (
              bool_field (λ c. c.services_discovery_proxy_npm_enabled)
                (λ x c. record c { services_discovery_proxy_npm_enabled = x }) (λ x c. refl)
                (parse_bool (trim_space raw)) v b h)),
          (
            (λ raw v b h p q. ap some (
                bool_field (λ c. c.services_discovery_port_scan_enabled)
                  (λ x c. record c { services_discovery_port_scan_enabled = x }) (λ x c. refl)
                  (parse_bool (trim_space raw)) v b h)),
            (
              (λ raw v b h p q. ap some (
                  bool_field (λ c. c.services_discovery_port_scan_include_listening)
                    (λ x c. record c { services_discovery_port_scan_include_listening = x })
                    (λ x c. refl) (parse_bool (trim_space raw)) v b h)),
              (
                (λ raw v b h p q. ap some (
                    text_field (λ c. c.services_discovery_port_scan_ports)
                      (λ x c. record c { services_discovery_port_scan_ports = x }) (λ x c. refl) v b
                      p)),
                (
                  (λ raw v b h p q. ap some (
                      bool_field (λ c. c.services_discovery_lan_scan_enabled)
                        (λ x c. record c { services_discovery_lan_scan_enabled = x }) (λ x c. refl)
                        (parse_bool (trim_space raw)) v b h)),
                  (
                    (λ raw v b h p q. ap some (
                        text_field (λ c. c.services_discovery_lan_scan_cidrs)
                          (λ x c. record c { services_discovery_lan_scan_cidrs = x }) (λ x c. refl)
                          v b p)),
                    (
                      (λ raw v b h p q. ap some (
                          text_field (λ c. c.services_discovery_lan_scan_ports)
                            (λ x c. record c { services_discovery_lan_scan_ports = x })
                            (λ x c. refl) v b p)),
                      (
                        (λ raw v b h p q. ap some (
                            int_field (λ c. c.services_discovery_lan_scan_max_hosts)
                              (λ x c. record c { services_discovery_lan_scan_max_hosts = x })
                              (λ x c. refl) (pos 64) 1 1024 (atoi (trim_space raw)) v b
                              (omega arith) (omega arith) (omega arith) h)),
                        tt,
                      ),
                    ),
                  ),
                ),
              ),
            ),
          ),
        ),
      ),
    ),
  ),
)
