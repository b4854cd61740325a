-- ===== src/Settings/Discovery.antt =====
-- Lines 65 to 168 of the table in internal/agentcore/sysconfig/settings_definitions.go.
use labtether_linux.Base.{List, [], ◌∷◌, true}
use labtether_linux.Base.Text.{codes}
use labtether_linux.Settings.Keys.{
  key_collect_interval_sec, key_docker_discovery_interval_sec, key_docker_enabled,
  key_docker_endpoint, key_heartbeat_interval_sec, key_services_discovery_docker_enabled,
  key_services_discovery_port_scan_enabled, key_services_discovery_proxy_caddy_enabled,
  key_services_discovery_proxy_enabled, key_services_discovery_proxy_npm_enabled,
  key_services_discovery_proxy_traefik_enabled,
}
use labtether_linux.Settings.Definition.{
  Definition, zero_definition, int_setting, bool_setting, string_setting, enum_setting,
}

abbrev pub discovery_definitions : List Definition
discovery_definitions =
    record zero_definition {
      key = key_collect_interval_sec;
      label = codes "Collect Interval";
      description = codes "Telemetry collection interval in seconds.";
      kind = int_setting;
      default_value = codes "10";
      min_int = 2;
      max_int = 300;
      hub_managed = true;
    }
    ∷ record zero_definition {
      key = key_heartbeat_interval_sec;
      label = codes "Heartbeat Interval";
      description = codes "Heartbeat publish interval in seconds.";
      kind = int_setting;
      default_value = codes "20";
      min_int = 5;
      max_int = 600;
      hub_managed = true;
    }
    ∷ record zero_definition {
      key = key_docker_enabled;
      label = codes "Docker Enabled";
      description = codes "Docker collector mode: auto, enabled, or disabled.";
      kind = enum_setting;
      default_value = codes "auto";
      allowed_values = codes "auto" ∷ codes "true" ∷ codes "false" ∷ [];
      hub_managed = true;
      restart_required = true;
    }
    ∷ record zero_definition {
      key = key_docker_endpoint;
      label = codes "Docker Endpoint";
      description = codes "Docker endpoint path or URL.";
      kind = string_setting;
      default_value = codes "/var/run/docker.sock";
      hub_managed = true;
      restart_required = true;
    }
    ∷ record zero_definition {
      key = key_docker_discovery_interval_sec;
      label = codes "Docker Discovery Interval";
      description = codes "Docker discovery/stats interval in seconds.";
      kind = int_setting;
      default_value = codes "30";
      min_int = 5;
      max_int = 3600;
      hub_managed = true;
      restart_required = true;
    }
    ∷ record zero_definition {
      key = key_services_discovery_docker_enabled;
      label = codes "Services: Docker Discovery Enabled";
      description =
          codes "When enabled, discover services from Docker container metadata and ports.";
      kind = bool_setting;
      default_value = codes "true";
      hub_managed = true;
      restart_required = true;
    }
    ∷ record zero_definition {
      key = key_services_discovery_proxy_enabled;
      label = codes "Services: Proxy API Discovery Enabled";
      description = codes "When enabled, query supported reverse-proxy APIs for routed services.";
      kind = bool_setting;
      default_value = codes "true";
      hub_managed = true;
      restart_required = true;
    }
    ∷ record zero_definition {
      key = key_services_discovery_proxy_traefik_enabled;
      label = codes "Services: Traefik API Discovery";
      description = codes "Include Traefik API routes in service discovery.";
      kind = bool_setting;
      default_value = codes "true";
      hub_managed = true;
      restart_required = true;
    }
    ∷ record zero_definition {
      key = key_services_discovery_proxy_caddy_enabled;
      label = codes "Services: Caddy API Discovery";
      description = codes "Include Caddy admin API routes in service discovery.";
      kind = bool_setting;
      default_value = codes "true";
      hub_managed = true;
      restart_required = true;
    }
    ∷ record zero_definition {
      key = key_services_discovery_proxy_npm_enabled;
      label = codes "Services: Nginx Proxy Manager API Discovery";
      description = codes "Include Nginx Proxy Manager API routes in service discovery.";
      kind = bool_setting;
      default_value = codes "true";
      hub_managed = true;
      restart_required = true;
    }
    ∷ record zero_definition {
      key = key_services_discovery_port_scan_enabled;
      label = codes "Services: Local Port Scan Enabled";
      description =
          codes
            "When enabled, probe local host ports for services not found via Docker/proxy APIs.";
      kind = bool_setting;
      default_value = codes "true";
      hub_managed = true;
      restart_required = true;
    }
    ∷ []
