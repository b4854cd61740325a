-- ===== src/Settings/Services.antt =====
-- Lines 169 to 267 of the table in internal/agentcore/sysconfig/settings_definitions.go.
use labtether_linux.Base.{List, [], ◌∷◌, true}
use labtether_linux.Base.Text.{codes}
use labtether_linux.Settings.Keys.{
  key_files_root_mode, key_services_discovery_lan_scan_cidrs,
  key_services_discovery_lan_scan_enabled, key_services_discovery_lan_scan_max_hosts,
  key_services_discovery_lan_scan_ports, key_services_discovery_port_scan_include_listening,
  key_services_discovery_port_scan_ports, key_webrtc_enabled, key_webrtc_stun_url,
  key_webrtc_turn_url, key_webrtc_turn_user,
}
use labtether_linux.Settings.Definition.{
  Definition, zero_definition, int_setting, bool_setting, string_setting, enum_setting,
}

abbrev pub services_definitions : List Definition
services_definitions =
    record zero_definition {
      key = key_services_discovery_port_scan_include_listening;
      label = codes "Services: Local Scan Include Listening Ports";
      description =
          codes "Augment configured local scan ports with currently listening TCP sockets.";
      kind = bool_setting;
      default_value = codes "true";
      hub_managed = true;
      restart_required = true;
    }
    ∷ record zero_definition {
      key = key_services_discovery_port_scan_ports;
      label = codes "Services: Local Scan Port List";
      description =
          codes "Optional comma/newline separated local port list. Empty uses built-in defaults.";
      kind = string_setting;
      default_value = codes "";
      hub_managed = true;
      restart_required = true;
    }
    ∷ record zero_definition {
      key = key_services_discovery_lan_scan_enabled;
      label = codes "Services: LAN CIDR Scan Enabled";
      description = codes "When enabled, probe configured CIDR ranges for web services.";
      kind = bool_setting;
      default_value = codes "false";
      hub_managed = true;
      restart_required = true;
    }
    ∷ record zero_definition {
      key = key_services_discovery_lan_scan_cidrs;
      label = codes "Services: LAN CIDR Ranges";
      description = codes "Comma/newline separated private CIDRs to scan when LAN scan is enabled.";
      kind = string_setting;
      default_value = codes "";
      hub_managed = true;
      restart_required = true;
    }
    ∷ record zero_definition {
      key = key_services_discovery_lan_scan_ports;
      label = codes "Services: LAN Scan Port List";
      description =
          codes "Optional comma/newline separated LAN port list. Empty uses built-in defaults.";
      kind = string_setting;
      default_value = codes "";
      hub_managed = true;
      restart_required = true;
    }
    ∷ record zero_definition {
      key = key_services_discovery_lan_scan_max_hosts;
      label = codes "Services: LAN Scan Host Cap";
      description = codes "Maximum number of LAN hosts probed per scan cycle.";
      kind = int_setting;
      default_value = codes "64";
      min_int = 1;
      max_int = 1024;
      hub_managed = true;
      restart_required = true;
    }
    ∷ record zero_definition {
      key = key_files_root_mode;
      label = codes "Files Root Mode";
      description = codes "File browser scope: home (sandboxed) or full (entire filesystem).";
      kind = enum_setting;
      default_value = codes "home";
      allowed_values = codes "home" ∷ codes "full" ∷ [];
      hub_managed = true;
      restart_required = true;
    }
    ∷ record zero_definition {
      key = key_webrtc_enabled;
      label = codes "WebRTC Enabled";
      description = codes "Enable WebRTC remote streaming when dependencies are available.";
      kind = bool_setting;
      default_value = codes "true";
      hub_managed = true;
      restart_required = true;
    }
    ∷ record zero_definition {
      key = key_webrtc_stun_url;
      label = codes "WebRTC STUN URL";
      description = codes "STUN server URL used for NAT traversal.";
      kind = string_setting;
      default_value = codes "stun:stun.l.google.com:19302";
      hub_managed = true;
    }
    ∷ record zero_definition {
      key = key_webrtc_turn_url;
      label = codes "WebRTC TURN URL";
      description = codes "Optional TURN server URL used when direct ICE fails.";
      kind = string_setting;
      default_value = codes "";
      hub_managed = true;
    }
    ∷ record zero_definition {
      key = key_webrtc_turn_user;
      label = codes "WebRTC TURN Username";
      description = codes "Optional TURN username.";
      kind = string_setting;
      default_value = codes "";
      hub_managed = true;
    }
    ∷ []
