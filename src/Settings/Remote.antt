-- ===== src/Settings/Remote.antt =====
-- Lines 268 to 348 of the table in internal/agentcore/sysconfig/settings_definitions.go.
use labtether_linux.Base.{List, [], ◌∷◌, true}
use labtether_linux.Base.Text.{codes}
use labtether_linux.Settings.Keys.{
  key_allow_remote_overrides, key_capture_fps, key_log_level, key_tls_ca_file, key_tls_skip_verify,
  key_webrtc_turn_pass, key_webrtc_wayland_experimental_enabled, key_webrtc_wayland_input_backend,
  key_webrtc_wayland_pipewire_node_id,
}
use labtether_linux.Settings.Definition.{
  Definition, zero_definition, int_setting, bool_setting, string_setting, enum_setting,
}

abbrev pub remote_definitions : List Definition
remote_definitions =
    record zero_definition {
      key = key_webrtc_turn_pass;
      label = codes "WebRTC TURN Password";
      description = codes "Optional TURN password.";
      kind = string_setting;
      default_value = codes "";
      hub_managed = true;
    }
    ∷ record zero_definition {
      key = key_webrtc_wayland_experimental_enabled;
      label = codes "Wayland WebRTC Experimental";
      description = codes "Enable the experimental Wayland real-desktop WebRTC backend on Linux.";
      kind = bool_setting;
      default_value = codes "false";
      hub_managed = true;
      restart_required = true;
    }
    ∷ record zero_definition {
      key = key_webrtc_wayland_pipewire_node_id;
      label = codes "Wayland PipeWire Node ID";
      description = codes "PipeWire node ID used by the experimental Wayland WebRTC backend.";
      kind = string_setting;
      default_value = codes "";
      hub_managed = true;
      restart_required = true;
    }
    ∷ record zero_definition {
      key = key_webrtc_wayland_input_backend;
      label = codes "Wayland Input Backend";
      description = codes "Input injector used by the experimental Wayland WebRTC backend.";
      kind = enum_setting;
      default_value = codes "auto";
      allowed_values = codes "auto" ∷ codes "none" ∷ codes "ydotool" ∷ [];
      hub_managed = true;
      restart_required = true;
    }
    ∷ record zero_definition {
      key = key_capture_fps;
      label = codes "Capture FPS";
      description = codes "Target capture frame rate for WebRTC sessions.";
      kind = int_setting;
      default_value = codes "30";
      min_int = 5;
      max_int = 120;
      hub_managed = true;
    }
    ∷ record zero_definition {
      key = key_tls_skip_verify;
      label = codes "TLS Skip Verify";
      description = codes "Skip TLS certificate verification (bootstrap use only).";
      kind = bool_setting;
      default_value = codes "false";
      restart_required = true;
      local_only = true;
    }
    ∷ record zero_definition {
      key = key_tls_ca_file;
      label = codes "TLS CA File";
      description = codes "Path to CA certificate PEM used to verify the hub TLS certificate.";
      kind = string_setting;
      default_value = codes "";
      restart_required = true;
      local_only = true;
    }
    ∷ record zero_definition {
      key = key_allow_remote_overrides;
      label = codes "Allow Remote Overrides";
      description = codes "Allow hub-side settings updates to be applied remotely.";
      kind = bool_setting;
      default_value = codes "true";
      local_only = true;
    }
    ∷ record zero_definition {
      key = key_log_level;
      label = codes "Log Level";
      description = codes "Agent log verbosity.";
      kind = enum_setting;
      default_value = codes "info";
      allowed_values = codes "debug" ∷ codes "info" ∷ codes "warn" ∷ codes "error" ∷ [];
      hub_managed = true;
    }
    ∷ []
