-- ===== src/Settings/Values/Defaults.antt =====
-- The default values of the table in internal/agentcore/sysconfig/settings_definitions.go, put through
-- the check of settings_value_validation.go.
use labtether_linux.Base.{◌≡◌, refl, All, if◌then◌else◌}
use labtether_linux.Base.Result.{ok, err}
use labtether_linux.Base.Text.{Text, text_eq}
use labtether_linux.Settings.Keys.{key_webrtc_wayland_pipewire_node_id}
use labtether_linux.Settings.Values.{
  SettingError, Packages, agent_setting_definitions, normalize_agent_setting_value,
  agent_setting_definition_by_key, find_definition, normalize_as, normalize_string,
  normalize_docker_endpoint_value, normalize_int, normalize_enum,
  normalize_discovery_port_list_value, normalize_discovery_cidr_list_value,
}

-- Every default value of the table is accepted under its key and comes back unchanged, but the empty one of the
-- PipeWire node, which is refused as empty.
pub normalize_agent_setting_value-defaults :
    (net : Packages)
    → All
        (λ d. normalize_agent_setting_value net d.key d.default_value ≡ (
          if text_eq d.key key_webrtc_wayland_pipewire_node_id
          then err SettingError.cannot_be_empty
          else ok d.default_value))
        agent_setting_definitions
unfolding normalize_agent_setting_value agent_setting_definition_by_key find_definition normalize_as
    normalize_string normalize_docker_endpoint_value normalize_int normalize_enum
    normalize_discovery_port_list_value normalize_discovery_cidr_list_value
    labtether_linux.Base.Text.trim_space labtether_linux.Base.Text.to_lower
    labtether_linux.Base.Text.text_eq labtether_linux.Base.Text.equal_fold
    labtether_linux.Base.Text.has_prefix labtether_linux.Base.Text.parse_bool
    labtether_linux.Base.Decimal.atoi labtether_linux.Base.Decimal.itoa
normalize_agent_setting_value-defaults net = (
  refl,
  (
    refl,
    (
      refl,
      (
        refl,
        (
          refl,
          (
            refl,
            (
              refl,
              (
                refl,
                (
                  refl,
                  (
                    refl,
                    (
                      refl,
                      (
                        refl,
                        (
                          refl,
                          (
                            refl,
                            (
                              refl,
                              (
                                refl,
                                (
                                  refl,
                                  (
                                    refl,
                                    (
                                      refl,
                                      (
                                        refl,
                                        (
                                          refl,
                                          (
                                            refl,
                                            (
                                              refl,
                                              (
                                                refl,
                                                (
                                                  refl,
                                                  (
                                                    refl,
                                                    (refl, (refl, (refl, (refl, (refl, tt))))),
                                                  ),
                                                ),
                                              ),
                                            ),
                                          ),
                                        ),
                                      ),
                                    ),
                                  ),
                                ),
                              ),
                            ),
                          ),
                        ),
                      ),
                    ),
                  ),
                ),
              ),
            ),
          ),
        ),
      ),
    ),
  ),
)
