-- ===== src/Settings/Reported/Applied/Remote.antt =====
-- The settings of remote access, applied and reported: internal/agentcore/settings_runtime.go.
use labtether_linux.Base.{refl, ap, some, List, [], ◌∷◌, All, arith}
use labtether_linux.Base.Int.{pos}
use labtether_linux.Base.Decimal.{atoi}
use labtether_linux.Base.Text.{Text, codes, text_eq, trim_space, to_lower, parse_bool}
use labtether_linux.Settings.Keys.{
  key_files_root_mode, key_webrtc_enabled, key_webrtc_stun_url, key_webrtc_turn_url,
  key_webrtc_turn_user, key_webrtc_turn_pass, key_webrtc_wayland_experimental_enabled,
  key_webrtc_wayland_pipewire_node_id, key_webrtc_wayland_input_backend, key_capture_fps,
  key_log_level,
}
use labtether_linux.Settings.Values.{
  Packages, agent_setting_definition_by_key, find_definition, normalize_as, normalize_string,
  normalize_agent_setting_value,
}
use labtether_linux.Settings.Apply.Change.{switch}
use labtether_linux.Settings.Apply.Cases.{
  interval_and_docker_cases, service_cases, remote_cases, set_value,
}
use labtether_linux.Settings.Apply.File.{put_value}
use labtether_linux.Settings.Reported.{
  default_agent_setting_values, config_entries, set_entries, agent_setting_values_from_config,
  reported_agent_settings, find_value,
}
use labtether_linux.Settings.Reported.Rendered.{
  bool_field, int_field, text_field, default_field, is_word, normalize_enum-IsWord, word_lem,
  word_field,
}
use labtether_linux.Settings.Reported.Applied.{IsReported}

abbrev pub remote_keys : List Text
remote_keys =
    key_files_root_mode ∷ key_webrtc_enabled ∷ key_webrtc_stun_url ∷ key_webrtc_turn_url
    ∷ key_webrtc_turn_user ∷ key_webrtc_turn_pass ∷ key_webrtc_wayland_experimental_enabled
    ∷ key_webrtc_wayland_pipewire_node_id ∷ key_webrtc_wayland_input_backend ∷ key_capture_fps
    ∷ key_log_level ∷ []

pub remote_keys-IsReported : (net : Packages) → All (IsReported net) remote_keys
unfolding set_value switch interval_and_docker_cases service_cases remote_cases put_value find_value
    default_agent_setting_values config_entries set_entries agent_setting_values_from_config
    reported_agent_settings agent_setting_definition_by_key find_definition normalize_as
    normalize_string normalize_agent_setting_value text_eq trim_space to_lower
remote_keys-IsReported net = (
  (λ raw v b h p q. ap some (
      word_field (λ c. c.file_root_mode) (λ x c. record c { file_root_mode = x }) (λ x c. refl)
        (codes "home") v b
        (normalize_enum-IsWord (trim_space raw) _ v
          (is_word refl refl refl, (is_word refl refl refl, tt)) h))),
  (
    (λ raw v b h p q. ap some (
        bool_field (λ c. c.webrtc_enabled) (λ x c. record c { webrtc_enabled = x }) (λ x c. refl)
          (parse_bool (trim_space raw)) v b h)),
    (
      (λ raw v b h p q. ap some (
          default_field (λ c. c.webrtc_stun_url) (λ x c. record c { webrtc_stun_url = x })
            (λ x c. refl) (codes "stun:stun.l.google.com:19302") v b p (ground (arith, h)))),
      (
        (λ raw v b h p q. ap some (
            text_field (λ c. c.webrtc_turn_url) (λ x c. record c { webrtc_turn_url = x })
              (λ x c. refl) v b p)),
        (
          (λ raw v b h p q. ap some (
              text_field (λ c. c.webrtc_turn_user) (λ x c. record c { webrtc_turn_user = x })
                (λ x c. refl) v b p)),
          (
            (λ raw v b h p q. ap some (
                text_field (λ c. c.webrtc_turn_pass) (λ x c. record c { webrtc_turn_pass = x })
                  (λ x c. refl) v b p)),
            (
              (λ raw v b h p q. ap some (
                  bool_field (λ c. c.webrtc_wayland_experimental_enabled)
                    (λ x c. record c { webrtc_wayland_experimental_enabled = x }) (λ x c. refl)
                    (parse_bool (trim_space raw)) v b h)),
              (
                (λ raw v b h p q. ap some (
                    text_field (λ c. c.webrtc_wayland_pipewire_node_id)
                      (λ x c. record c { webrtc_wayland_pipewire_node_id = x }) (λ x c. refl) v b
                      p)),
                (
                  (λ raw v b h p q. ap some (
                      word_field (λ c. c.webrtc_wayland_input_backend)
                        (λ x c. record c { webrtc_wayland_input_backend = x }) (λ x c. refl)
                        (codes "auto") v b
                        (normalize_enum-IsWord (trim_space raw) _ v
                          (
                            is_word refl refl refl,
                            (is_word refl refl refl, (is_word refl refl refl, tt)),
                          )
                          h))),
                  (
                    (λ raw v b h p q. ap some (
                        int_field (λ c. c.capture_fps) (λ x c. record c { capture_fps = x })
                          (λ x c. refl) (pos 30) 5 120 (atoi (trim_space raw)) v b (omega arith)
                          (omega arith) (omega arith) h)),
                    (
                      (λ raw v b h p q. ap some (
                          word_lem (codes "info") v (
                            normalize_enum-IsWord (trim_space raw) _ v
                              (
                                is_word refl refl refl,
                                (
                                  is_word refl refl refl,
                                  (is_word refl refl refl, (is_word refl refl refl, tt)),
                                ),
                              )
                              h))),
                      tt,
                    ),
                  ),
                ),
              ),
            ),
          ),
        ),
      ),
    ),
  ),
)
