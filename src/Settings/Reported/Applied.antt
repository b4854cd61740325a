-- ===== src/Settings/Reported/Applied.antt =====
-- A value that is applied is reported: internal/agentcore/settings_runtime.go and
-- internal/agentcore/sysconfig/settings_values.go.
pub mod Services
pub mod Remote
use labtether_linux.Base.{◌≡◌, refl, ap, ◌&&◌, false, some, List, [], ◌∷◌, All, arith}
use labtether_linux.Base.Int.{pos}
use labtether_linux.Base.Result.{ok}
use labtether_linux.Base.Decimal.{atoi}
use labtether_linux.Base.Text.{Text, codes, text_eq, is_empty, trim_space, to_lower}
use labtether_linux.Settings.Keys.{
  key_collect_interval_sec, key_heartbeat_interval_sec, key_docker_enabled, key_docker_endpoint,
  key_docker_discovery_interval_sec,
}
use labtether_linux.Settings.Values.{
  Packages, agent_setting_definition_by_key, find_definition, normalize_as, normalize_string,
  normalize_agent_setting_value,
}
use labtether_linux.Settings.Apply.Config.{Batch}
use labtether_linux.Settings.Apply.Change.{switch}
use labtether_linux.Settings.Apply.Cases.{
  interval_and_docker_cases, service_cases, remote_cases, set_value,
}
use labtether_linux.Settings.Apply.File.{put_value}
use labtether_linux.Settings.Reported.{
  default_agent_setting_values, config_entries, set_entries, agent_setting_values_from_config,
  reported_agent_settings, find_value,
}
use labtether_linux.Settings.Reported.Rendered.{
  duration_field, interval_value, default_field, is_word, normalize_enum-IsWord, word_field,
}

-- What is said of each key.
abbrev pub IsReported : Packages → Text → Type 0
IsReported net key =
    (raw v : Text) (b : Batch)
    → normalize_agent_setting_value net key raw ≡ ok v
    → trim_space v ≡ v
    → (text_eq key key_docker_endpoint && is_empty v) ≡ false
    → find_value key (reported_agent_settings (set_value key v b).runtime) ≡ some v

abbrev pub interval_and_docker_keys : List Text
interval_and_docker_keys =
    key_collect_interval_sec ∷ key_heartbeat_interval_sec ∷ key_docker_enabled ∷ key_docker_endpoint
    ∷ key_docker_discovery_interval_sec ∷ []

pub interval_and_docker_keys-IsReported :
    (net : Packages) → All (IsReported net) interval_and_docker_keys
unfolding set_value switch interval_and_docker_cases service_cases remote_cases put_value find_value
    default_agent_setting_values config_entries set_entries agent_setting_values_from_config
    reported_agent_settings agent_setting_definition_by_key find_definition normalize_as
    normalize_string normalize_agent_setting_value text_eq trim_space to_lower
interval_and_docker_keys-IsReported net = (
  (λ raw v b h p q. ap some (
      interval_value _ 2 300 (atoi (trim_space raw)) v (omega arith) (omega arith) (omega arith)
        h)),
  (
    (λ raw v b h p q. ap some (
        interval_value _ 5 600 (atoi (trim_space raw)) v (omega arith) (omega arith) (omega arith)
          h)),
    (
      (λ raw v b h p q. ap some (
          word_field (λ c. c.docker_enabled) (λ x c. record c { docker_enabled = x }) (λ x c. refl)
            (codes "auto") v b
            (normalize_enum-IsWord (trim_space raw) _ v
              (is_word refl refl refl, (is_word refl refl refl, (is_word refl refl refl, tt))) h))),
      (
        (λ raw v b h p q. ap some (
            default_field (λ c. c.docker_socket) (λ x c. record c { docker_socket = x })
              (λ x c. refl) (codes "/var/run/docker.sock") v b p q)),
        (
          (λ raw v b h p q. ap some (
              duration_field (λ c. c.docker_discovery_interval)
                (λ x c. record c { docker_discovery_interval = x }) (λ x c. refl) (pos 30000000000)
                5 3600 (atoi (trim_space raw)) v b (omega arith) (omega arith) (omega arith) h)),
          tt,
        ),
      ),
    ),
  ),
)
