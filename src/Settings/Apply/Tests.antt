-- ===== src/Settings/Apply/Tests.antt =====
-- Runs of the application of settings: internal/agentcore/settings_runtime.go.
use labtether_linux.Base.{◌≡◌, refl, false, some, [], ◌∷◌}
use labtether_linux.Base.Int.{pos}
use labtether_linux.Base.Text.{Text, codes}
use labtether_linux.Settings.Values.{SettingError}
use labtether_linux.Settings.Apply.File.{Values}
use labtether_linux.Settings.Apply.Batch.{
  refused, apply_value, apply_values, put_values, redact_sensitive_agent_setting_values,
  apply_agent_settings, handle_agent_settings_apply, applied,
}
use labtether_linux.Settings.Apply.Example.{config, agent, strict, disk}
use labtether_linux.Settings.Apply.Kept.{Kept}
use labtether_linux.Settings.Apply.Local.{handle_agent_settings_apply-Kept}
use labtether_linux.Settings.Apply.Refused.{Failed, apply_agent_settings-Failed}

-- The second value is refused when the first is set.
abbrev half_good : Values
half_good = (codes "capture_fps", codes "20") ∷ (codes "log_level", codes "loud") ∷ []

runs_half :
    (apply_agent_settings strict disk half_good agent).runtime
    ≡ record agent { cfg = record config { capture_fps = pos 20 } }
unfolding apply_agent_settings apply_values apply_value handle_agent_settings_apply
    labtether_linux.Settings.Values.normalize_agent_setting_value
    labtether_linux.Settings.Values.normalize_as labtether_linux.Settings.Values.normalize_int
    labtether_linux.Settings.Values.normalize_enum
    labtether_linux.Settings.Values.agent_setting_definition_by_key
    labtether_linux.Settings.Values.find_definition labtether_linux.Settings.Apply.Cases.set_value
    labtether_linux.Settings.Apply.Change.switch labtether_linux.Settings.Apply.Change.set_field
    labtether_linux.Settings.Apply.Cases.interval_and_docker_cases
    labtether_linux.Settings.Apply.Cases.service_cases
    labtether_linux.Settings.Apply.Cases.remote_cases labtether_linux.Settings.Apply.File.put_value
    labtether_linux.Settings.Apply.File.load_agent_settings_file
    labtether_linux.Settings.Apply.File.load_values
    labtether_linux.Settings.Apply.File.save_agent_settings_file
    labtether_linux.Settings.Apply.File.save_values put_values redact_sensitive_agent_setting_values
    labtether_linux.Base.Text.text_eq labtether_linux.Base.Text.trim_space
    labtether_linux.Base.Text.to_lower labtether_linux.Base.Decimal.atoi
    labtether_linux.Base.Decimal.itoa labtether_linux.Base.Text.equal_fold
runs_half = refl

-- A key in capitals is reported as applied and stored, and the runtime is as it was.
runs_capitals :
    handle_agent_settings_apply strict disk [] ((codes "CAPTURE_FPS", codes "20") ∷ []) agent ≡ (
      agent,
      record disk { payload = some ((codes "capture_fps", codes "20") ∷ []) },
      applied ((codes "CAPTURE_FPS", codes "20") ∷ []) false,
    )
unfolding apply_agent_settings apply_values apply_value handle_agent_settings_apply
    labtether_linux.Settings.Values.normalize_agent_setting_value
    labtether_linux.Settings.Values.normalize_as labtether_linux.Settings.Values.normalize_int
    labtether_linux.Settings.Values.normalize_enum
    labtether_linux.Settings.Values.agent_setting_definition_by_key
    labtether_linux.Settings.Values.find_definition labtether_linux.Settings.Apply.Cases.set_value
    labtether_linux.Settings.Apply.Change.switch labtether_linux.Settings.Apply.Change.set_field
    labtether_linux.Settings.Apply.Cases.interval_and_docker_cases
    labtether_linux.Settings.Apply.Cases.service_cases
    labtether_linux.Settings.Apply.Cases.remote_cases labtether_linux.Settings.Apply.File.put_value
    labtether_linux.Settings.Apply.File.load_agent_settings_file
    labtether_linux.Settings.Apply.File.load_values
    labtether_linux.Settings.Apply.File.save_agent_settings_file
    labtether_linux.Settings.Apply.File.save_values put_values redact_sensitive_agent_setting_values
    labtether_linux.Base.Text.text_eq labtether_linux.Base.Text.trim_space
    labtether_linux.Base.Text.to_lower labtether_linux.Base.Decimal.atoi
    labtether_linux.Base.Decimal.itoa labtether_linux.Base.Text.equal_fold
runs_capitals = refl

handle_agent_settings_apply-Kept_example :
    Kept config (handle_agent_settings_apply strict disk (codes "ab:cd") half_good agent).0.cfg
handle_agent_settings_apply-Kept_example =
    handle_agent_settings_apply-Kept strict disk (codes "ab:cd") half_good agent

apply_agent_settings-Failed_example :
    Failed strict disk half_good agent
      (apply_agent_settings strict disk half_good agent)
      (refused SettingError.not_allowed)
unfolding apply_agent_settings apply_values apply_value handle_agent_settings_apply
    labtether_linux.Settings.Values.normalize_agent_setting_value
    labtether_linux.Settings.Values.normalize_as labtether_linux.Settings.Values.normalize_int
    labtether_linux.Settings.Values.normalize_enum
    labtether_linux.Settings.Values.agent_setting_definition_by_key
    labtether_linux.Settings.Values.find_definition labtether_linux.Settings.Apply.Cases.set_value
    labtether_linux.Settings.Apply.Change.switch labtether_linux.Settings.Apply.Change.set_field
    labtether_linux.Settings.Apply.Cases.interval_and_docker_cases
    labtether_linux.Settings.Apply.Cases.service_cases
    labtether_linux.Settings.Apply.Cases.remote_cases labtether_linux.Settings.Apply.File.put_value
    labtether_linux.Settings.Apply.File.load_agent_settings_file
    labtether_linux.Settings.Apply.File.load_values
    labtether_linux.Settings.Apply.File.save_agent_settings_file
    labtether_linux.Settings.Apply.File.save_values put_values redact_sensitive_agent_setting_values
    labtether_linux.Base.Text.text_eq labtether_linux.Base.Text.trim_space
    labtether_linux.Base.Text.to_lower labtether_linux.Base.Decimal.atoi
    labtether_linux.Base.Decimal.itoa labtether_linux.Base.Text.equal_fold
apply_agent_settings-Failed_example =
    apply_agent_settings-Failed strict disk half_good agent (refused SettingError.not_allowed) refl
