-- ===== src/Settings/Reported/Tests.antt =====
-- Runs of what the agent reports: internal/agentcore/settings_runtime.go.
use labtether_linux.Base.{◌≡◌, refl, true, some, [], ◌∷◌}
use labtether_linux.Base.Text.{codes}
use labtether_linux.Settings.Apply.File.{Values}
use labtether_linux.Settings.Apply.Batch.{
  apply_agent_settings, apply_value, apply_values, put_values,
  redact_sensitive_agent_setting_values, handle_agent_settings_apply,
}
use labtether_linux.Settings.Apply.Example.{agent, strict, disk}
use labtether_linux.Settings.Reported.{find_value, reported_agent_settings}
use labtether_linux.Settings.Reported.AfterApply.{reported_agent_settings-apply_agent_settings}

abbrev sent : Values
sent = (codes "collect_interval_sec", codes "007") ∷ (codes "capture_fps", codes " 20 ") ∷ []

reported_agent_settings-apply_agent_settings_example :
    find_value
      (codes "collect_interval_sec")
      (reported_agent_settings (apply_agent_settings strict disk sent agent).runtime)
    ≡ some (codes "7")
unfolding find_value labtether_linux.Base.Text.in_list apply_agent_settings apply_values apply_value
    handle_agent_settings_apply labtether_linux.Settings.Values.normalize_agent_setting_value
    labtether_linux.Settings.Values.normalize_as labtether_linux.Settings.Values.normalize_int
    labtether_linux.Settings.Values.normalize_enum
    labtether_linux.Settings.Values.agent_setting_definition_by_key
    labtether_linux.Settings.Values.find_definition labtether_linux.Settings.Apply.Cases.set_value
    labtether_linux.Settings.Apply.Change.switch labtether_linux.Settings.Apply.Change.set_field
    labtether_linux.Settings.Apply.Cases.interval_and_docker_cases
    labtether_linux.Settings.Apply.Cases.service_cases
    labtether_linux.Settings.Apply.Cases.remote_cases labtether_linux.Settings.Apply.File.put_value
    labtether_linux.Settings.Apply.File.load_agent_settings_file
    labtether_linux.Settings.Apply.File.load_values
    labtether_linux.Settings.Apply.File.save_agent_settings_file
    labtether_linux.Settings.Apply.File.save_values put_values redact_sensitive_agent_setting_values
    labtether_linux.Base.Text.text_eq labtether_linux.Base.Text.trim_space
    labtether_linux.Base.Text.to_lower labtether_linux.Base.Decimal.atoi
    labtether_linux.Base.Decimal.itoa labtether_linux.Base.Text.equal_fold
reported_agent_settings-apply_agent_settings_example =
    reported_agent_settings-apply_agent_settings strict disk sent agent
      (codes "collect_interval_sec") (codes "7")
      ((codes "collect_interval_sec", codes "7") ∷ (codes "capture_fps", codes "20") ∷ []) true refl
      refl refl refl refl
