-- ===== src/Settings/Apply/Batch.antt =====
-- `applyAgentSettings` of internal/agentcore/settings_runtime.go and its caller in settings_ws_handler.go.
use labtether_linux.Base.{Bool, false, ◌&&◌, not, Option, none, some, [], ◌∷◌, if◌then◌else◌}
use labtether_linux.Base.Result.{Result, ok, err}
use labtether_linux.Base.Text.{Text, text_eq, trim_space, equal_fold, is_empty}
use labtether_linux.Settings.Keys.{key_webrtc_turn_pass}
use labtether_linux.Settings.Definition.{Definition}
use labtether_linux.Settings.Values.{
  SettingError, Packages, agent_setting_definition_by_key, normalize_agent_setting_value,
}
use labtether_linux.Settings.Apply.Config.{Runtime, Batch}
use labtether_linux.Settings.Apply.Cases.{set_value}
use labtether_linux.Settings.Apply.File.{
  Values, Disk, FileError, put_value, load_agent_settings_file, save_agent_settings_file,
}

pub data ApplyError : Type 0 where
  unknown_setting : Text → ApplyError
  setting_is_local_only : Text → ApplyError
  refused : SettingError → ApplyError
  not_saved : FileError → ApplyError

-- An accepted value is set under the key as it came.
abbrev pub accept_value : Text → Text → Batch → Batch
accept_value key v b =
    let b' = set_value key v b in record b' { applied = put_value key v b'.applied }

abbrev pub checked_value : Text → Result SettingError Text → Batch → Result ApplyError Batch
checked_value key (err e) b = err (refused e)
checked_value key (ok v) b = ok (accept_value key v b)

abbrev pub defined_value :
    Packages → Text → Text → Option Definition → Batch → Result ApplyError Batch
defined_value net key raw none b = err (unknown_setting key)
defined_value net key raw (some d) b =
    if d.local_only
    then err (setting_is_local_only key)
    else checked_value key (normalize_agent_setting_value net key raw) b

-- One round of the loop.
unfoldable pub apply_value : Packages → Text → Text → Batch → Result ApplyError Batch
apply_value net key raw b = defined_value net key raw (agent_setting_definition_by_key key) b

-- The loop: what it has done when it ends, also by an error, which leaves what it did before.
unfoldable pub apply_values : Packages → Values → Batch → Batch × Option ApplyError
apply_values net [] b = (b, none)
apply_values net ((key, raw) ∷ values) b = elim (apply_value net key raw b) [
  | err e ↦ (b, some e)
  | ok b' ↦ apply_values net values b'
]

unfoldable pub put_values : Values → Values → Values
put_values [] values = values
put_values ((key, v) ∷ applied) values = put_values applied (put_value key v values)

-- How `applyAgentSettings` leaves the runtime and the settings file, and what it returns.
pub record Outcome : Type 0 where
  pub runtime : Runtime
  pub disk : Disk
  pub result : Result ApplyError (Values × Bool)

-- A settings file that cannot be loaded is left alone.
abbrev pub saved : Disk → Batch → Result FileError Disk → Outcome
saved disk b (err e) = record { runtime = b.runtime; disk = disk; result = err (not_saved e) }
saved disk b (ok disk') = record {
  runtime = b.runtime;
  disk = disk';
  result = ok (b.applied, b.restart_required);
}

abbrev pub loaded : Packages → Disk → Batch → Result FileError Values → Outcome
loaded net disk b (err e) = record {
  runtime = b.runtime;
  disk = disk;
  result = ok (b.applied, b.restart_required);
}
loaded net disk b (ok values) =
    saved disk b (save_agent_settings_file net disk (put_values b.applied values))

abbrev pub started : Runtime → Batch
started r = record {
  runtime = r;
  applied = [];
  restart_required = false;
  needs_persisted_config_write = false;
}

abbrev pub after_loop : Packages → Disk → Batch × Option ApplyError → Outcome
after_loop net disk (b, some e) = record { runtime = b.runtime; disk = disk; result = err e }
after_loop net disk (b, none) = elim b.applied [
  | [] ↦ record { runtime = b.runtime; disk = disk; result = ok (b.applied, b.restart_required) }
  | entry ∷ rest ↦ loaded net disk b (load_agent_settings_file net disk)
]

-- `applyAgentSettings`
unfoldable pub apply_agent_settings : Packages → Disk → Values → Runtime → Outcome
apply_agent_settings net disk values r = after_loop net disk (apply_values net values (started r))

-- `redactSensitiveAgentSettingValues` of internal/agentcore/settings_protocol.go.
unfoldable pub redact_sensitive_agent_setting_values : Values → Values
redact_sensitive_agent_setting_values [] = []
redact_sensitive_agent_setting_values ((key, v) ∷ values) =
    let rest = redact_sensitive_agent_setting_values values in
    if text_eq key key_webrtc_turn_pass then rest else (key, v) ∷ rest

pub data Reply : Type 0 where
  overrides_disabled fingerprint_mismatch : Reply
  apply_error : ApplyError → Reply
  applied : Values → Bool → Reply

-- The message is for another device.
abbrev pub is_mismatch : Text → Option Text → Bool
is_mismatch expected none = false
is_mismatch expected (some fingerprint) =
    not (is_empty (trim_space expected)) && not (equal_fold (trim_space expected) fingerprint)

abbrev pub reply_of : Result ApplyError (Values × Bool) → Reply
reply_of (err e) = apply_error e
reply_of (ok r) = applied (redact_sensitive_agent_setting_values r.0) r.1

-- `handleAgentSettingsApply` of a message that decodes: the runtime, the settings file and the reply.
unfoldable pub handle_agent_settings_apply :
    Packages → Disk → Text → Values → Runtime → Runtime × Disk × Reply
handle_agent_settings_apply net disk expected values r =
    if not r.cfg.allow_remote_overrides
    then (r, disk, overrides_disabled)
    else if is_mismatch expected r.fingerprint
    then (r, disk, fingerprint_mismatch)
    else let o = apply_agent_settings net disk values r in (o.runtime, o.disk, reply_of o.result)
