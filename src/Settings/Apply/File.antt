-- ===== src/Settings/Apply/File.antt =====
-- The settings file: internal/agentcore/sysconfig/settings_file.go. JSON and the file system are the record
-- `Disk`.
use labtether_linux.Base.{Bool, not, Option, none, some, List, [], ◌∷◌, if◌then◌else◌}
use labtether_linux.Base.Result.{Result, ok, err, ◌>>=◌}
use labtether_linux.Base.Text.{Text, text_eq}
use labtether_linux.Settings.Definition.{Definition}
use labtether_linux.Settings.Values.{
  SettingError, Packages, agent_setting_definition_by_key, normalize_agent_setting_value,
}

abbrev pub Values : Type 0
Values = List (Text × Text)

-- Whether there is a path, the values of the file's payload if it can be read and decoded (none stand in a
-- file that is not there), and whether a write of it succeeds.
pub record Disk : Type 0 where
  pub has_path : Bool
  pub payload : Option Values
  pub writable : Bool

pub data FileError : Type 0 where
  no_path unreadable unwritable : FileError
  unknown_entry : Text → FileError
  refused_entry : SettingError → FileError

-- An assignment to a key of a map.
unfoldable pub put_value : Text → Text → Values → Values
put_value k v [] = (k, v) ∷ []
put_value k v ((j, u) ∷ values) =
    let rest = put_value k v values in if text_eq j k then (k, v) ∷ values else (j, u) ∷ rest

abbrev pub keep_normalized : Text → Result SettingError Text → Values → Values
keep_normalized key (ok v) values = put_value key v values
keep_normalized key (err e) values = values

abbrev pub load_entry : Packages → Option Definition → Text → Values → Values
load_entry net none raw values = values
load_entry net (some d) raw values =
    keep_normalized d.key (normalize_agent_setting_value net d.key raw) values

-- The loop of `LoadAgentSettingsFile`, with the values so far.
unfoldable pub load_values : Packages → Values → Values → Values
load_values net [] values = values
load_values net ((key, raw) ∷ payload) values =
    load_values net payload (load_entry net (agent_setting_definition_by_key key) raw values)

-- `LoadAgentSettingsFile`
unfoldable pub load_agent_settings_file : Packages → Disk → Result FileError Values
load_agent_settings_file net disk = if not disk.has_path then ok [] else elim disk.payload [
  | none ↦ err unreadable
  | some payload ↦ ok (load_values net payload [])
]

abbrev pub save_normalized : Text → Result SettingError Text → Values → Result FileError Values
save_normalized key (ok v) values = ok (put_value key v values)
save_normalized key (err e) values = err (refused_entry e)

abbrev pub save_entry :
    Packages → Text → Option Definition → Text → Values → Result FileError Values
save_entry net key none value values = err (unknown_entry key)
save_entry net key (some d) value values =
    save_normalized d.key (normalize_agent_setting_value net d.key value) values

-- The loop of `SaveAgentSettingsFile`.
unfoldable pub save_values : Packages → Values → Values → Result FileError Values
save_values net [] values = ok values
save_values net ((key, value) ∷ rest) values =
    save_entry net key (agent_setting_definition_by_key key) value values >>= save_values net rest

-- `SaveAgentSettingsFile`: the disk after it, or the error, with which the file stays as it was.
unfoldable pub save_agent_settings_file : Packages → Disk → Values → Result FileError Disk
save_agent_settings_file net disk values =
    if not disk.has_path then err no_path else elim (save_values net values []) [
      | err e ↦ err e
      | ok normalized ↦
          if disk.writable then ok (record disk { payload = some normalized }) else err unwritable
    ]
