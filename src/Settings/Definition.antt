-- ===== src/Settings/Definition.antt =====
-- `AgentSettingDefinition` of internal/agentcore/sysconfig/settings_definitions.go.
use labtether_linux.Base.{ℕ, Bool, false, List, []}
use labtether_linux.Base.Text.{Text}

pub data SettingType : Type 0 where
  no_setting string_setting int_setting bool_setting enum_setting : SettingType

pub record Definition : Type 0 where
  pub key : Text
  pub label : Text
  pub description : Text
  pub kind : SettingType
  pub default_value : Text
  pub min_int : ℕ
  pub max_int : ℕ
  pub allowed_values : List Text
  pub restart_required : Bool
  pub hub_managed : Bool
  pub local_only : Bool

-- The fields that a literal of the table leaves out.
abbrev pub zero_definition : Definition
zero_definition = record {
  key = [];
  label = [];
  description = [];
  kind = no_setting;
  default_value = [];
  min_int = 0;
  max_int = 0;
  allowed_values = [];
  restart_required = false;
  hub_managed = false;
  local_only = false;
}
