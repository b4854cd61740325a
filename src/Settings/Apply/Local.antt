-- ===== src/Settings/Apply/Local.antt =====
-- The settings that only the machine's own configuration says: internal/agentcore/settings_runtime.go.
use labtether_linux.Base.{
  ◌≡◌, refl, sym, subst, ap, ◌∙◌, false, not, Option, none, some, [], ◌∷◌, Bool-cases, inl, inr,
}
use labtether_linux.Base.Result.{Result, ok, err}
use labtether_linux.Base.Text.{Text, text_eq, text_eq_iff}
use labtether_linux.Settings.Keys.{key_allow_remote_overrides}
use labtether_linux.Settings.Definition.{Definition}
use labtether_linux.Settings.Values.{
  SettingError, Packages, agent_setting_definition_by_key, normalize_agent_setting_value,
  find_definition,
}
use labtether_linux.Settings.Apply.Config.{Runtime, Batch}
use labtether_linux.Settings.Apply.File.{
  Values, Disk, FileError, load_agent_settings_file, save_agent_settings_file,
}
use labtether_linux.Settings.Apply.Batch.{
  apply_value, apply_values, checked_value, defined_value, setting_is_local_only,
  apply_agent_settings, handle_agent_settings_apply, ApplyError, started, after_loop, Outcome,
  put_values, is_mismatch, loaded, saved,
}
use labtether_linux.Settings.Apply.Kept.{Kept, BatchKept, set_value-Kept, still, chain}

module _ (net : Packages) where
  abbrev ResultKept : Batch → Result ApplyError Batch → Type 0
  ResultKept b (err e) = Unit
  ResultKept b (ok b') = BatchKept b b'

  checked_value-Kept :
      (key : Text) (r : Result SettingError Text) (b : Batch)
      → text_eq key key_allow_remote_overrides ≡ false
      → ResultKept b (checked_value key r b)
  checked_value-Kept key (err e) b h = tt
  checked_value-Kept key (ok v) b h = set_value-Kept key v b h

  defined_value-Kept :
      (key raw : Text) (o : Option Definition) (b : Batch)
      → text_eq key key_allow_remote_overrides ≡ false
      → ResultKept b (defined_value net key raw o b)
  defined_value-Kept key raw none b h = tt
  defined_value-Kept key raw (some d) b h = elim (Bool-cases d.local_only) [
    | inl y ↦ rw y tt
    | inr n ↦ rw n (checked_value-Kept key (normalize_agent_setting_value net key raw) b h)
  ]

  -- The overrides themselves are a local setting.
  overrides_refused :
      (raw : Text) (b : Batch)
      → apply_value net key_allow_remote_overrides raw b
        ≡ err (setting_is_local_only key_allow_remote_overrides)
  unfolding apply_value agent_setting_definition_by_key find_definition text_eq
      labtether_linux.Base.Text.trim_space labtether_linux.Base.Text.to_lower
  overrides_refused raw b = refl

  apply_value-Kept : (key raw : Text) (b : Batch) → ResultKept b (apply_value net key raw b)
  unfolding apply_value
  apply_value-Kept key raw b = elim (Bool-cases (text_eq key key_allow_remote_overrides)) [
    | inl same ↦
        subst (ResultKept b)
          (sym (
            ap (λ k. apply_value net k raw b) ((text_eq_iff key key_allow_remote_overrides).0 same)
            ∙ overrides_refused raw b))
          tt
    | inr other ↦ defined_value-Kept key raw (agent_setting_definition_by_key key) b other
  ]

  apply_values-Kept : (values : Values) (b : Batch) → BatchKept b (apply_values net values b).0
  unfolding apply_values
  apply_values-Kept [] b = still
  apply_values-Kept ((key, raw) ∷ values) b =
      go (apply_values-Kept values) (apply_value net key raw b) (apply_value-Kept key raw b)
    where
      go :
          ((b' : Batch) → BatchKept b' (apply_values net values b').0)
          → (r : Result ApplyError Batch) → ResultKept b r
          → BatchKept b
              (elim r as (λ _. Batch × Option ApplyError) [
                | err e ↦ (b, some e)
                | ok b' ↦ apply_values net values b'
              ]).0
      go rest (err e) k = still
      go rest (ok b') k = chain k (rest b')

  loaded_runtime :
      (disk : Disk) (b : Batch) (r : Result FileError Values)
      → (loaded net disk b r).runtime ≡ b.runtime
  loaded_runtime disk b (err e) = refl
  loaded_runtime disk b (ok values) =
      go (save_agent_settings_file net disk (put_values b.applied values))
    where
      go : (r : Result FileError Disk) → (saved disk b r).runtime ≡ b.runtime
      go (err e) = refl
      go (ok d) = refl

  after_loop_runtime :
      (disk : Disk) (b : Batch) (e : Option ApplyError)
      → (after_loop net disk (b, e)).runtime ≡ b.runtime
  after_loop_runtime disk b (some e) = refl
  after_loop_runtime disk b none = go b.applied refl
    where
      go :
          (l : Values)
          → b.applied ≡ l
          → (elim l as (λ _. Outcome) [
            | [] ↦ record {
              runtime = b.runtime;
              disk = disk;
              result = ok (b.applied, b.restart_required);
            }
            | entry ∷ rest ↦ loaded net disk b (load_agent_settings_file net disk)
          ]).runtime
            ≡ b.runtime
      go [] h = refl
      go (x ∷ l) h = loaded_runtime disk b (load_agent_settings_file net disk)

  apply_agent_settings-Kept :
      (disk : Disk) (values : Values) (r : Runtime)
      → Kept r.cfg (apply_agent_settings net disk values r).runtime.cfg
  unfolding apply_agent_settings
  apply_agent_settings-Kept disk values r =
      let p = apply_values net values (started r) in
      subst (λ u. Kept r.cfg u.cfg) (sym (after_loop_runtime disk p.0 p.1))
        (apply_values-Kept values (started r))

-- Handling a message of the hub that applies settings changes neither whether TLS is verified, nor the file of
-- its authority, nor whether the hub may change settings, whatever its values are, also if it ends in an error.
pub handle_agent_settings_apply-Kept :
    (net : Packages) (disk : Disk) (expected : Text) (values : Values) (r : Runtime)
    → Kept r.cfg (handle_agent_settings_apply net disk expected values r).0.cfg
unfolding handle_agent_settings_apply
handle_agent_settings_apply-Kept net disk expected values r =
    elim (Bool-cases (not r.cfg.allow_remote_overrides)) [
      | inl off ↦ rw off still
      | inr on ↦ elim (Bool-cases (is_mismatch expected r.fingerprint)) [
        | inl other ↦ rw (on, other) still
        | inr mine ↦ rw (on, mine) (apply_agent_settings-Kept net disk values r)
      ]
    ]
