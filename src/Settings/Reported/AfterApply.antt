-- ===== src/Settings/Reported/AfterApply.antt =====
-- What the agent reports after it has applied settings: internal/agentcore/settings_runtime.go.
use labtether_linux.Base.{
  ◌≡◌, refl, sym, ap, subst, ◌∙◌, Bool, true, false, ◌&&◌, Option, none, some, List, [], ◌∷◌, ◌++◌,
  if◌then◌else◌, All, arith, Bool-cases, inl, inr,
}
use labtether_linux.Base.Result.{Result, ok, err}
use labtether_linux.Base.Text.{Text, text_eq, text_eq_iff, is_empty, trim_space, in_list}
use labtether_linux.Settings.Keys.{key_docker_endpoint}
use labtether_linux.Settings.Definition.{Definition}
use labtether_linux.Settings.Values.{
  SettingError, Packages, agent_setting_definition_by_key, normalize_agent_setting_value,
}
use labtether_linux.Settings.Apply.Config.{Runtime, Batch}
use labtether_linux.Settings.Apply.Cases.{set_value}
use labtether_linux.Settings.Apply.File.{
  Values, Disk, FileError, put_value, load_agent_settings_file, save_agent_settings_file,
}
use labtether_linux.Settings.Apply.Batch.{
  ApplyError, apply_value, apply_values, apply_agent_settings, checked_value, defined_value,
  accept_value, started, after_loop, loaded, saved, put_values, Outcome,
}
use labtether_linux.Settings.Apply.Kept.{All-append}
use labtether_linux.Settings.Reported.{reported_agent_settings, find_value}
use labtether_linux.Settings.Reported.Applied.{
  IsReported, interval_and_docker_keys, interval_and_docker_keys-IsReported,
}
use labtether_linux.Settings.Reported.Applied.Services.{service_keys, service_keys-IsReported}
use labtether_linux.Settings.Reported.Applied.Remote.{remote_keys, remote_keys-IsReported}
use labtether_linux.Settings.Reported.Others.{set_value-SameReport}
use labtether_linux.Settings.Reported.AppliedBatch.{set_value-LeavesApplied}

-- The settings that the hub can set.
abbrev pub remote_settings : List Text
remote_settings = interval_and_docker_keys ++ (service_keys ++ remote_keys)

All-in_list :
    (P : Text → Type 0) (k : Text) (keys : List Text) → in_list k keys ≡ true → All P keys → P k
unfolding in_list
All-in_list P k [] h a = ground (arith, h)
All-in_list P k (j ∷ keys) h a = elim (Bool-cases (text_eq j k)) [
  | inl hit ↦ subst P ((text_eq_iff j k).0 hit) a.0
  | inr miss ↦ All-in_list P k keys (ground (arith, h, miss)) a.1
]

find_value-put_value :
    (k j v : Text) (values : Values)
    → find_value k (put_value j v values) ≡ (if text_eq j k then some v else find_value k values)
unfolding find_value put_value
find_value-put_value k j v [] = refl
find_value-put_value k j v ((i, u) ∷ values) = elim (Bool-cases (text_eq i j)) [
  | inl y ↦
      rw (y, ap (λ t. text_eq t k) ((text_eq_iff i j).0 y))
        (elim (Bool-cases (text_eq j k)) [ inl a ↦ rw a refl | inr a ↦ rw a refl ])
  | inr n ↦
      rw (n, find_value-put_value k j v values)
        (elim (Bool-cases (text_eq j k)) [
          | inl y ↦ rw (y, ap (text_eq i) (sym ((text_eq_iff j k).0 y)) ∙ n) refl
          | inr a ↦ rw a refl
        ])
]

module _ (net : Packages) where
  -- A success reports what was applied.
  abbrev Succeeds : Batch → Outcome → Type 0
  Succeeds b o =
      (applied : Values) (restart : Bool)
      → o.result ≡ ok (applied, restart)
      → applied ≡ b.applied × o.runtime ≡ b.runtime

  saved-Succeeds :
      (disk : Disk) (b : Batch) (r : Result FileError Disk) → Succeeds b (saved disk b r)
  saved-Succeeds disk b (err e) applied restart h = ground (arith, h)
  saved-Succeeds disk b (ok d) applied restart h = (ground (arith, h), refl)

  loaded-Succeeds :
      (disk : Disk) (b : Batch) (r : Result FileError Values) → Succeeds b (loaded net disk b r)
  loaded-Succeeds disk b (err e) applied restart h = (ground (arith, h), refl)
  loaded-Succeeds disk b (ok values) applied restart h =
      saved-Succeeds disk b (save_agent_settings_file net disk (put_values b.applied values))
        applied restart h

  after_loop-Succeeds :
      (disk : Disk) (b : Batch) (e : Option ApplyError) → Succeeds b (after_loop net disk (b, e))
  after_loop-Succeeds disk b (some e) applied restart h = ground (arith, h)
  after_loop-Succeeds disk b none applied restart h = go b.applied applied restart h
    where
      go :
          (l : Values)
          → Succeeds b (elim l as (λ _. Outcome) [
            | [] ↦ record {
              runtime = b.runtime;
              disk = disk;
              result = ok (b.applied, b.restart_required);
            }
            | entry ∷ rest ↦ loaded net disk b (load_agent_settings_file net disk)
          ])
      go [] applied restart h = (ground (arith, h), refl)
      go (x ∷ l) applied restart h =
          loaded-Succeeds disk b (load_agent_settings_file net disk) applied restart h

module _ (net : Packages) (k v : Text) (known : in_list k remote_settings ≡ true)
    (plain : trim_space v ≡ v) (named : (text_eq k key_docker_endpoint && is_empty v) ≡ false) where
  k-IsReported : IsReported net k
  k-IsReported = All-in_list (IsReported net) k remote_settings known (
      All-append (IsReported net) interval_and_docker_keys (service_keys ++ remote_keys)
        (interval_and_docker_keys-IsReported net)
        (All-append (IsReported net) service_keys remote_keys (service_keys-IsReported net)
          (remote_keys-IsReported net)))

  -- What was applied under the key is what is reported under it.
  abbrev Shown : Batch → Type 0
  Shown b =
      find_value k b.applied ≡ some v → find_value k (reported_agent_settings b.runtime) ≡ some v

  accept_value-Shown :
      (key raw w : Text) (b : Batch)
      → normalize_agent_setting_value net key raw ≡ ok w
      → Shown b
      → Shown (accept_value key w b)
  accept_value-Shown key raw w b n s h =
      let put = sym (find_value-put_value k key w (set_value key w b).applied) ∙ h in
      elim (Bool-cases (text_eq key k)) [
        | inl same ↦
            let is_v : w ≡ v = ground (arith, put, same) in
            subst (λ u. find_value k (reported_agent_settings (set_value key u b).runtime) ≡ some v)
              (sym is_v)
              (subst
                (λ j. find_value k (reported_agent_settings (set_value j v b).runtime) ≡ some v)
                (sym ((text_eq_iff key k).0 same))
                (k-IsReported raw v b
                  (subst (λ j. normalize_agent_setting_value net j raw ≡ ok w)
                      ((text_eq_iff key k).0 same) n
                    ∙ ap ok is_v)
                  plain named))
        | inr other ↦
            set_value-SameReport k key w b other
            ∙ s (
                ap (find_value k) (sym (set_value-LeavesApplied key w b))
                ∙ ground (arith, put, other))
      ]

  abbrev ShownResult : Result ApplyError Batch → Type 0
  ShownResult (err e) = Unit
  ShownResult (ok b) = Shown b

  checked_value-Shown :
      (key raw : Text) (r : Result SettingError Text) (b : Batch)
      → normalize_agent_setting_value net key raw ≡ r
      → Shown b
      → ShownResult (checked_value key r b)
  checked_value-Shown key raw (err e) b n s = tt
  checked_value-Shown key raw (ok w) b n s = accept_value-Shown key raw w b n s

  defined_value-Shown :
      (key raw : Text) (o : Option Definition) (b : Batch)
      → Shown b
      → ShownResult (defined_value net key raw o b)
  defined_value-Shown key raw none b s = tt
  defined_value-Shown key raw (some d) b s = elim (Bool-cases d.local_only) [
    | inl y ↦ rw y tt
    | inr n ↦
        rw n (checked_value-Shown key raw (normalize_agent_setting_value net key raw) b refl s)
  ]

  apply_values-Shown : (values : Values) (b : Batch) → Shown b → Shown (apply_values net values b).0
  unfolding apply_values apply_value
  apply_values-Shown [] b s = s
  apply_values-Shown ((key, raw) ∷ values) b s =
      go (apply_values-Shown values) (apply_value net key raw b)
        (defined_value-Shown key raw (agent_setting_definition_by_key key) b s)
    where
      go :
          ((b' : Batch) → Shown b' → Shown (apply_values net values b').0)
          → (r : Result ApplyError Batch) → ShownResult r
          → Shown
              (elim r as (λ _. Batch × Option ApplyError) [
                | err e ↦ (b, some e)
                | ok b' ↦ apply_values net values b'
              ]).0
      go rest (err e) t = s
      go rest (ok b') t = rest b' t

-- When settings are applied without an error, a value that the result says was applied is the value that the
-- agent reports afterwards under that key, for every key that the hub can set, unless the value has white
-- space around it or is an empty endpoint of Docker.
pub reported_agent_settings-apply_agent_settings :
    (net : Packages) (disk : Disk) (values : Values) (r : Runtime) (k v : Text) (applied : Values)
    (restart : Bool)
    → (apply_agent_settings net disk values r).result ≡ ok (applied, restart)
    → find_value k applied ≡ some v
    → in_list k remote_settings ≡ true
    → trim_space v ≡ v
    → (text_eq k key_docker_endpoint && is_empty v) ≡ false
    → find_value k (reported_agent_settings (apply_agent_settings net disk values r).runtime)
      ≡ some v
unfolding apply_agent_settings find_value
reported_agent_settings-apply_agent_settings net disk values r k v applied restart h f known plain
      named =
    let p = apply_values net values (started r) in
    let q = after_loop-Succeeds net disk p.0 p.1 applied restart h in
    ap (λ u. find_value k (reported_agent_settings u)) q.1
    ∙ apply_values-Shown net k v known plain named values (started r)
        (λ none_yet. ground (arith, none_yet)) (ap (find_value k) (sym q.0) ∙ f)
