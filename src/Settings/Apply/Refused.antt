-- ===== src/Settings/Apply/Refused.antt =====
-- How the application of settings fails: internal/agentcore/settings_runtime.go.
use labtether_linux.Base.{◌≡◌, refl, sym, ap, subst, ◌∙◌, Bool, Option, none, some, [], ◌∷◌, ◌++◌}
use labtether_linux.Base.Result.{Result, ok, err}
use labtether_linux.Base.Text.{Text}
use labtether_linux.Settings.Values.{Packages}
use labtether_linux.Settings.Apply.Config.{Runtime, Batch}
use labtether_linux.Settings.Apply.File.{
  Values, Disk, FileError, load_agent_settings_file, save_agent_settings_file,
}
use labtether_linux.Settings.Apply.Batch.{
  apply_value, apply_values, apply_agent_settings, ApplyError, not_saved, Outcome, started,
  after_loop, loaded, saved, put_values,
}

-- The loop stopped at an entry: those before it were applied, and this one is refused.
pub record Stopped (net : Packages) (values : Values) (b after : Batch) (e : ApplyError)
    : Type 0 where
  pub done : Values
  pub key : Text
  pub raw : Text
  pub rest : Values
  pub split : values ≡ done ++ ((key, raw) ∷ rest)
  pub applied_done : apply_values net done b ≡ (after, none)
  pub is_refused : apply_value net key raw after ≡ err e

abbrev step : Packages → Values → Batch → Result ApplyError Batch → Batch × Option ApplyError
step net values b (err e) = (b, some e)
step net values b (ok b') = apply_values net values b'

apply_values-step :
    (net : Packages) (key raw : Text) (values : Values) (b : Batch)
    → apply_values net ((key, raw) ∷ values) b ≡ step net values b (apply_value net key raw b)
unfolding apply_values
apply_values-step net key raw values b = go (apply_value net key raw b)
  where
    go :
        (r : Result ApplyError Batch)
        → (elim r as (λ _. Batch × Option ApplyError) [
          | err e ↦ (b, some e)
          | ok b' ↦ apply_values net values b'
        ])
          ≡ step net values b r
    go (err e) = refl
    go (ok b') = refl

apply_values-Stopped :
    (net : Packages) (values : Values) (b after : Batch) (e : ApplyError)
    → apply_values net values b ≡ (after, some e)
    → Stopped net values b after e
unfolding apply_values
apply_values-Stopped net [] b after e h = cc
apply_values-Stopped net ((key, raw) ∷ values) b after e h =
    go (apply_values-Stopped net values) (apply_value net key raw b) refl
      (sym (apply_values-step net key raw values b) ∙ h)
  where
    go :
        ((b' after : Batch) (e : ApplyError)
          → apply_values net values b' ≡ (after, some e)
          → Stopped net values b' after e)
        → (r : Result ApplyError Batch) → apply_value net key raw b ≡ r
        → step net values b r ≡ (after, some e)
        → Stopped net ((key, raw) ∷ values) b after e
    go rest (err x) q h = record {
      done = [];
      key = key;
      raw = raw;
      rest = values;
      split = refl;
      applied_done = ap (λ p. (p.0, none)) h;
      is_refused =
          subst (λ u. apply_value net key raw u ≡ err e) (ap (λ p. p.0) h)
            (q ∙ ap err (same_error (ap (λ p. p.1) h)));
    }
      where
        same_error : Option.some x ≡ some e → x ≡ e
        same_error k = cc
    go rest (ok b') q h =
        let s = rest b' after e h in
        record {
          done = (key, raw) ∷ s.done;
          key = s.key;
          raw = s.raw;
          rest = s.rest;
          split = ap (λ l. (key, raw) ∷ l) s.split;
          applied_done =
              apply_values-step net key raw s.done b ∙ ap (step net s.done b) q ∙ s.applied_done;
          is_refused = s.is_refused;
        }

abbrev error_or : ApplyError → Result ApplyError (Values × Bool) → ApplyError
error_or x (err e) = e
error_or x (ok r) = x

-- How an application that returns an error leaves the runtime and the settings file: at an entry that is
-- refused, after those before it, or with all of them, at the writing of the file, which stays as it was.
pub data Failed (net : Packages) (disk : Disk) (values : Values) (r : Runtime) (o : Outcome)
    (e : ApplyError) : Type 0 where
  stopped :
      (after : Batch)
      → Stopped net values (started r) after e
      → o.runtime ≡ after.runtime
      → o.disk ≡ disk
      → Failed net disk values r o e
  unsaved :
      (after : Batch) (f : FileError)
      → apply_values net values (started r) ≡ (after, none)
      → e ≡ not_saved f
      → o.runtime ≡ after.runtime
      → o.disk ≡ disk
      → Failed net disk values r o e

module _ (net : Packages) (disk : Disk) (values : Values) (r : Runtime) (e : ApplyError) where
  saved-Failed :
      (b : Batch) (w : Result FileError Disk)
      → apply_values net values (started r) ≡ (b, none)
      → (saved disk b w).result ≡ err e
      → Failed net disk values r (saved disk b w) e
  saved-Failed b (ok d) h q = cc
  saved-Failed b (err f) h q = unsaved b f h (sym (ap (error_or e) q)) refl refl

  loaded-Failed :
      (b : Batch) (l : Result FileError Values)
      → apply_values net values (started r) ≡ (b, none)
      → (loaded net disk b l).result ≡ err e
      → Failed net disk values r (loaded net disk b l) e
  loaded-Failed b (err f) h q = cc
  loaded-Failed b (ok old) h q =
      saved-Failed b (save_agent_settings_file net disk (put_values b.applied old)) h q

  after_loop-Failed :
      (b : Batch) (x : Option ApplyError)
      → apply_values net values (started r) ≡ (b, x)
      → (after_loop net disk (b, x)).result ≡ err e
      → Failed net disk values r (after_loop net disk (b, x)) e
  after_loop-Failed b (some x) h q =
      stopped b
        (apply_values-Stopped net values (started r) b e
          (h ∙ ap (λ y. (b, some y)) (ap (error_or e) q)))
        refl refl
  after_loop-Failed b none h q = go b.applied q
    where
      go :
          (l : Values)
          → (elim l as (λ _. Outcome) [
            | [] ↦ record {
              runtime = b.runtime;
              disk = disk;
              result = ok (b.applied, b.restart_required);
            }
            | entry ∷ rest ↦ loaded net disk b (load_agent_settings_file net disk)
          ]).result
            ≡ err e
          → Failed net disk values r
              (elim l as (λ _. Outcome) [
                | [] ↦ record {
                  runtime = b.runtime;
                  disk = disk;
                  result = ok (b.applied, b.restart_required);
                }
                | entry ∷ rest ↦ loaded net disk b (load_agent_settings_file net disk)
              ])
              e
      go [] q = cc
      go (x ∷ l) q = loaded-Failed b (load_agent_settings_file net disk) h q

  -- An application that returns an error stopped at an entry that is refused, with the entries before it applied
  -- to the runtime and the settings file as it was; or every entry was applied, and the file, which could not be
  -- written, is as it was.
  pub apply_agent_settings-Failed :
      (apply_agent_settings net disk values r).result ≡ err e
      → Failed net disk values r (apply_agent_settings net disk values r) e
  unfolding apply_agent_settings
  apply_agent_settings-Failed q =
      let p = apply_values net values (started r) in after_loop-Failed p.0 p.1 refl q
