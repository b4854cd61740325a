-- ===== src/Settings/Apply/Kept.antt =====
-- What the switch leaves alone: internal/agentcore/settings_runtime.go.
use labtether_linux.Base.{
  ◌≡◌, refl, sym, ap, ◌∙◌, Bool, false, List, [], ◌∷◌, ◌++◌, All, Bool-cases, inl, inr, arith,
}
use labtether_linux.Base.Text.{Text, text_eq, text_eq_iff, text_eq_refl}
use labtether_linux.Settings.Keys.{key_allow_remote_overrides}
use labtether_linux.Settings.Apply.Config.{RuntimeConfig, Batch}
use labtether_linux.Settings.Apply.Change.{Case, set_field, switch}
use labtether_linux.Settings.Apply.Cases.{
  interval_and_docker_cases, service_cases, remote_cases, set_value,
}

-- The local settings are as they were.
pub record Kept (c d : RuntimeConfig) : Type 0 where
  pub tls_skip_verify : d.tls_skip_verify ≡ c.tls_skip_verify
  pub tls_ca_file : d.tls_ca_file ≡ c.tls_ca_file
  pub allow_remote_overrides : d.allow_remote_overrides ≡ c.allow_remote_overrides

abbrev pub BatchKept : Batch → Batch → Type 0
BatchKept a b = Kept a.runtime.cfg b.runtime.cfg

abbrev Keeps : Case → Type 0
Keeps c =
    text_eq c.0 key_allow_remote_overrides ≡ false → (v : Text) (b : Batch) → BatchKept b (c.1 v b)

pub still : {c : RuntimeConfig} → Kept c c
still = record { tls_skip_verify = refl; tls_ca_file = refl; allow_remote_overrides = refl }

moved :
    {c d : RuntimeConfig}
    → d.tls_skip_verify ≡ c.tls_skip_verify
    → d.tls_ca_file ≡ c.tls_ca_file
    → d.allow_remote_overrides ≡ c.allow_remote_overrides
    → Kept c d
moved p q r = record { tls_skip_verify = p; tls_ca_file = q; allow_remote_overrides = r }

set_field-Kept :
    {A : Type 0} (same : RuntimeConfig → A → Bool) (read : Text → A)
    (set : A → RuntimeConfig → RuntimeConfig)
    → ((x : A) (c : RuntimeConfig) → Kept c (set x c))
    → (v : Text) (b : Batch) → BatchKept b (set_field same read set v b)
unfolding set_field
set_field-Kept same read set k v b = elim (Bool-cases (same b.runtime.cfg (read v))) [
  | inl y ↦ rw y still
  | inr n ↦ rw n (k (read v) b.runtime.cfg)
]

no_case :
    {c d : RuntimeConfig}
    → text_eq key_allow_remote_overrides key_allow_remote_overrides ≡ false
    → Kept c d
no_case h = ground (arith, h, text_eq_refl key_allow_remote_overrides)

interval_and_docker_cases-All : All Keeps interval_and_docker_cases
unfolding interval_and_docker_cases
interval_and_docker_cases-All = (
  (λ h v b. moved refl refl refl),
  (
    (λ h v b. moved refl refl refl),
    (
      (λ h. set_field-Kept _ _ _ (λ x c. moved refl refl refl)),
      (
        (λ h. set_field-Kept _ _ _ (λ x c. moved refl refl refl)),
        ((λ h. set_field-Kept _ _ _ (λ x c. moved refl refl refl)), tt),
      ),
    ),
  ),
)

service_cases-All : All Keeps service_cases
unfolding service_cases
service_cases-All = (
  (λ h. set_field-Kept _ _ _ (λ x c. moved refl refl refl)),
  (
    (λ h. set_field-Kept _ _ _ (λ x c. moved refl refl refl)),
    (
      (λ h. set_field-Kept _ _ _ (λ x c. moved refl refl refl)),
      (
        (λ h. set_field-Kept _ _ _ (λ x c. moved refl refl refl)),
        (
          (λ h. set_field-Kept _ _ _ (λ x c. moved refl refl refl)),
          (
            (λ h. set_field-Kept _ _ _ (λ x c. moved refl refl refl)),
            (
              (λ h. set_field-Kept _ _ _ (λ x c. moved refl refl refl)),
              (
                (λ h. set_field-Kept _ _ _ (λ x c. moved refl refl refl)),
                (
                  (λ h. set_field-Kept _ _ _ (λ x c. moved refl refl refl)),
                  (
                    (λ h. set_field-Kept _ _ _ (λ x c. moved refl refl refl)),
                    (
                      (λ h. set_field-Kept _ _ _ (λ x c. moved refl refl refl)),
                      ((λ h. set_field-Kept _ _ _ (λ x c. moved refl refl refl)), tt),
                    ),
                  ),
                ),
              ),
            ),
          ),
        ),
      ),
    ),
  ),
)

remote_cases-All : All Keeps remote_cases
unfolding remote_cases
remote_cases-All = (
  (λ h. set_field-Kept _ _ _ (λ x c. moved refl refl refl)),
  (
    (λ h. set_field-Kept _ _ _ (λ x c. moved refl refl refl)),
    (
      (λ h. set_field-Kept _ _ _ (λ x c. moved refl refl refl)),
      (
        (λ h. set_field-Kept _ _ _ (λ x c. moved refl refl refl)),
        (
          (λ h. set_field-Kept _ _ _ (λ x c. moved refl refl refl)),
          (
            (λ h. set_field-Kept _ _ _ (λ x c. moved refl refl refl)),
            (
              (λ h. set_field-Kept _ _ _ (λ x c. moved refl refl refl)),
              (
                (λ h. set_field-Kept _ _ _ (λ x c. moved refl refl refl)),
                (
                  (λ h. set_field-Kept _ _ _ (λ x c. moved refl refl refl)),
                  (
                    (λ h. set_field-Kept _ _ _ (λ x c. moved refl refl refl)),
                    ((λ h. λ v b. no_case h), ((λ h v b. moved refl refl refl), tt)),
                  ),
                ),
              ),
            ),
          ),
        ),
      ),
    ),
  ),
)

switch-Kept :
    (key v : Text) (cases : List Case) (b : Batch)
    → text_eq key key_allow_remote_overrides ≡ false
    → All Keeps cases
    → BatchKept b (switch key cases v b)
unfolding switch
switch-Kept key v [] b h a = still
switch-Kept key v ((k, f) ∷ cases) b h a = elim (Bool-cases (text_eq key k)) [
  | inl hit ↦ rw hit (
      a.0 (ap (λ q. text_eq q key_allow_remote_overrides) (sym ((text_eq_iff key k).0 hit)) ∙ h) v
        b)
  | inr miss ↦ rw miss (switch-Kept key v cases b h a.1)
]

pub All-append :
    {A : Type 0} (P : A → Type 0) (xs ys : List A) → All P xs → All P ys → All P (xs ++ ys)
All-append P [] ys a b = b
All-append P (x ∷ xs) ys a b = (a.0, All-append P xs ys a.1 b)

pub set_value-Kept :
    (key v : Text) (b : Batch)
    → text_eq key key_allow_remote_overrides ≡ false
    → BatchKept b (set_value key v b)
unfolding set_value
set_value-Kept key v b h =
    switch-Kept key v (interval_and_docker_cases ++ (service_cases ++ remote_cases)) b h (
      All-append Keeps interval_and_docker_cases (service_cases ++ remote_cases)
        interval_and_docker_cases-All
        (All-append Keeps service_cases remote_cases service_cases-All remote_cases-All))

pub chain : {a b c : RuntimeConfig} → Kept a b → Kept b c → Kept a c
chain p q = record {
  tls_skip_verify = q.tls_skip_verify ∙ p.tls_skip_verify;
  tls_ca_file = q.tls_ca_file ∙ p.tls_ca_file;
  allow_remote_overrides = q.allow_remote_overrides ∙ p.allow_remote_overrides;
}
