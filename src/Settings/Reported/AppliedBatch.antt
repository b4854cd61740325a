-- ===== src/Settings/Reported/AppliedBatch.antt =====
-- The record of what was applied, which the switch leaves alone: internal/agentcore/settings_runtime.go.
use labtether_linux.Base.{◌≡◌, refl, Bool, List, [], ◌∷◌, ◌++◌, All, Bool-cases, inl, inr}
use labtether_linux.Base.Text.{Text, text_eq}
use labtether_linux.Settings.Apply.Config.{RuntimeConfig, Batch}
use labtether_linux.Settings.Apply.Change.{Case, set_field, switch}
use labtether_linux.Settings.Apply.Cases.{
  interval_and_docker_cases, service_cases, remote_cases, set_value,
}
use labtether_linux.Settings.Apply.Kept.{All-append}

abbrev LeavesApplied : Case → Type 0
LeavesApplied c = (v : Text) (b : Batch) → (c.1 v b).applied ≡ b.applied

set_field_applied :
    {A : Type 0} (same : RuntimeConfig → A → Bool) (read : Text → A)
    (set : A → RuntimeConfig → RuntimeConfig) (v : Text) (b : Batch)
    → (set_field same read set v b).applied ≡ b.applied
unfolding set_field
set_field_applied same read set v b = elim (Bool-cases (same b.runtime.cfg (read v))) [
  | inl y ↦ rw y refl
  | inr n ↦ rw n refl
]

interval_and_docker_cases-LeavesApplied : All LeavesApplied interval_and_docker_cases
unfolding interval_and_docker_cases
interval_and_docker_cases-LeavesApplied = (
  (λ v b. refl),
  (
    (λ v b. refl),
    ((set_field_applied _ _ _), ((set_field_applied _ _ _), ((set_field_applied _ _ _), tt))),
  ),
)

service_cases-LeavesApplied : All LeavesApplied service_cases
unfolding service_cases
service_cases-LeavesApplied = (
  (set_field_applied _ _ _),
  (
    (set_field_applied _ _ _),
    (
      (set_field_applied _ _ _),
      (
        (set_field_applied _ _ _),
        (
          (set_field_applied _ _ _),
          (
            (set_field_applied _ _ _),
            (
              (set_field_applied _ _ _),
              (
                (set_field_applied _ _ _),
                (
                  (set_field_applied _ _ _),
                  (
                    (set_field_applied _ _ _),
                    ((set_field_applied _ _ _), ((set_field_applied _ _ _), tt)),
                  ),
                ),
              ),
            ),
          ),
        ),
      ),
    ),
  ),
)

remote_cases-LeavesApplied : All LeavesApplied remote_cases
unfolding remote_cases
remote_cases-LeavesApplied = (
  (set_field_applied _ _ _),
  (
    (set_field_applied _ _ _),
    (
      (set_field_applied _ _ _),
      (
        (set_field_applied _ _ _),
        (
          (set_field_applied _ _ _),
          (
            (set_field_applied _ _ _),
            (
              (set_field_applied _ _ _),
              (
                (set_field_applied _ _ _),
                (
                  (set_field_applied _ _ _),
                  ((set_field_applied _ _ _), ((λ v b. refl), ((λ v b. refl), tt))),
                ),
              ),
            ),
          ),
        ),
      ),
    ),
  ),
)

switch-LeavesApplied :
    (key v : Text) (cases : List Case) (b : Batch)
    → All LeavesApplied cases
    → (switch key cases v b).applied ≡ b.applied
unfolding switch
switch-LeavesApplied key v [] b a = refl
switch-LeavesApplied key v ((k, f) ∷ cases) b a = elim (Bool-cases (text_eq key k)) [
  | inl hit ↦ rw hit (a.0 v b)
  | inr miss ↦ rw miss (switch-LeavesApplied key v cases b a.1)
]

pub set_value-LeavesApplied : (key v : Text) (b : Batch) → (set_value key v b).applied ≡ b.applied
unfolding set_value
set_value-LeavesApplied key v b =
    switch-LeavesApplied key v (interval_and_docker_cases ++ (service_cases ++ remote_cases)) b (
      All-append LeavesApplied interval_and_docker_cases (service_cases ++ remote_cases)
        interval_and_docker_cases-LeavesApplied
        (All-append LeavesApplied service_cases remote_cases service_cases-LeavesApplied
          remote_cases-LeavesApplied))
