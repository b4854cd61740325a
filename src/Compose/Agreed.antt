-- ===== src/Compose/Agreed.antt =====
-- A Compose action has the selection that all containers of the project agree on:
-- internal/agentcore/docker/compose_selection.go.
use labtether_linux.Base.{
  ◌≡◌, ◌≢◌, ◌⊎◌, refl, sym, ap, ap₂, subst, ◌∙◌, Bool, true, false, not, ◌&&◌, ◌||◌, Option, none,
  some, List, [], ◌∷◌, ltb, ◌==◌, length, all, All, arith, Bool-cases, inl, inr,
}
use labtether_linux.Base.Result.{Result, ok, err}
use labtether_linux.Base.Text.{Text, text_eq, text_eq_iff, is_empty}
use labtether_linux.Compose.Labels.{
  label, compose_project_label, is_project_name, ComposeSelection, LabelError, string_slices_equal,
}
use labtether_linux.Compose.{
  max_containers_per_host, Container, Stack, finish_stack, infer_compose_stacks, SelectionError,
  compose_project_containers, Request, FileSystem, validate_compose_files, agreed_selection,
  check_selection, of_rows, resolve_compose_selection,
}
use labtether_linux.Compose.Inferred.{
  Says, IsOf, string_slices_same, name_of_selection, infer_compose_stacks-OneStack,
}

-- The action's selection: every container of the answer says it, it is what the hub saw, and its directory and
-- files are there.
pub record Agreed (fs : FileSystem) (answer : Option (List Container)) (r : Request)
    (versioned : Bool) (s : ComposeSelection) : Type 0 where
  pub rows : List Container
  pub is_answer : answer ≡ some rows
  pub not_empty : rows ≢ []
  pub says : All (Says s) rows
  pub name : s.name ≡ r.stack_name
  pub name_valid : is_project_name s.name ≡ true
  pub dir : s.dir ≡ r.config_dir
  pub files : (versioned ≡ false) ⊎ (s.files ≡ r.config_files)
  pub dir_there : fs.is_directory s.dir ≡ true
  pub files_there : all fs.is_readable_file s.files ≡ true

all-All :
    (project : Text) (rows : List Container)
    → all (λ (c : Container). text_eq (label compose_project_label c.labels) project) rows ≡ true
    → All (IsOf project) rows
all-All project [] h = tt
all-All project (c ∷ rows) h = (
  (text_eq_iff (label compose_project_label c.labels) project).0 (ground (arith, h)),
  all-All project rows (ground (arith, h)),
)

is_project_name_full : (t : Text) → is_project_name t ≡ true → is_empty t ≡ false
unfolding is_project_name
is_project_name_full [] h = ground (arith, h)
is_project_name_full (c ∷ cs) h = refl

compose_project_containers_ok :
    (project : Text) (answer : Option (List Container)) (rows : List Container)
    → compose_project_containers project answer ≡ ok rows
    → (answer ≡ some rows) × (rows ≢ []) × All (IsOf project) rows
unfolding compose_project_containers
compose_project_containers_ok project none rows h = ground (arith, h)
compose_project_containers_ok project (some given) rows h =
    elim (Bool-cases ((length given == 0) || ltb max_containers_per_host (length given))) [
      | inl y ↦ absurd (ground (arith, h, y))
      | inr n ↦
          elim (Bool-cases (
            all (λ (c : Container). text_eq (label compose_project_label c.labels) project)
              given)) [
                | inl y ↦
                    let same : given ≡ rows = ground (arith, h, n, y) in
                    (
                      ap some same,
                      (λ e. ground (arith, n, ap length (same ∙ e))),
                      subst (All (IsOf project)) same (all-All project given y),
                    )
                | inr m ↦ absurd (ground (arith, h, n, m))
              ]
    ]

agreed_selection_one :
    (p : Text) (after : Stack) (s : ComposeSelection)
    → agreed_selection (finish_stack (p, after) ∷ []) ≡ some s
    → (after.selection_error ≡ none)
      × (s.name ≡ p)
      × (s.dir ≡ after.selection.dir)
      × (s.files ≡ after.selection.files)
agreed_selection_one p after s h = go after.selection_error refl h
  where
    whole : ComposeSelection
    whole = record { name = p; dir = after.selection.dir; files = after.selection.files }

    go :
        (o : Option LabelError)
        → after.selection_error ≡ o
        → (elim o as (λ _. Option ComposeSelection) [ some e ↦ none | none ↦ some whole ]) ≡ some s
        → (after.selection_error ≡ none)
          × (s.name ≡ p)
          × (s.dir ≡ after.selection.dir)
          × (s.files ≡ after.selection.files)
    go (some e) q h = absurd (ground (arith, h))
    go none q h =
        let same : s ≡ whole = ground (arith, h) in
        (q, ap (λ u. u.name) same, ap (λ u. u.dir) same, ap (λ u. u.files) same)

abbrev Checked : FileSystem → Request → Bool → Option ComposeSelection → ComposeSelection → Type 0
Checked fs r versioned o s =
    (o ≡ some s)
    × (s.dir ≡ r.config_dir)
    × ((versioned ≡ false) ⊎ (s.files ≡ r.config_files))
    × (fs.is_directory s.dir ≡ true)
    × (all fs.is_readable_file s.files ≡ true)

check_selection_ok :
    (fs : FileSystem) (r : Request) (versioned : Bool) (o : Option ComposeSelection)
    (s : ComposeSelection)
    → check_selection fs r versioned o ≡ ok s
    → Checked fs r versioned o s
unfolding validate_compose_files
check_selection_ok fs r versioned none s h = ground (arith, h)
check_selection_ok fs r versioned (some t) s h =
    elim (Bool-cases (
      not (text_eq t.dir r.config_dir)
      || (versioned && not (string_slices_equal t.files r.config_files)))) [
        | inl y ↦ absurd (ground (arith, h, y))
        | inr n ↦ elim (Bool-cases (fs.is_directory t.dir)) [
          | inr m ↦ absurd (ground (arith, h, n, m))
          | inl there ↦ elim (Bool-cases (all fs.is_readable_file t.files)) [
            | inr m ↦ absurd (ground (arith, h, n, there, m))
            | inl readable ↦
                subst (Checked fs r versioned (some t)) (ground (arith, h, n, there, readable)) (
                  refl,
                  (text_eq_iff t.dir r.config_dir).0 (ground (arith, n)),
                  elim (Bool-cases versioned) [
                    | inl v ↦ inr (string_slices_same t.files r.config_files (ground (arith, n, v)))
                    | inr v ↦ inl v
                  ],
                  there,
                  readable,
                )
          ]
        ]
      ]

of_rows_ok :
    (fs : FileSystem) (answer : Option (List Container)) (r : Request) (versioned : Bool)
    (s : ComposeSelection)
    → is_project_name r.stack_name ≡ true
    → (q : Result SelectionError (List Container))
    → compose_project_containers r.stack_name answer ≡ q
    → of_rows fs r versioned q ≡ ok s
    → Agreed fs answer r versioned s
of_rows_ok fs answer r versioned s valid (err e) q h = ground (arith, h)
of_rows_ok fs answer r versioned s valid (ok []) q h =
    absurd ((compose_project_containers_ok r.stack_name answer [] q).1 refl)
of_rows_ok fs answer r versioned s valid (ok (c ∷ rows)) q h =
    let given = compose_project_containers_ok r.stack_name answer (c ∷ rows) q in
    let one =
      infer_compose_stacks-OneStack r.stack_name c rows (is_project_name_full r.stack_name valid)
        given.2 in
    let checked =
      check_selection_ok fs r versioned (agreed_selection (infer_compose_stacks (c ∷ rows))) s h in
    let stack =
      agreed_selection_one r.stack_name one.after s
        (ap agreed_selection (sym one.is_one) ∙ checked.0) in
    let named : one.after.selection.name ≡ r.stack_name =
      ap (λ u. u.name) one.same ∙ name_of_selection c.labels ∙ given.2.0 in
    let same : one.after.selection ≡ s =
      ap₂ (λ n (p : Text × List Text). record { name = n; dir = p.0; files = p.1 })
        (named ∙ sym stack.1)
        (ap₂ (λ (d : Text) (f : List Text). (d, f)) (sym stack.2) (sym stack.3)) in
    record {
      rows = c ∷ rows;
      is_answer = given.0;
      not_empty = given.1;
      says = subst (λ t. All (Says t) (c ∷ rows)) same (one.agree stack.0);
      name = stack.1;
      name_valid = ap is_project_name stack.1 ∙ valid;
      dir = checked.1;
      files = checked.2;
      dir_there = checked.3;
      files_there = checked.4;
    }

-- A Compose action that gets a selection gets one that every container of the daemon's answer has in its labels,
-- without a mistake in them, of which there is at least one: its name is the valid name that was asked for, its
-- directory is the one that the hub saw, and is there, its files are those that the hub saw, if the action says
-- them, and can be read.
pub resolve_compose_selection-Agreed :
    (fs : FileSystem) (answer : Option (List Container)) (r : Request) (versioned : Bool)
    (s : ComposeSelection)
    → resolve_compose_selection fs answer r versioned ≡ ok s
    → Agreed fs answer r versioned s
unfolding resolve_compose_selection
resolve_compose_selection-Agreed fs answer r versioned s h =
    elim (Bool-cases (is_project_name r.stack_name)) [
      | inl valid ↦
          of_rows_ok fs answer r versioned s valid (compose_project_containers r.stack_name answer)
            refl (ground (arith, h, valid))
      | inr n ↦ absurd (ground (arith, h, n))
    ]
