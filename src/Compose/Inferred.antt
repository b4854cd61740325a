-- ===== src/Compose/Inferred.antt =====
-- What the containers of a project say of its selection: internal/agentcore/docker/compose_selection.go.
use labtether_linux.Base.{
  ◌≡◌, ◌⊎◌, refl, sym, ap, ap₂, subst, ◌∙◌, true, false, not, ◌||◌, Option, none, some, List, [],
  ◌∷◌, All, map, arith, Bool-cases, inl, inr,
}
use labtether_linux.Base.Text.{Text, text_eq_iff, text_eq_refl, is_empty}
use labtether_linux.Compose.Labels.{
  label, compose_project_label, compose_directory_label, compose_files_label, is_absolute,
  has_no_nul, is_project_name, ComposeSelection, LabelError, selection_from_labels,
  string_slices_equal, selections_equal,
}
use labtether_linux.Compose.{
  Container, Stack, new_stack, compare_selection, count_container, add_container, infer_loop,
  sort_by, insert_by, DockerComposeStack, finish_stack, infer_compose_stacks,
}

pub string_slices_same : (a b : List Text) → string_slices_equal a b ≡ true → a ≡ b
unfolding string_slices_equal
string_slices_same [] [] h = refl
string_slices_same [] (t ∷ ts) h = ground (arith, h)
string_slices_same (s ∷ ss) [] h = ground (arith, h)
string_slices_same (s ∷ ss) (t ∷ ts) h =
    ap₂ (λ x xs. x ∷ xs) ((text_eq_iff s t).0 (ground (arith, h)))
      (string_slices_same ss ts (ground (arith, h)))

selections_same : (a b : ComposeSelection) → selections_equal a b ≡ true → a ≡ b
selections_same a b h =
    ap₂ (λ n (p : Text × List Text). record { name = n; dir = p.0; files = p.1 })
      ((text_eq_iff a.name b.name).0 (ground (arith, h)))
      (ap₂ (λ (d : Text) (f : List Text). (d, f)) ((text_eq_iff a.dir b.dir).0 (ground (arith, h)))
        (string_slices_same a.files b.files (ground (arith, h))))

-- The labels of the container say this selection, and they are valid.
abbrev pub Says : ComposeSelection → Container → Type 0
Says s c = selection_from_labels c.labels ≡ (s, none)

abbrev pub IsOf : Text → Container → Type 0
IsOf project c = label compose_project_label c.labels ≡ project

-- The stack after the container has no error only if it had none before, and the container says its selection.
abbrev Grown : Container → Stack → Stack → Type 0
Grown c before after =
    (after.selection ≡ before.selection)
    × ((after.selection_error ≡ some LabelError.conflicting_labels)
        ⊎ ((after.selection_error ≡ before.selection_error) × Says before.selection c))

compare_selection-Grown :
    (c : Container) (s : Stack)
    → Grown c s (count_container c (compare_selection (selection_from_labels c.labels) s))
compare_selection-Grown c s = go (selection_from_labels c.labels) refl
  where
    go :
        (p : ComposeSelection × Option LabelError)
        → selection_from_labels c.labels ≡ p
        → Grown c s (count_container c (compare_selection p s))
    go (t, some e) q = (refl, inl refl)
    go (t, none) q = elim (Bool-cases (selections_equal s.selection t)) [
      | inl y ↦
          rw y (refl, inr (refl, q ∙ ap (λ u. (u, none)) (sym (selections_same s.selection t y))))
      | inr n ↦ rw n (refl, inl refl)
    ]

-- What an outcome without an error says of the containers.
record Inferred (p : Text) (first : Stack) (rows : List Container) : Type 0 where
  after : Stack
  is_one : infer_loop rows ((p, first) ∷ []) ≡ (p, after) ∷ []
  same : after.selection ≡ first.selection
  agree :
      after.selection_error ≡ none
      → (first.selection_error ≡ none) × All (Says first.selection) rows

add_container_one :
    (p : Text) (c : Container) (s : Stack)
    → add_container p c ((p, s) ∷ [])
      ≡ (p, count_container c (compare_selection (selection_from_labels c.labels) s)) ∷ []
unfolding add_container
add_container_one p c s = rw (text_eq_refl p) refl

infer_loop-Inferred :
    (p : Text) (first : Stack) (rows : List Container)
    → is_empty p ≡ false
    → All (IsOf p) rows
    → Inferred p first rows
unfolding infer_loop
infer_loop-Inferred p first [] full a = record {
  after = first;
  is_one = refl;
  same = refl;
  agree = λ h. (h, tt);
}
infer_loop-Inferred p first (c ∷ rows) full a =
    let second = count_container c (compare_selection (selection_from_labels c.labels) first) in
    let grown = compare_selection-Grown c first in
    let r = infer_loop-Inferred p second rows full a.1 in
    record {
      after = r.after;
      is_one = rw (a.0, full, add_container_one p c first) r.is_one;
      same = r.same ∙ grown.0;
      agree = λ h. agreed grown (r.agree h);
    }
  where
    agreed :
        Grown c first (count_container c (compare_selection (selection_from_labels c.labels) first))
        → ((count_container c
              (compare_selection (selection_from_labels c.labels) first)).selection_error
            ≡ none)
          × All
              (Says
                (count_container c
                  (compare_selection (selection_from_labels c.labels) first)).selection)
              rows
        → (first.selection_error ≡ none) × All (Says first.selection) (c ∷ rows)
    agreed (q, inl e) (h, said) = absurd (ground (arith, e, h))
    agreed (q, inr (e, says)) (h, said) = (sym e ∙ h, (says, subst (λ s. All (Says s) rows) q said))

pub name_of_selection :
    (labels : List (Text × Text))
    → (selection_from_labels labels).0.name ≡ label compose_project_label labels
unfolding selection_from_labels
name_of_selection labels =
    elim (Bool-cases (
      is_empty (label compose_project_label labels)
      || is_empty (label compose_directory_label labels)
      || is_empty (label compose_files_label labels))) [
        | inl y ↦ rw y refl
        | inr n ↦
            elim (Bool-cases (
              not (is_project_name (label compose_project_label labels))
              || not (is_absolute (label compose_directory_label labels))
              || not (has_no_nul (label compose_directory_label labels)))) [
                | inl y ↦ rw (n, y) refl
                | inr m ↦ rw (n, m) refl
              ]
      ]

-- The stacks of the containers of one project.
pub record OneStack (p : Text) (c : Container) (rows : List Container) : Type 0 where
  pub after : Stack
  pub is_one : infer_compose_stacks (c ∷ rows) ≡ finish_stack (p, after) ∷ []
  pub same : after.selection ≡ (selection_from_labels c.labels).0
  pub agree : after.selection_error ≡ none → All (Says after.selection) (c ∷ rows)

pub infer_compose_stacks-OneStack :
    (p : Text) (c : Container) (rows : List Container)
    → is_empty p ≡ false
    → All (IsOf p) (c ∷ rows)
    → OneStack p c rows
unfolding infer_compose_stacks infer_loop sort_by insert_by add_container
infer_compose_stacks-OneStack p c rows full a =
    let r =
      infer_loop-Inferred p (count_container c (new_stack (selection_from_labels c.labels))) rows
        full a.1 in
    record {
      after = r.after;
      is_one =
          rw (a.0, full)
            (ap (λ l. sort_by (λ (s : DockerComposeStack). s.name) (map finish_stack l)) r.is_one);
      same = r.same;
      agree = λ h.
          let q = r.agree h in
          (
            ap₂ (λ (t : ComposeSelection) (e : Option LabelError). (t, e)) (sym r.same) q.0,
            subst (λ t. All (Says t) rows) (sym r.same) q.1,
          );
    }
