-- ===== src/Compose.antt =====
-- Which files a Compose action is for: internal/agentcore/docker/compose_selection.go. The labels of a container
-- are a Go map, here a list of pairs with one entry for a key. The inventory that the daemon answers and the file
-- system are parameters.
pub mod Labels
pub mod Inferred
pub mod Agreed
mod Tests
use labtether_linux.Base.{
  ℕ, ◌+◌, Bool, true, false, not, ◌&&◌, ◌||◌, Option, none, some, List, [], ◌∷◌, ◌++◌,
  if◌then◌else◌, ltb, ◌==◌, length, all, map,
}
use labtether_linux.Base.Int.{pos}
use labtether_linux.Base.Result.{Result, ok, err}
use labtether_linux.Base.Decimal.{itoa}
use labtether_linux.Base.Text.{Text, codes, text_eq, is_empty, in_list}
use labtether_linux.Compose.Labels.{
  compose_project_label, label, is_project_name, ComposeSelection, LabelError,
  selection_from_labels, string_slices_equal, selections_equal, conflicting_labels,
  incomplete_inventory,
}

pub record Container : Type 0 where
  pub names : List Text
  pub state : Text
  pub labels : List (Text × Text)

abbrev pub trim_slash : Text → Text
trim_slash [] = []
trim_slash (c ∷ cs) = if c == b'/' then cs else c ∷ cs

-- `ContainerName`
abbrev pub container_name : List Text → Text
container_name [] = []
container_name (n ∷ names) = trim_slash n

-- A `DockerComposeStack` that is built, with the first selection of its project.
pub record Stack : Type 0 where
  pub selection : ComposeSelection
  pub config_file : Text
  pub selection_error : Option LabelError
  pub running : ℕ
  pub containers : List Text

abbrev pub new_stack : ComposeSelection × Option LabelError → Stack
new_stack s = record {
  selection = s.0;
  config_file = if is_empty s.0.dir then [] else s.0.dir ++ codes "/docker-compose.yml";
  selection_error = s.1;
  running = 0;
  containers = [];
}

-- A later container of the project has to have the same selection.
abbrev pub compare_selection : ComposeSelection × Option LabelError → Stack → Stack
compare_selection (s, some e) stack = record stack { selection_error = some conflicting_labels }
compare_selection (s, none) stack =
    if selections_equal stack.selection s
    then stack
    else record stack { selection_error = some conflicting_labels }

abbrev pub add_name : Text → List Text → List Text
add_name name names =
    if not (is_empty name) && not (in_list name names) then names ++ (name ∷ []) else names

abbrev pub count_container : Container → Stack → Stack
count_container c stack = record stack {
  containers = add_name (container_name c.names) stack.containers;
  running = if text_eq c.state (codes "running") then stack.running + 1 else stack.running;
}

-- The container goes to the stack of its project, which it begins if there is none.
unfoldable pub add_container : Text → Container → List (Text × Stack) → List (Text × Stack)
add_container project c [] =
    (project, count_container c (new_stack (selection_from_labels c.labels))) ∷ []
add_container project c ((p, stack) ∷ stacks) =
    let rest = add_container project c stacks in
    if text_eq p project
    then (p, count_container c (compare_selection (selection_from_labels c.labels) stack)) ∷ stacks
    else (p, stack) ∷ rest

-- The loop of `inferComposeStacks`.
unfoldable pub infer_loop : List Container → List (Text × Stack) → List (Text × Stack)
infer_loop [] stacks = stacks
infer_loop (c ∷ cs) stacks =
    let project = label compose_project_label c.labels in
    infer_loop cs (if is_empty project then stacks else add_container project c stacks)

-- The order of Go's strings.
unfoldable pub text_leb : Text → Text → Bool
text_leb [] t = true
text_leb (c ∷ s) [] = false
text_leb (c ∷ s) (d ∷ t) = let rest = text_leb s t in if c == d then rest else ltb c d

-- sort.Slice by name and sort.Strings
unfoldable pub insert_by {ℓ} : {A : Type ℓ} → (A → Text) → A → List A → List A
insert_by key x [] = x ∷ []
insert_by key x (y ∷ ys) =
    let rest = insert_by key x ys in if text_leb (key x) (key y) then x ∷ y ∷ ys else y ∷ rest

unfoldable pub sort_by {ℓ} : {A : Type ℓ} → (A → Text) → List A → List A
sort_by key [] = []
sort_by key (x ∷ xs) = insert_by key x (sort_by key xs)

-- `DockerComposeStack`
pub record DockerComposeStack : Type 0 where
  pub name : Text
  pub status : Text
  pub config_file : Text
  pub config_dir : Text
  pub config_files : List Text
  pub selection_error : Option LabelError
  pub containers : List Text

abbrev pub finish_stack : Text × Stack → DockerComposeStack
finish_stack (p, stack) = record {
  name = p;
  status = codes "running(" ++ (itoa (pos stack.running) ++ codes ")");
  config_file = stack.config_file;
  config_dir = stack.selection.dir;
  config_files = stack.selection.files;
  selection_error = stack.selection_error;
  containers = sort_by (λ n. n) stack.containers;
}

-- `inferComposeStacks`
unfoldable pub infer_compose_stacks : List Container → List DockerComposeStack
infer_compose_stacks cs =
    sort_by (λ (s : DockerComposeStack). s.name) (map finish_stack (infer_loop cs []))

-- `inferCompleteComposeStacks`
unfoldable pub infer_complete_compose_stacks : List Container → Bool → List DockerComposeStack
infer_complete_compose_stacks cs incomplete =
    if incomplete
    then map (λ (s : DockerComposeStack). record s { selection_error = some incomplete_inventory })
        (infer_compose_stacks cs)
    else infer_compose_stacks cs

pub data SelectionError : Type 0 where
  invalid_name no_inventory missing_inventory other_project : SelectionError
  inconsistent changed no_directory no_file : SelectionError

abbrev pub max_containers_per_host : ℕ
max_containers_per_host = 500

-- `composeProjectContainers` of the daemon's answer, if there is one that decodes.
unfoldable pub compose_project_containers :
    Text → Option (List Container) → Result SelectionError (List Container)
compose_project_containers project none = err no_inventory
compose_project_containers project (some rows) =
    if (length rows == 0) || ltb max_containers_per_host (length rows)
    then err missing_inventory
    else if all (λ (c : Container). text_eq (label compose_project_label c.labels) project) rows
    then ok rows
    else err other_project

-- The request of an action: the project, and the directory and files that the hub saw.
pub record Request : Type 0 where
  pub stack_name : Text
  pub config_dir : Text
  pub config_files : List Text

-- Which paths are directories, and which are regular files that can be opened.
pub record FileSystem : Type 0 where
  pub is_directory : Text → Bool
  pub is_readable_file : Text → Bool

-- `validateComposeFiles`
unfoldable pub validate_compose_files : FileSystem → ComposeSelection → Option SelectionError
validate_compose_files fs s =
    if not (fs.is_directory s.dir)
    then some no_directory
    else if all fs.is_readable_file s.files
    then none
    else some no_file

-- The only stack, if it has no error.
abbrev pub agreed_selection : List DockerComposeStack → Option ComposeSelection
agreed_selection [] = none
agreed_selection (s ∷ t ∷ stacks) = none
agreed_selection (s ∷ []) = elim s.selection_error [
  | some e ↦ none
  | none ↦ some (record { name = s.name; dir = s.config_dir; files = s.config_files })
]

abbrev pub with_files :
    Option SelectionError → ComposeSelection → Result SelectionError ComposeSelection
with_files none s = ok s
with_files (some e) s = err e

abbrev pub check_selection :
    FileSystem → Request → Bool → Option ComposeSelection → Result SelectionError ComposeSelection
check_selection fs r versioned none = err inconsistent
check_selection fs r versioned (some s) =
    if not (text_eq s.dir r.config_dir)
      || (versioned && not (string_slices_equal s.files r.config_files))
    then err changed
    else with_files (validate_compose_files fs s) s

abbrev pub of_rows :
    FileSystem
    → Request
    → Bool
    → Result SelectionError (List Container)
    → Result SelectionError ComposeSelection
of_rows fs r versioned (err e) = err e
of_rows fs r versioned (ok rows) =
    check_selection fs r versioned (agreed_selection (infer_compose_stacks rows))

-- `resolveComposeSelection`
unfoldable pub resolve_compose_selection :
    FileSystem → Option (List Container) → Request → Bool → Result SelectionError ComposeSelection
resolve_compose_selection fs answer r versioned =
    if not (is_project_name r.stack_name)
    then err invalid_name
    else of_rows fs r versioned (compose_project_containers r.stack_name answer)
