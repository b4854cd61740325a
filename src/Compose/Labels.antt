-- ===== src/Compose/Labels.antt =====
-- The selection that the labels of a container name: internal/agentcore/docker/compose_selection.go. The labels
-- are a Go map, here a list of pairs with one entry for a key.
use labtether_linux.Base.{
  ℕ, Bool, true, false, not, ◌&&◌, ◌||◌, Option, none, some, List, [], ◌∷◌, if◌then◌else◌, leb,
  ◌==◌, all,
}
use labtether_linux.Base.Text.{Text, codes, text_eq, is_empty, split}

abbrev pub compose_project_label : Text
compose_project_label = codes "com.docker.compose.project"

abbrev pub compose_directory_label : Text
compose_directory_label = codes "com.docker.compose.project.working_dir"

abbrev pub compose_files_label : Text
compose_files_label = codes "com.docker.compose.project.config_files"

-- The value under a key of a map, which is empty if there is none.
unfoldable pub label : Text → List (Text × Text) → Text
label key [] = []
label key ((k, v) ∷ labels) = let rest = label key labels in if text_eq k key then v else rest

abbrev pub is_lower_or_digit : ℕ → Bool
is_lower_or_digit c = (leb 97 c && leb c 122) || (leb 48 c && leb c 57)

-- composeProjectName
unfoldable pub is_project_name : Text → Bool
is_project_name [] = false
is_project_name (c ∷ cs) =
    is_lower_or_digit c && all (λ d. is_lower_or_digit d || (d == b'_') || (d == b'-')) cs

-- filepath.IsAbs
abbrev pub is_absolute : Text → Bool
is_absolute [] = false
is_absolute (c ∷ cs) = c == b'/'

abbrev pub has_no_nul : Text → Bool
has_no_nul t = all (λ c. not (c == 0)) t

pub record ComposeSelection : Type 0 where
  pub name : Text
  pub dir : Text
  pub files : List Text

pub data LabelError : Type 0 where
  missing_labels invalid_labels conflicting_labels incomplete_inventory : LabelError

abbrev pub is_path : Text → Bool
is_path file = is_absolute file && has_no_nul file

-- `selectionFromLabels`
unfoldable pub selection_from_labels : List (Text × Text) → ComposeSelection × Option LabelError
selection_from_labels labels =
    let name = label compose_project_label labels in
    let dir = label compose_directory_label labels in
    let files = label compose_files_label labels in
    if is_empty name || is_empty dir || is_empty files
    then (record { name = name; dir = dir; files = [] }, some missing_labels)
    else if not (is_project_name name) || not (is_absolute dir) || not (has_no_nul dir)
    then (record { name = name; dir = dir; files = [] }, some invalid_labels)
    else (
      record { name = name; dir = dir; files = split files b',' },
      if all is_path (split files b',') then none else some invalid_labels,
    )

-- `stringSlicesEqual`
unfoldable pub string_slices_equal : List Text → List Text → Bool
string_slices_equal [] [] = true
string_slices_equal [] (t ∷ ts) = false
string_slices_equal (s ∷ ss) [] = false
string_slices_equal (s ∷ ss) (t ∷ ts) = text_eq s t && string_slices_equal ss ts

-- `selectionsEqual`
abbrev pub selections_equal : ComposeSelection → ComposeSelection → Bool
selections_equal a b =
    text_eq a.name b.name && text_eq a.dir b.dir && string_slices_equal a.files b.files
