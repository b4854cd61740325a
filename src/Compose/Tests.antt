-- ===== src/Compose/Tests.antt =====
-- Runs of the selection of internal/agentcore/docker/compose_selection.go.
use labtether_linux.Base.{◌≡◌, refl, true, false, some, [], ◌∷◌}
use labtether_linux.Base.Result.{err}
use labtether_linux.Base.Text.{Text, codes, text_eq}
use labtether_linux.Compose.Labels.{
  compose_project_label, compose_directory_label, compose_files_label, label, is_project_name,
  ComposeSelection, selection_from_labels, string_slices_equal,
}
use labtether_linux.Compose.{
  Container, add_container, infer_loop, text_leb, insert_by, sort_by, infer_compose_stacks,
  inconsistent, compose_project_containers, Request, FileSystem, validate_compose_files,
  resolve_compose_selection,
}
use labtether_linux.Compose.Agreed.{Agreed, resolve_compose_selection-Agreed}

abbrev container : Text → Container
container files = record {
  names = codes "/web-1" ∷ [];
  state = codes "running";
  labels =
      (compose_files_label, files)
      ∷ (compose_project_label, codes "web")
      ∷ (compose_directory_label, codes "/srv/web")
      ∷ [];
}

abbrev pair : Text
pair = codes "/srv/web/a.yml,/srv/web/b.yml"

abbrev all_there : FileSystem
all_there = record {
  is_directory = λ d. text_eq d (codes "/srv/web");
  is_readable_file = λ f. true;
}

abbrev request : Request
request = record { stack_name = codes "web"; config_dir = codes "/srv/web"; config_files = [] }

abbrev chosen : ComposeSelection
chosen = record {
  name = codes "web";
  dir = codes "/srv/web";
  files = codes "/srv/web/a.yml" ∷ codes "/srv/web/b.yml" ∷ [];
}

-- The order of the files is part of the selection.
runs_conflict :
    resolve_compose_selection all_there
      (some (container pair ∷ container (codes "/srv/web/b.yml,/srv/web/a.yml") ∷ []))
      request
      false
    ≡ err inconsistent
unfolding resolve_compose_selection is_project_name compose_project_containers label
    labtether_linux.Base.Text.text_eq infer_compose_stacks infer_loop add_container
    selection_from_labels string_slices_equal sort_by insert_by text_leb validate_compose_files
    labtether_linux.Base.Text.split labtether_linux.Base.Text.split_from
runs_conflict = refl

resolve_compose_selection-Agreed_example :
    Agreed all_there (some (container pair ∷ container pair ∷ [])) request false chosen
unfolding resolve_compose_selection is_project_name compose_project_containers label
    labtether_linux.Base.Text.text_eq infer_compose_stacks infer_loop add_container
    selection_from_labels string_slices_equal sort_by insert_by text_leb validate_compose_files
    labtether_linux.Base.Text.split labtether_linux.Base.Text.split_from
resolve_compose_selection-Agreed_example =
    resolve_compose_selection-Agreed all_there (some (container pair ∷ container pair ∷ [])) request
      false chosen refl
