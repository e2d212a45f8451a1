-- ===== src/Tests/Projects.antt =====
-- A workspace of two packages, as cargo describes it to the command line.
use faasta.Prelude.{
  Text, text, Bool, true, false, Option, none, some, List, [], ◌∷◌, ◌≡◌, refl, ok, err, text_eq,
  ends_with, if◌then◌else◌,
}
use faasta.Cli.Deploy.{default_artifact_path}
use faasta.Cli.Project.{Cargo, ◌>>=◌, get_project_info, build_project, handle_run}

-- The values of the description.
data Node : Type 0 where
  root target packages lib lib_manifest lib_name app app_manifest app_name : Node

abbrev field : Text → Node → Option Node
field name root = if text_eq name (text "packages") then some packages else some target
field name lib = if text_eq name (text "name") then some lib_name else some lib_manifest
field name app = if text_eq name (text "name") then some app_name else some app_manifest
field name target = none
field name packages = none
field name lib_manifest = none
field name lib_name = none
field name app_manifest = none
field name app_name = none

abbrev words : Node → Option Text
words target = some (text "target")
words lib_manifest = some (text "/lib/Cargo.toml")
words lib_name = some (text "lib")
words app_manifest = some (text "/my-app/Cargo.toml")
words app_name = some (text "my-app")
words root = none
words packages = none
words lib = none
words app = none

abbrev elements : Node → Option (List Node)
elements packages = some (lib ∷ app ∷ [])
elements root = none
elements target = none
elements lib = none
elements lib_manifest = none
elements lib_name = none
elements app = none
elements app_manifest = none
elements app_name = none

abbrev workspace : Bool → Bool → Cargo Node
workspace builds there = record {
  metadata = ok (true, []);
  from_slice = λ output. ok root;
  get = field;
  as_str = words;
  as_array = elements;
  current_dir = ok (text "/my-app");
  parent = λ path.
      if text_eq path (text "/lib/Cargo.toml") then some (text "/lib") else some (text "/my-app");
  components = λ path. path ∷ [];
  exists = λ path. if text_eq path (text "/my-app/src/lib.rs") then true else there;
  build = λ triple package_root. ok builds;
}

found_here :
    get_project_info (workspace true true) ≡ ok (text "target", text "my-app", text "/my-app")
unfolding get_project_info text_eq ◌>>=◌
found_here = refl

built : handle_run (workspace true true) ≡ ok (text "target/wasm32-wasip3/release/my_app.wasm")
unfolding handle_run get_project_info build_project default_artifact_path text_eq ◌>>=◌ ends_with
built = refl

not_built : handle_run (workspace false true) ≡ err (text "Build failed for target wasm32-wasip3")
unfolding handle_run get_project_info build_project text_eq ◌>>=◌ ends_with
not_built = refl

not_there :
    handle_run (workspace true false)
    ≡ err (
        text
          "Error: Could not find compiled WASIp3 component at: target/wasm32-wasip3/release/my_app.wasm")
unfolding handle_run get_project_info build_project default_artifact_path text_eq ◌>>=◌ ends_with
not_there = refl
