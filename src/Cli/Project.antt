-- ===== src/Cli/Project.antt =====
-- The package that the command line works on: `get_project_info`, `build_project` and `handle_run` of
-- cli/src/run.rs. Cargo, the parser of JSON and the paths of the standard library are arguments; what is
-- printed to tell that a command goes on is left out.
pub mod Package
use faasta.Prelude.{
  Text, text, Bool, true, false, Option, none, some, List, [], ◌∷◌, ◌++◌, ◌≡◌, refl, ap, Result, ok,
  err, ◌&&◌, text_eq, text_eq_iff, if◌then◌else◌, Bool-cases, inl, inr,
}
use faasta.Db.{Bytes}
use faasta.Sql.Postgres.{join}
use faasta.Cli.{Local}
use faasta.Cli.Deploy.{default_artifact_path}

-- `J` is the type of JSON values. Cargo cannot be run, or says whether it succeeded. The components of a
-- path are given as texts.
pub record Cargo (J : Type 0) : Type 0 where
  pub metadata : Result Text (Bool × Bytes)
  pub from_slice : Bytes → Result Text J
  pub get : Text → J → Option J
  pub as_str : J → Option Text
  pub as_array : J → Option (List J)
  pub current_dir : Result Text Text
  pub parent : Text → Option Text
  pub components : Text → List Text
  pub exists : Text → Bool
  pub build : Text → Text → Result Text Bool

infixl 5 ◌>>=◌
unfoldable pub ◌>>=◌ : {A B : Type 0} → Result Text A → (A → Result Text B) → Result Text B
ok a >>= f = f a
err e >>= f = err e

abbrev pub and_then : {A B : Type 0} → Option A → (A → Option B) → Option B
and_then none f = none
and_then (some a) f = f a

abbrev pub or_say : {A : Type 0} → Text → Result Text A → Result Text A
or_say what (ok a) = ok a
or_say what (err e) = err (what ++ e)

abbrev pub ok_or_say : {A : Type 0} → Text → Option A → Result Text A
ok_or_say what (some a) = ok a
ok_or_say what none = err what

abbrev pub succeeded : Text → Bool → Result Text (Unit {0})
succeeded what status = if status then ok tt else err what

abbrev pub same_components : List Text → List Text → Bool
same_components [] [] = true
same_components [] (d ∷ e) = false
same_components (c ∷ b) [] = false
same_components (c ∷ b) (d ∷ e) = text_eq c d && same_components b e

abbrev pub or_rest : {B : Type 0} → Option B → Option B → Option B
or_rest (some b) rest = some b
or_rest none rest = rest

-- `filter_map(f).next()`
abbrev pub find_map : {A B : Type 0} → (A → Option B) → List A → Option B
find_map f [] = none
find_map f (x ∷ xs) = or_rest (f x) (find_map f xs)

module _ {J : Type 0} (cargo : Cargo J) where
  abbrev pub same_file_path : Text → Text → Bool
  same_file_path a b = same_components (cargo.components a) (cargo.components b)

  -- A field that is a text.
  abbrev pub text_field : Text → J → Option Text
  text_field field value = and_then (cargo.get field value) cargo.as_str

  -- The name of a package whose manifest is in the given directory.
  abbrev pub name_in : Text → J → Option Text
  name_in dir pkg = and_then (text_field (text "manifest_path") pkg) (λ manifest_path.
      and_then (cargo.parent manifest_path)
        (λ pkg_dir. if same_file_path pkg_dir dir then text_field (text "name") pkg else none))

  unfoldable pub get_project_info : Result Text (Text × Text × Text)
  get_project_info = do
    output ← or_say (text "Failed to run cargo metadata: ") cargo.metadata
    _ ← succeeded (text "Failed to retrieve cargo metadata") output.0
    metadata ← or_say (text "Failed to parse cargo metadata: ") (cargo.from_slice output.1)
    target_directory ←
        ok_or_say (text "No 'target_directory' found in cargo metadata")
          (text_field (text "target_directory") metadata)
    packages ←
        ok_or_say (text "No 'packages' found in cargo metadata")
          (and_then (cargo.get (text "packages") metadata) cargo.as_array)
    current_dir ← or_say (text "Failed to get current directory: ") cargo.current_dir
    package_name ←
        ok_or_say (text "Could not find package for current directory")
          (find_map (name_in current_dir) packages)
    ok (target_directory, package_name, current_dir)

  unfoldable pub build_project : Text → Result Text (Unit {0})
  build_project package_root =
      if cargo.exists (join (join package_root (text "src")) (text "lib.rs"))
      then (do
        status ←
            or_say (text "Failed to run cargo build for wasm32-wasip3: ")
              (cargo.build (text "wasm32-wasip3") package_root)
        succeeded (text "Build failed for target wasm32-wasip3") status)
      else err (text "Error: src/lib.rs is missing. This file is required for Faasta functions.")

  -- `run`, which builds and runs nothing; the answer is the path that it prints.
  unfoldable pub handle_run : Result Text Text
  handle_run = do
    project ← get_project_info
    _ ← build_project project.2
    (let artifact_path = default_artifact_path project.0 project.1 in
        if cargo.exists artifact_path
        then ok artifact_path
        else err (text "Error: Could not find compiled WASIp3 component at: " ++ artifact_path))

  -- What the commands meet, with the package that cargo knows.
  abbrev pub with_cargo : Local → Local
  with_cargo here = record here {
    get_project_info = get_project_info;
    build_project = build_project;
  }
