-- ===== src/Cli/Create.antt =====
-- `new` and `init`: `handle_new` and `write_files` of cli/src/init.rs. The texts of the template and what
-- the file system answers are arguments; the line that tells of the success is left out.
pub mod Untouched
use faasta.Prelude.{
  Text, text, Bool, true, false, not, ◌&&◌, ◌||◌, Option, none, some, List, [], ◌∷◌, ◌++◌, ◌≡◌, ◌≢◌,
  refl, ◌∙◌, Result, ok, err, Action, pure, fail, lift, ask, ◌>>=◌, ◌>>◌, any, is_empty, text_eq,
  text_eq_iff, starts_with, if◌then◌else◌, Keeps, keeps_rules, Bool-cases, inl, inr, arith,
}
use faasta.Prelude.Dict
use faasta.Prelude.Dict.{Dict}
use faasta.Sql.Postgres.{join}
use faasta.Cli.Init.{rewrite_package_name}

pub record Disk : Type 0 where
  pub dirs : List Text
  pub files : Dict Text

-- A write that fails leaves some text.
pub record Filing : Type 0 where
  pub current_dir : Result Text Text
  pub make_dirs : Text → List Text → Result Text (List Text)
  pub write_fault : Text → Option (Text × Text)
  pub cargo_toml : Text
  pub lib_rs : Text

-- `current_dir.join(package_name)`
abbrev pub joined : Text → Text → Text
joined dir name = if starts_with (text "/") name then name else join dir name

abbrev pub is_some {ℓ} : {A : Type ℓ} → Option A → Bool
is_some none = false
is_some (some a) = true

abbrev pub has : Text → Disk → Bool
has path disk = any (text_eq path) disk.dirs || is_some (Dict.lookup path disk.files)

abbrev pub refuse_if : Bool → Text → Action Disk Text (Unit {0})
refuse_if b e = if b then fail e else pure tt

module _ (filing : Filing) where
  abbrev pub made : Result Text (List Text) → Disk → Result Text (Unit {0}) × Disk
  made (ok dirs) disk = (ok tt, record disk { dirs = dirs })
  made (err e) disk = (err e, disk)

  unfoldable pub create_dir_all : Text → Action Disk Text (Unit {0})
  create_dir_all path disk = made (filing.make_dirs path disk.dirs) disk

  abbrev pub written : Option (Text × Text) → Text → Text → Disk → Result Text (Unit {0}) × Disk
  written none path content disk =
      (ok tt, record disk { files = Dict.insert path content disk.files })
  written (some (e, left)) path content disk =
      (err e, record disk { files = Dict.insert path left disk.files })

  unfoldable pub write : Text → Text → Action Disk Text (Unit {0})
  write path content disk = written (filing.write_fault path) path content disk

  unfoldable pub write_files : Text → Text → Text → Text → Action Disk Text (Unit {0})
  write_files project_dir cargo_toml_str main_rs_str package_name = do
    write (join project_dir (text "Cargo.toml")) (rewrite_package_name cargo_toml_str package_name)
    write (join (join project_dir (text "src")) (text "lib.rs")) main_rs_str

  abbrev pub pkg_name : Text → Text
  pkg_name package_name = if is_empty package_name then text "axum_serverless" else package_name

  unfoldable pub create_in : Text → Text → Action Disk Text (Unit {0})
  create_in new_project_dir package_name = do
    taken ← ask (has new_project_dir)
    refuse_if (taken && not (is_empty package_name))
        (text "Directory '" ++ (package_name ++ text "' already exists"))
    present ← ask (has (join new_project_dir (text "Cargo.toml")))
    refuse_if present (text "Cargo.toml already exists in '" ++ (new_project_dir ++ text "'"))
    create_dir_all (join new_project_dir (text "src"))
    write_files new_project_dir filing.cargo_toml filing.lib_rs (pkg_name package_name)

  unfoldable pub handle_new : Text → Action Disk Text (Unit {0})
  handle_new package_name = do
    current_dir ← lift filing.current_dir
    create_in (joined current_dir package_name) package_name

  -- `Commands::Init`
  unfoldable pub init : Action Disk Text (Unit {0})
  init = handle_new []
