-- ===== src/Tests/Creations.antt =====
-- `init` in a directory that has sources.
use faasta.Prelude.{
  text, some, [], ◌∷◌, ◌≡◌, refl, none, ok, err, text_eq, ends_with, starts_with, strip_prefix,
  ◌>>=◌,
}
use faasta.Prelude.Dict
use faasta.Cli.Init.{rewrite_package_name, rewrite_lines}
use faasta.Cli.Create.{
  Disk, Filing, init, handle_new, create_in, create_dir_all, write_files, write,
}

-- A directory with sources that no package has yet.
abbrev sources : Disk
sources = record {
  dirs = text "/w" ∷ text "/w/src" ∷ [];
  files = (text "/w/src/lib.rs", text "mine") ∷ [];
}

abbrev calm : Filing
calm = record {
  current_dir = ok (text "/w");
  make_dirs = λ path dirs. ok (path ∷ dirs);
  write_fault = λ path. none;
  cargo_toml = text "[package]\nname = \"x\"\n";
  lib_rs = text "theirs";
}

init_replaces :
    (init calm sources).0 ≡ ok tt
    × Dict.lookup (text "/w/src/lib.rs") (init calm sources).1.files ≡ some (text "theirs")
unfolding init handle_new create_in create_dir_all write_files write rewrite_package_name
    rewrite_lines Dict.lookup Dict.insert text_eq ends_with starts_with strip_prefix ◌>>=◌
init_replaces = (refl, refl)

again : (init calm (init calm sources).1).0 ≡ err (text "Cargo.toml already exists in '/w/'")
unfolding init handle_new create_in create_dir_all write_files write rewrite_package_name
    rewrite_lines Dict.lookup Dict.insert text_eq ends_with starts_with strip_prefix ◌>>=◌
again = refl
