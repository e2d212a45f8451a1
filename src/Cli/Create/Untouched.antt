-- ===== src/Cli/Create/Untouched.antt =====
-- What `new` and `init` of cli/src/init.rs leave alone.
use faasta.Prelude.{
  Text, text, Bool, true, false, Option, none, some, List, ◌≡◌, ◌≢◌, refl, ap, ◌∙◌, continue,
  Result, ok, err, ◌>>=◌, text_eq_iff, Keeps, keeps_rules, arith,
}
use faasta.Prelude.Dict
use faasta.Sql.Postgres.{join}
use faasta.Cli.Create.{
  Disk, Filing, joined, refuse_if, made, create_dir_all, written, write, write_files, create_in,
  handle_new,
}

module _ (filing : Filing) (file : Text) (content : Option Text) where
  abbrev Same : Disk → Type 0
  Same disk = Dict.lookup file disk.files ≡ content

  insert-Same :
      (path s : Text) (disk : Disk)
      → path ≢ file
      → Same disk
      → Dict.lookup file (Dict.insert path s disk.files) ≡ content
  insert-Same path s disk apart h =
      Dict.lookup-insert file path s disk.files ∙ ground (arith, h, text_eq_iff path file, apart)

  written-Same :
      (fault : Option (Text × Text)) (path s : Text) (disk : Disk)
      → path ≢ file
      → Same disk
      → Same (written filing fault path s disk).1
  written-Same none path s disk apart h = insert-Same path s disk apart h
  written-Same (some (e, left)) path s disk apart h = insert-Same path left disk apart h

  write-Keeps : (path s : Text) → path ≢ file → Keeps Same (write filing path s)
  unfolding write
  write-Keeps path s apart = record {
    from = λ disk h. written-Same (filing.write_fault path) path s disk apart h;
  }

  made-Same : (r : Result Text (List Text)) (disk : Disk) → Same disk → Same (made filing r disk).1
  made-Same (ok dirs) disk h = h
  made-Same (err e) disk h = h

  create_dir_all-Keeps : (path : Text) → Keeps Same (create_dir_all filing path)
  unfolding create_dir_all
  create_dir_all-Keeps path = record {
    from = λ disk h. made-Same (filing.make_dirs path disk.dirs) disk h;
  }

  refuse_if-Keeps : (b : Bool) (e : Text) → Keeps Same (refuse_if b e)
  refuse_if-Keeps true e = search keeps_rules
  refuse_if-Keeps false e = search keeps_rules

  create_in-Keeps :
      (dir name : Text)
      → join dir (text "Cargo.toml") ≢ file
      → join (join dir (text "src")) (text "lib.rs") ≢ file
      → Keeps Same (create_in filing dir name)
  unfolding create_in write_files
  create_in-Keeps dir name toml lib =
      search (keeps_rules, refuse_if-Keeps, create_dir_all-Keeps, write-Keeps, toml, lib) depth 14

handle_new-eq :
    (filing : Filing) (name dir : Text) (disk : Disk)
    → filing.current_dir ≡ ok dir
    → handle_new filing name disk ≡ create_in filing (joined dir name) name disk
unfolding handle_new ◌>>=◌
handle_new-eq filing name dir disk here =
    ap (λ r. continue r (λ current_dir. create_in filing (joined current_dir name) name) disk) here

-- However `new` ends, a file is as it was, where it is not the project's Cargo.toml and not its src/lib.rs.
pub handle_new-others :
    (filing : Filing) (name dir file : Text) (disk : Disk)
    → filing.current_dir ≡ ok dir
    → join (joined dir name) (text "Cargo.toml") ≢ file
    → join (join (joined dir name) (text "src")) (text "lib.rs") ≢ file
    → Dict.lookup file (handle_new filing name disk).1.files ≡ Dict.lookup file disk.files
handle_new-others filing name dir file disk here toml lib =
    let kept =
      create_in-Keeps filing file (Dict.lookup file disk.files) (joined dir name) name toml lib in
    ap (λ x. Dict.lookup file x.1.files) (handle_new-eq filing name dir disk here)
    ∙ kept.from disk refl
