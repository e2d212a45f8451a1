-- ===== src/Cli/Auth/Projects.antt =====
-- The secrets of the projects in the file of cli/src/auth.rs.
use faasta.Prelude.{
  Text, Option, none, some, ◌≡◌, refl, ap, Result, ok, err, ◌>>=◌, text_eq, if◌then◌else◌,
}
use faasta.Prelude.Dict
use faasta.Prelude.Dict.{lookup-insert}
use faasta.Db.{Bytes}
use faasta.Codec.{IsLawful}
use faasta.Cli.Auth.{
  AuthConfig, Surroundings, Keeper, write_file, get_config_path, load_config, new, save_content,
  save_config, store_project_hmac, get_project_hmac,
}

write_file-eq-ok :
    (fault : Option (Text × Bytes)) (content : Bytes) (file : Option Bytes)
    → (write_file fault content file).0 ≡ ok tt
    → (write_file fault content file).1 ≡ some content
write_file-eq-ok none content file h = refl
write_file-eq-ok (some (e, left)) content file h = cc

module _ {T : Type 0} (out : Surroundings T) where
  saved-eq-ok :
      (encoded : Result Text Bytes) (s : Keeper T)
      → (save_content out encoded s).0 ≡ ok tt
      → (content : Bytes) × (encoded ≡ ok content)
        × ((save_content out encoded s).1 ≡ record s { file = some content })
  saved-eq-ok (err e) s h = cc
  saved-eq-ok (ok content) s h = (
    content,
    refl,
    ap (λ f. record s { file = f }) (write_file-eq-ok out.write_fault content s.file h),
  )

  -- What the constructor makes of a file that holds a configuration.
  new-decoded :
      (path : Text) (content : Bytes) (config : AuthConfig)
      → get_config_path out out.config_dir ≡ ok path
      → out.read_fault ≡ none
      → out.codec.decode content ≡ ok config
      → new out (some content) ≡ ok (record { config = config; token = none; file = some content })
  unfolding new load_config
  new-decoded path content config there readable decoded = rw (there, readable, decoded) refl

  -- The secret of a project that was stored is in the file: an object that is made anew from it has the
  -- whole configuration, this secret for the project and the old ones for the others; where the encoding
  -- is lawful, the configuration has a path and the file can be read.
  pub store_project_hmac-new :
      (project_name hmac path : Text) (s : Keeper T)
      → IsLawful out.codec
      → get_config_path out out.config_dir ≡ ok path
      → out.read_fault ≡ none
      → (store_project_hmac out project_name hmac s).0 ≡ ok tt
      → let s' = (store_project_hmac out project_name hmac s).1 in
        (t : Keeper T) × (new out s'.file ≡ ok t)
        × (t.config ≡ s'.config)
        × ((other : Text)
            → get_project_hmac other t
              ≡ (if text_eq project_name other then some hmac else get_project_hmac other s))
  unfolding store_project_hmac save_config get_project_hmac ◌>>=◌
  store_project_hmac-new project_name hmac path s lawful there readable h =
      let config = record s.config {
        project_hmacs = Dict.insert project_name hmac s.config.project_hmacs;
      } in
      let (content, encoded, saved) =
        saved-eq-ok (out.codec.encode config) (record s { config = config }) h in
      let decoded = lawful.decode-encode config content encoded in
      (
        record { config = config; token = none; file = some content },
        rw saved (new-decoded path content config there readable decoded),
        rw saved refl,
        λ other. lookup-insert other project_name hmac s.config.project_hmacs,
      )
