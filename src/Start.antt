-- ===== src/Start.antt =====
-- The start of the server: `main` of server/src/main.rs up to its listeners, with `FaastaServer::new` of
-- server/src/wasi_server/mod.rs. The file system's and SQLite's failures and rustls are arguments.
pub mod Restart
use faasta.Prelude.{
  ℕ, Text, text, Bool, true, false, Option, none, some, List, [], ◌∷◌, ◌++◌, Result, ok, err,
  Action, pure, lift, ask, ◌>>=◌, ◌>>◌,
}
use faasta.Prelude.Dict
use faasta.Prelude.Dict.{Dict}
use faasta.Db.{Bytes, Database, Faults}
use faasta.Codec.{Codec}
use faasta.GithubAuth
use faasta.GithubAuth.{UserData, GithubAuth}
use faasta.Server.{Event, Server}
use faasta.Cert.{Certs, Surroundings, obtain_or_renew_certificate}
use faasta.Sql.Postgres.{join}
use faasta.Backends.{Environment, Clients, new_runtime, attempt}

-- What is on disk: the functions directory, the metadata database, the certificate; and what the calls so
-- far did to the sandbox directories and to the functions' stores, which outlive the server too.
pub record Disk : Type 0 where
  pub files : Dict Bytes
  pub db : Database
  pub certs : Certs
  pub past : List Event

-- The arguments of the program and what the start meets.
pub record Boot : Type 0 where
  pub db_path : Text
  pub functions_path : Text
  pub certs_dir : Text
  pub auto_cert : Bool
  pub env : Environment
  pub clients : Clients
  pub surroundings : Surroundings
  pub open_error : Option Text
  pub user_codec : Codec UserData
  pub fault : Faults
  pub load_tls : Certs → Option Text

module _ (boot : Boot) where
  abbrev made : Text → Text → Result Text (Unit {0})
  made path what =
      attempt (boot.clients.create_dir_all path) (what ++ boot.clients.debug path) (ok tt)

  abbrev in_context : Result Text (Unit {0}) → Result Text (Unit {0})
  in_context (ok u) = ok u
  in_context (err e) = err (text "failed to obtain TLS certificate")

  -- `if args.auto_cert`
  unfoldable pub renew_at_start : Bool → Action Disk Text (Unit {0})
  renew_at_start false d = (ok tt, d)
  renew_at_start true d =
      let (r, certs) = obtain_or_renew_certificate boot.surroundings d.certs in
      (in_context r, record d { certs = certs })

  -- `FaastaServer::new`: the functions directory is there, `main` made it.
  unfoldable pub new_server : Action Disk Text Server
  new_server = do
    lift (
        made (join boot.functions_path (text "sandbox"))
          (text "failed to create sandbox directory at "))
    found ← ask (λ d. GithubAuth.new boot.user_codec boot.fault d.db)
    auth ← lift found
    ask (λ d. record { auth = auth; files = d.files; cache = []; past = d.past })

  abbrev tls_of : Disk → Result Text (Unit {0})
  tls_of d = attempt (boot.load_tls d.certs) (text "failed to load tls assets") (ok tt)

  -- `main`, to the point where it listens. Opening the database makes tables that are not there.
  unfoldable pub start : Action Disk Text Server
  start = do
    lift (made boot.db_path (text "failed to create db directory at "))
    lift (made boot.functions_path (text "failed to create functions directory at "))
    lift (made boot.certs_dir (text "failed to create cert directory at "))
    renew_at_start boot.auto_cert
    lift (attempt boot.open_error (text "failed to open sqlite db") (ok tt))
    _ ← lift (new_runtime boot.env boot.clients)
    server ← new_server
    loaded ← ask tls_of
    lift loaded
    pure server
