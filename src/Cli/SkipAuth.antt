-- ===== src/Cli/SkipAuth.antt =====
-- `deploy --skip-auth` of cli/src/main.rs.
use faasta.Prelude.{
  Text, Bool, true, none, ◌≡◌, refl, Result, ok, err, Yields, Yields-lift, Yields-pure_then,
}
use faasta.Db.{Bytes}
use faasta.Cli.{Machine, CliError, no_credentials, Local, FunctionServiceClient}
use faasta.Cli.Endpoint.{Urls}
use faasta.Cli.Deploy.{DeployArgs, upload, deploy}

abbrev Never : {A S : Type 0} → A → S → Type 0
Never a s = ⊥

module _ {R U : Type 0} (urls : Urls U) (is_ip_address : Text → Bool) (here : Local)
    (client : FunctionServiceClient R) (server : Text) where
  upload-Never :
      (name : Text) (wasm : Bytes)
      → Yields (upload here urls is_ip_address client server name wasm none) Never
  unfolding upload
  upload-Never name wasm = Yields-lift _ _ Never λ found e. absurd (nobody found e)
    where
      nobody :
          (found : Text × Text)
          → Path (Result CliError (Text × Text)) (err no_credentials) (ok found)
          → ⊥
      nobody found e = cc

  deploy-Never :
      (args : DeployArgs)
      → args.server ≡ server
      → args.skip_auth ≡ true
      → Yields (deploy here urls is_ip_address client args) Never
  unfolding deploy
  deploy-Never args same skipped = rw skipped (
      Yields-pure_then _ _ Never (
        Yields-lift _ _ Never λ project _. Yields-lift _ _ Never λ _ _.
          Yields-lift _ _ Never
            λ name _. Yields-lift _ _ Never λ wasm read. rw same (upload-Never name wasm)))

-- A deployment with `--skip-auth` never succeeds, whatever the project, the server and what is stored:
-- the upload asks for the credentials that were skipped.
pub skip_auth-fails :
    {R U : Type 0} (urls : Urls U) (is_ip_address : Text → Bool) (here : Local)
    (client : FunctionServiceClient R) (args : DeployArgs) (m : Machine R) (url : Text)
    → args.skip_auth ≡ true
    → ¬ ((deploy here urls is_ip_address client args m).0 ≡ ok url)
skip_auth-fails urls is_ip_address here client args m url skipped h =
    (deploy-Never urls is_ip_address here client args.server args refl skipped).answers m url h
