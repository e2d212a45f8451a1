-- ===== src/Cli/Requests.antt =====
-- The commands `unpublish`, `list` and `metrics` of cli/src/main.rs. How numbers and lines are laid out
-- is left out.
use faasta.Prelude.{
  Text, Bool, true, false, ◌&&◌, ◌||◌, List, [], ◌∷◌, ltb, ◌==◌, pure, lift, ◌>>=◌, if◌then◌else◌,
}
use faasta.Metrics.{Metrics}
use faasta.Server.{FunctionInfo}
use faasta.Cli.{connect_error, Local, FunctionServiceClient, Command, or_exit, call, auth_token}
use faasta.Cli.Config.{load_credentials}
use faasta.Cli.Endpoint.{Urls, normalize_endpoint}

-- `a.cmp(&b)` for two texts is not `Greater`.
abbrev pub text_leb : Text → Text → Bool
text_leb [] t = true
text_leb (c ∷ s) [] = false
text_leb (c ∷ s) (d ∷ t) = ltb c d || (c == d && text_leb s t)

-- One name is put in front of the first that is not below it.
abbrev pub insert_sorted : FunctionInfo → List FunctionInfo → List FunctionInfo
insert_sorted f [] = f ∷ []
insert_sorted f (g ∷ fs) = if text_leb f.name g.name then f ∷ g ∷ fs else g ∷ insert_sorted f fs

-- `sorted_functions.sort_by(|a, b| a.name.cmp(&b.name))`, a stable sort
abbrev pub sort_by_name : List FunctionInfo → List FunctionInfo
sort_by_name [] = []
sort_by_name (f ∷ fs) = insert_sorted f (sort_by_name fs)

module _ {R U : Type 0} (here : Local) (urls : Urls U) (client : FunctionServiceClient R) where
  unfoldable pub unpublish : Text → Text → Command R (Unit {0})
  unpublish server name = do
    found ← load_credentials here
    endpoint ← lift (or_exit connect_error (normalize_endpoint urls server))
    call (client.unpublish endpoint name (auth_token found.0 found.1))

  -- The functions in the order in which they are printed.
  unfoldable pub list_functions : Text → Text → Text → Command R (List FunctionInfo)
  list_functions endpoint username token = do
    functions ← call (client.list_functions endpoint (auth_token username token))
    pure (sort_by_name functions)

  -- `list`
  unfoldable pub list_command : Text → Command R (List FunctionInfo)
  list_command server = do
    found ← load_credentials here
    endpoint ← lift (or_exit connect_error (normalize_endpoint urls server))
    list_functions endpoint found.0 found.1

  unfoldable pub get_metrics : Text → Text → Text → Command R Metrics
  get_metrics endpoint username token =
      call (client.get_metrics endpoint (auth_token username token))

  -- `metrics`
  unfoldable pub metrics_command : Text → Command R Metrics
  metrics_command server = do
    found ← load_credentials here
    endpoint ← lift (or_exit connect_error (normalize_endpoint urls server))
    get_metrics endpoint found.0 found.1
