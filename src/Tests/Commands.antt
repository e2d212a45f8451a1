-- ===== src/Tests/Commands.antt =====
-- A command line whose configuration is kept as plain text, before the server of Tests.
use faasta.Prelude.{
  ℕ, zero, suc, Text, text, Bool, true, false, Option, none, some, [], ◌∷◌, ◌++◌, ◌≡◌, ◌≢◌, All,
  arith, refl, sym, ap, ◌∙◌, Result, ok, err, ◌>>=◌, length, contains_char, contains_text, text_eq,
  trim, is_whitespace, split_from, strip_prefix, ends_with, before, split_once,
  is_ascii_alphanumeric,
}
use faasta.Prelude.Dict
use faasta.Db
use faasta.Db.{Bytes}
use faasta.GithubAuth.{
  authenticate_github, token_parts, can_upload_project, add_project, with_project, store_user,
}
use faasta.Server.{Server, remove_from_cache}
use faasta.Metrics.{Metrics}
use faasta.Rpc.{
  claim, register, create_temp, write_temp, sync_temp, rename_temp, commit_artifact, record_info,
  authenticated, valid_name, require, publish_impl,
}
use faasta.Routing.{resolve_function_name}
use faasta.Routing.Names.{IsNameChar}
use faasta.Cli.{FaastaConfig, Machine, Local, call}
use faasta.Cli.Config.{
  make_dir, write_file, write_config, read_or_write, read_or_create, load_config, save_config,
  load_credentials, login_command, login_manual,
}
use faasta.Cli.Login.{IsReadable, login-load_credentials}
use faasta.Cli.Urls.{extract_server_host, format_function_url}
use faasta.Cli.Reached.{format_function_url-resolve}
use faasta.Cli.Oauth.{
  Surroundings, last_value, wait_for_callback, exchanged, authorised, github_oauth_flow,
}
use faasta.Cli.LoginFlow.{IsAuthorised, github_oauth_flow-IsAuthorised}
use faasta.Cli.Endpoint
use faasta.Cli.Endpoint.{Urls, normalize_endpoint, normalize_endpoint-https}
use faasta.Cli.Deploy.{DeployArgs, deploy, upload, read_artifact}
use faasta.Cli.Deployment.{direct, Deployed, deploy-Deployed}
use faasta.Cli.SkipAuth.{skip_auth-fails}
use faasta.Tests.{empty_server, calm, artifact}

-- Both credentials, the first behind its length, or neither.
abbrev print_config : Option Text → Option Text → Result Text Text
print_config none none = ok []
print_config (some u) (some t) = ok (length u ∷ (u ++ t))
print_config none (some t) = err (text "half")
print_config (some u) none = err (text "half")

split_at : ℕ → Text → Text × Text
split_at zero s = ([], s)
split_at (suc n) [] = ([], [])
split_at (suc n) (c ∷ s) = let (a, b) = split_at n s in (c ∷ a, b)

abbrev read_parts : Text × Text → FaastaConfig
read_parts (u, t) = record { github_username = some u; github_token = some t }

abbrev read_text : Text → Result Text FaastaConfig
read_text [] = ok (record { github_username = none; github_token = none })
read_text (n ∷ s) = ok (read_parts (split_at n s))

split_at-append : (u t : Text) → split_at (length u) (u ++ t) ≡ (u, t)
unfolding split_at
split_at-append [] t = refl
split_at-append (c ∷ u) t = ap (λ p. (c ∷ p.0, p.1)) (split_at-append u t)

read_print :
    (u t : Option Text) (content : Text)
    → print_config u t ≡ ok content
    → read_text content ≡ ok (record { github_username = u; github_token = t })
read_print none none content h = sym (ap read_result h)
  where
    read_result : Result Text Text → Result Text FaastaConfig
    read_result (ok s) = read_text s
    read_result (err e) = err e
read_print (some u) (some t) content h =
    sym (ap read_result h) ∙ ap (λ p. ok (read_parts p)) (split_at-append u t)
  where
    read_result : Result Text Text → Result Text FaastaConfig
    read_result (ok s) = read_text s
    read_result (err e) = err e
read_print none (some t) content h = cc
read_print (some u) none content h = cc

abbrev here : Local
here = record {
  mkdir_fault = none;
  read_fault = none;
  write_fault = none;
  to_string_pretty = λ config. print_config config.github_username config.github_token;
  from_str = read_text;
  get_project_info = ok (text "target", text "app", text ".");
  build_project = λ package_root. ok tt;
  file_stem = λ path. none;
  exists = λ path. true;
  read = λ path. ok artifact;
}

here-IsReadable : IsReadable here
here-IsReadable = record {
  reads = refl;
  from_str-to_string_pretty =
      λ config content h. read_print config.github_username config.github_token content h;
}

abbrev fresh : Machine Server
fresh = record { config_dir = false; config_file = none; remote = empty_server }

abbrev after_login : Machine Server
after_login = (login_command here true (some (text "ann")) (some (text "secret")) (err []) fresh).1

logged_in :
    (login_command here true (some (text "ann")) (some (text "secret")) (err []) fresh).0 ≡ ok tt
unfolding login_command login_manual load_config save_config make_dir write_file write_config
    read_or_write read_or_create ◌>>=◌
logged_in = refl

login-load_credentials_example :
    load_credentials here after_login ≡ (ok (text "ann", text "secret"), after_login)
login-load_credentials_example =
    login-load_credentials here true (some (text "ann")) (some (text "secret")) (err [])
      (text "ann") (text "secret") fresh here-IsReadable (refl, refl) logged_in

abbrev no_ip : Text → Bool
no_ip host = false

app_name : All IsNameChar (text "app")
app_name = ground arith

app_filled : text "app" ≢ []
app_filled e = cc

format_function_url-resolve_example :
    (format_function_url no_ip (text "app") (extract_server_host (text "faasta.lol:4433"))
      ≡ text "https://app.faasta.lol/")
    × (resolve_function_name (some (text "app.faasta.lol")) (text "/x") (text "faasta.lol")
        ≡ some (text "app"))
unfolding contains_char text_eq
format_function_url-resolve_example =
    format_function_url-resolve no_ip (text "app") [] (text "faasta.lol") (text ":4433") (text "/x")
      app_name app_filled refl refl refl refl refl

-- A URL as its scheme and its path.
abbrev pairs : Urls (Text × Text)
pairs = record {
  parse = λ s. ok (text "http", text "/");
  scheme = λ url. url.0;
  set_scheme = λ s url. some (s, url.1);
  path = λ url. url.1;
  set_path = λ s url. (url.0, s);
  to_string = λ url. url.0 ++ url.1;
}

pairs-IsLawful : Endpoint.IsLawful pairs
pairs-IsLawful = record {
  scheme-set_scheme = λ s url url' h. same s url url' h;
  scheme-set_path = λ s url. refl;
  path-set_path = λ url. refl;
}
  where
    same :
        (s : Text) (url url' : Text × Text)
        → Path (Option (Text × Text)) (some (s, url.1)) (some url')
        → url'.0 ≡ s
    same s url url' h = cc

abbrev args : Bool → DeployArgs
args skip_auth = record {
  skip_auth = skip_auth;
  artifact_path = none;
  function_name = none;
  server = text "faasta.lol:4433";
}

-- What `login` leaves.
abbrev anns_machine : Machine Server
anns_machine = record {
  config_dir = true;
  config_file = some (3 ∷ (text "ann" ++ text "secret"));
  remote = empty_server;
}

abbrev no_metrics : Metrics
no_metrics = record { total_time = 0; total_calls = 0; function_metrics = [] }

deployed :
    (deploy here pairs no_ip (direct calm no_metrics) (args false) anns_machine).0
    ≡ ok (text "https://app.faasta.lol/")
unfolding deploy load_credentials load_config make_dir read_or_write read_or_create split_at
    read_artifact upload normalize_endpoint call format_function_url extract_server_host trim
    is_whitespace contains_text strip_prefix text_eq split_from before ends_with publish_impl ◌>>=◌
    authenticated authenticate_github token_parts valid_name claim register create_temp write_temp
    sync_temp rename_temp commit_artifact record_info require remove_from_cache add_project
    store_user with_project can_upload_project Dict.lookup Dict.insert Dict.erase split_once
    is_ascii_alphanumeric Db.put_user Db.put_function
deployed = refl

deploy-Deployed_example :
    (credentials : Text × Text) × ((load_credentials here anns_machine).0 ≡ ok credentials)
    × Deployed no_ip here calm
        (args false)
        credentials
        (text "https://app.faasta.lol/")
        (deploy here pairs no_ip (direct calm no_metrics) (args false) anns_machine).1.remote
deploy-Deployed_example =
    deploy-Deployed pairs no_ip here calm no_metrics (args false) anns_machine
      (text "https://app.faasta.lol/") deployed

skip_auth-fails_example : ¬ (
    (deploy here pairs no_ip (direct calm no_metrics) (args true) anns_machine).0
    ≡ ok (text "https://app.faasta.lol/"))
skip_auth-fails_example =
    skip_auth-fails pairs no_ip here (direct calm no_metrics) (args true) anns_machine
      (text "https://app.faasta.lol/") refl

-- A browser that comes back with the state that it was sent.
abbrev callback : Surroundings
callback = record {
  test_mode = false;
  test_username = none;
  test_token = none;
  get_oauth_client = ok tt;
  start_redirect_server = ok tt;
  open_browser = ok tt;
  csrf_state = text "s1";
  query_pairs = ok ((text "code", text "c1") ∷ (text "state", text "s1") ∷ []);
  respond = ok tt;
  exchange_code = λ code. ok (text "secret");
  login_of = λ access_token. ok (text "ann");
}

github_oauth_flow-IsAuthorised_example : IsAuthorised callback (text "ann") (text "Bearer secret")
unfolding github_oauth_flow authorised wait_for_callback exchanged last_value text_eq
github_oauth_flow-IsAuthorised_example =
    github_oauth_flow-IsAuthorised callback (text "ann") (text "Bearer secret") refl refl
