-- ===== src/Tests/Starts.antt =====
-- A start on the disk of ann's server.
use faasta.Prelude.{Text, text, true, inl, [], none, some, ◌≡◌, refl, ok, text_eq, ◌>>=◌}
use faasta.Prelude.Dict
use faasta.Db
use faasta.GithubAuth
use faasta.GithubAuth.Persistence.{IsSynced}
use faasta.Rpc.Others.{Stands}
use faasta.Wire.{faasta_response_to_http, hyper_response_to_worker}
use faasta.Http.{function_dispatch}
use faasta.Cert.{
  obtain_or_renew_certificate, renew, needs_cert_renewal, get_ssl, install_certificate, install_key,
}
use faasta.Backends.{Clients, keyvalue_from_env, blobstore_from_env, sql_from_env, new_runtime}
use faasta.Start.{Disk, Boot, start, new_server, renew_at_start}
use faasta.Start.Restart.{restart-answers}
use faasta.Tests.{user_codec, no_fault, artifact}
use faasta.Tests.Publications.{app, anns_server}
use faasta.Tests.Requests.{echo, question, reply, base, app_resolved, app_clean, echo-Works}
use faasta.Tests.Stores.{user_codec-IsLawful}
use faasta.Tests.Certificates.{surroundings, no_files}

abbrev calm_clients : Clients
calm_clients = record {
  debug = λ path. path;
  memory_keyvalue = none;
  open_valkey = λ url. none;
  connect_valkey = λ url. none;
  ping_valkey = λ url. none;
  memory_blobstore = none;
  head_bucket = λ settings. none;
  create_dir_all = λ path. none;
  parse_dsn = λ dsn. none;
  parse_size = λ s. some 16;
  build_pool = λ dsn size. none;
  connect_postgres = λ dsn. none;
  ping_postgres = λ dsn. none;
  create_engine = none;
  add_to_linker = λ imports. none;
}

abbrev calm_boot : Boot
calm_boot = record {
  db_path = text "./data/db";
  functions_path = text "./functions";
  certs_dir = text "./certs";
  auto_cert = true;
  env = λ key. none;
  clients = calm_clients;
  surroundings = surroundings (some (text "k"));
  open_error = none;
  user_codec = user_codec;
  fault = no_fault;
  load_tls = λ certs. none;
}

abbrev anns_disk : Disk
anns_disk = record {
  files = anns_server.files;
  db = anns_server.db;
  certs = no_files;
  past = anns_server.past;
}

anns_auth-IsSynced : IsSynced user_codec anns_server.auth
unfolding Dict.lookup
anns_auth-IsSynced = record { rows = λ u. refl; keys = tt }

app-Stands : Stands app artifact (text "ann") anns_server
unfolding Dict.lookup text_eq
app-Stands = record { artifact = refl; stored = refl; cached = inl refl }

anns_started : (start calm_boot anns_disk).0 ≡ ok anns_server
unfolding start new_server renew_at_start new_runtime keyvalue_from_env blobstore_from_env
    sql_from_env obtain_or_renew_certificate renew needs_cert_renewal get_ssl install_certificate
    install_key GithubAuth.new Db.iter_users ◌>>=◌ text_eq
anns_started = refl

restart-answers_example :
    ((function_dispatch echo base (some base) (text "/app/x") (ok question) anns_server).0
      ≡ faasta_response_to_http echo.http (hyper_response_to_worker echo.http reply))
    × ((u : Text)
        → Dict.lookup u anns_server.user_projects ≡ Dict.lookup u anns_server.user_projects)
restart-answers_example =
    restart-answers calm_boot anns_disk anns_server anns_server app artifact (text "ann") echo base
      (some base) (text "/app/x") question reply refl refl user_codec-IsLawful anns_auth-IsSynced
      app-Stands anns_started app_resolved app_clean (echo-Works [])
