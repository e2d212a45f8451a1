-- ===== src/Cli/Config.antt =====
-- The configuration of the command line: `load_config`, `save_config` and the login of cli/src/main.rs.
use faasta.Prelude.{
  Bool, true, false, Text, Option, none, some, Result, ok, err, pure, lift, ◌>>=◌, ◌>>◌,
  if◌then◌else◌,
}
use faasta.Cli.{
  FaastaConfig, default_config, CliError, config_error, no_credentials, no_username, no_token,
  login_error, Local, Command, or_exit, ok_or_exit,
}

abbrev pub or_default : Result Text FaastaConfig → FaastaConfig
or_default (ok config) = config
or_default (err e) = default_config

abbrev pub read_config : Local → Option Text → Text → Result CliError FaastaConfig
read_config here (some e) content = err (config_error e)
read_config here none content = ok (or_default (here.from_str content))

-- The user name and the token, without which the commands stop.
abbrev pub credentials : FaastaConfig → Result CliError (Text × Text)
credentials config = elim config.github_username [
  | none ↦ err no_credentials
  | some username ↦ elim config.github_token [
    | none ↦ err no_credentials
    | some token ↦ ok (username, token)
  ]
]

-- What is given replaces what is kept.
abbrev pub given : Option Text → Option Text → Option Text
given (some new) old = some new
given none old = old

module _ {R : Type 0} where
  abbrev pub made : Option Text → Command R (Unit {0})
  made none m = (ok tt, record m { config_dir = true })
  made (some e) m = (err (config_error e), m)

  -- A failed write leaves a part of the text.
  abbrev pub written : Option (Text × Text) → Text → Command R (Unit {0})
  written none content m = (ok tt, record m { config_file = some content })
  written (some (e, left)) content m = (err (config_error e), record m { config_file = some left })

module _ {R : Type 0} (here : Local) where
  -- `if !config_dir.exists() { fs::create_dir_all(&config_dir)? }`
  unfoldable pub make_dir : Command R (Unit {0})
  make_dir m = if m.config_dir then (ok tt, m) else made here.mkdir_fault m

  -- `fs::write(&config_path, config_str)`
  unfoldable pub write_file : Text → Command R (Unit {0})
  write_file content = written here.write_fault content

  unfoldable pub write_config : FaastaConfig → Command R (Unit {0})
  write_config config = do
    content ← lift (or_exit config_error (here.to_string_pretty config))
    write_file content

  unfoldable pub read_or_write : Option Text → Command R FaastaConfig
  read_or_write (some content) m = (read_config here here.read_fault content, m)
  read_or_write none m = (write_config default_config >>= λ _. pure default_config) m

  unfoldable pub read_or_create : Command R FaastaConfig
  read_or_create m = read_or_write m.config_file m

  unfoldable pub load_config : Command R FaastaConfig
  load_config = do make_dir; read_or_create

  unfoldable pub save_config : FaastaConfig → Command R (Unit {0})
  save_config config = do make_dir; write_config config

  unfoldable pub load_credentials : Command R (Text × Text)
  load_credentials = do config ← load_config; lift (credentials config)

  -- `login --manual`
  unfoldable pub login_manual : Option Text → Option Text → Command R (Unit {0})
  login_manual username token = do
    config ← load_config
    username' ← lift (ok_or_exit no_username (given username config.github_username))
    token' ← lift (ok_or_exit no_token (given token config.github_token))
    save_config (record { github_username = some username'; github_token = some token' })

  -- `login`, with the result of `github_oauth_flow`
  unfoldable pub login : Result Text (Text × Text) → Command R (Unit {0})
  login flow = do
    config ← load_config
    found ← lift (or_exit login_error flow)
    save_config (record { github_username = some found.0; github_token = some found.1 })

  -- `Commands::Login`
  unfoldable pub login_command :
      Bool → Option Text → Option Text → Result Text (Text × Text) → Command R (Unit {0})
  login_command true username token flow = login_manual username token
  login_command false username token flow = login flow
