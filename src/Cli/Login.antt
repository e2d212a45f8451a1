-- ===== src/Cli/Login.antt =====
-- A login of cli/src/main.rs is found again by the commands after it.
use faasta.Prelude.{
  Text, Bool, true, false, Option, none, some, ◌≡◌, refl, sym, ap, ◌∙◌, Result, ok, ◌>>=◌,
  bind-answer, bind-eq-ok, lift_ok, Ensures, Ensures-then, Ensures-lift, if◌then◌else◌,
}
use faasta.Cli.{FaastaConfig, Machine, CliError, config_error, Local, or_exit-eq-ok}
use faasta.Cli.Config.{
  made, written, make_dir, write_file, write_config, read_or_create, read_or_write, load_config,
  save_config, load_credentials, login, login_command, login_manual,
}

abbrev logged_in : Text → Text → FaastaConfig
logged_in username token = record { github_username = some username; github_token = some token }

-- A configuration that is printed is read again.
pub record IsReadable (here : Local) : Type 0 where
  pub reads : here.read_fault ≡ none
  pub from_str-to_string_pretty :
      (config : FaastaConfig) (content : Text)
      → here.to_string_pretty config ≡ ok content
      → here.from_str content ≡ ok config

abbrev Anything : {R : Type 0} → Machine R → Type 0
Anything m = Unit

abbrev HasDir : {R : Type 0} → Machine R → Type 0
HasDir m = m.config_dir ≡ true

-- The directory holds this configuration.
record Holds {R : Type 0} (here : Local) (config : FaastaConfig) (m : Machine R) : Type 0 where
  pub dir : m.config_dir ≡ true
  pub content : Text
  pub file : m.config_file ≡ some content
  pub reads : here.from_str content ≡ ok config

module _ {R : Type 0} (here : Local) where
  made-HasDir :
      (fault : Option Text) (m : Machine R) → (made fault m).0 ≡ ok tt → HasDir (made fault m).1
  made-HasDir none m h = refl
  made-HasDir (some e) m h = cc

  make_dir-HasDir : Ensures Anything (make_dir {R = R} here) HasDir
  unfolding make_dir
  make_dir-HasDir = record { after = λ m _ a h. either m.config_dir m refl h }
    where
      either :
          (b : Bool) (m : Machine R)
          → m.config_dir ≡ b
          → (if b then (ok tt, m) else made here.mkdir_fault m).0 ≡ ok tt
          → HasDir (if b then (ok tt, m) else made here.mkdir_fault m).1
      either true m d h = d
      either false m d h = made-HasDir here.mkdir_fault m h

  module _ (lawful : IsReadable here) (config : FaastaConfig) where
    written-Holds :
        (fault : Option (Text × Text)) (content : Text) (m : Machine R)
        → HasDir m
        → here.to_string_pretty config ≡ ok content
        → (written fault content m).0 ≡ ok tt
        → Holds here config (written fault content m).1
    written-Holds none content m d printed h = record {
      dir = d;
      content = content;
      file = refl;
      reads = lawful.from_str-to_string_pretty config content printed;
    }
    written-Holds (some (e, left)) content m d printed h = cc

    save_config-Holds : Ensures Anything (save_config {R = R} here config) (Holds here config)
    unfolding save_config write_config write_file
    save_config-Holds = Ensures-then _ _ make_dir-HasDir (
        Ensures-lift _ _ λ content printed. record {
          after = λ m d a h.
              written-Holds here.write_fault content m d
                (or_exit-eq-ok config_error _ content printed) h;
        })

  make_dir_held : (m : Machine R) → HasDir m → make_dir here m ≡ (ok tt, m)
  unfolding make_dir
  make_dir_held m h = simp h

  load_config-Holds :
      (config : FaastaConfig) (m : Machine R)
      → IsReadable here
      → Holds here config m
      → load_config here m ≡ (ok config, m)
  unfolding load_config read_or_create read_or_write
  load_config-Holds config m lawful held =
      bind-answer (make_dir here) _ m m tt (make_dir_held m held.dir)
      ∙ ap (λ file. read_or_write here file m) held.file
      ∙ rw (lawful.reads, held.reads) refl

  -- The credentials that a configuration holds are those that the commands read.
  load_credentials-Holds :
      (username token : Text) (m : Machine R)
      → IsReadable here
      → Holds here (logged_in username token) m
      → load_credentials here m ≡ (ok (username, token), m)
  unfolding load_credentials ◌>>=◌
  load_credentials-Holds username token m lawful held =
      rw (load_config-Holds (logged_in username token) m lawful held) refl

module _ {R : Type 0} (here : Local) (username token : Text) (lawful : IsReadable here) where
  ends :
      (s : Machine R) (done : Result CliError (Unit {0}) × Machine R)
      → done.0 ≡ ok tt
      → done ≡ save_config here (logged_in username token) s
      → load_credentials here done.1 ≡ (ok (username, token), done.1)
  ends s done h e = rw e (
      load_credentials-Holds here username token (save_config here (logged_in username token) s).1
        lawful
        ((save_config-Holds here lawful (logged_in username token)).after s tt tt
          (sym (ap (λ x. x.0) e) ∙ h)))

  login-kept :
      (m : Machine R)
      → (login here (ok (username, token)) m).0 ≡ ok tt
      → load_credentials here (login here (ok (username, token)) m).1
        ≡ (ok (username, token), (login here (ok (username, token)) m).1)
  unfolding login
  login-kept m h =
      let (_, _, e1) = bind-eq-ok (load_config here) _ m h in
      ends (load_config here m).1 _ h (e1 ∙ lift_ok (username, token) _ (load_config here m).1)

  login_manual-kept :
      (m : Machine R)
      → (login_manual here (some username) (some token) m).0 ≡ ok tt
      → load_credentials here (login_manual here (some username) (some token) m).1
        ≡ (ok (username, token), (login_manual here (some username) (some token) m).1)
  unfolding login_manual
  login_manual-kept m h =
      let (_, _, e1) = bind-eq-ok (load_config here) _ m h in
      ends (load_config here m).1 _ h
        (e1 ∙ lift_ok username _ (load_config here m).1 ∙ lift_ok token _ (load_config here m).1)

-- What a login is given: by hand both credentials, or those that GitHub gives.
abbrev pub Gives :
    Bool → Option Text → Option Text → Result Text (Text × Text) → Text → Text → Type 0
Gives true given_username given_token flow username token =
    (given_username ≡ some username) × (given_token ≡ some token)
Gives false given_username given_token flow username token = flow ≡ ok (username, token)

-- Whoever logs in, by hand with both credentials or through GitHub, is found by the next command: the
-- credentials are read back as they were given, in place of older ones, where the configuration reads back
-- as it was printed.
pub login-load_credentials :
    {R : Type 0} (here : Local) (manual : Bool) (given_username given_token : Option Text)
    (flow : Result Text (Text × Text)) (username token : Text) (m : Machine R)
    → IsReadable here
    → Gives manual given_username given_token flow username token
    → (login_command here manual given_username given_token flow m).0 ≡ ok tt
    → load_credentials here (login_command here manual given_username given_token flow m).1
      ≡ (ok (username, token), (login_command here manual given_username given_token flow m).1)
unfolding login_command
login-load_credentials here true given_username given_token flow username token m lawful
      (first, second) h =
    rw (first, second) (login_manual-kept here username token lawful m (rw (first, second) at h))
login-load_credentials here false given_username given_token flow username token m lawful given h =
    rw given (login-kept here username token lawful m (rw given at h))
