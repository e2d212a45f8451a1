-- ===== src/Tests/Keepers.antt =====
-- A file that has room for one project's secret.
use faasta.Prelude.{
  ℕ, zero, suc, Text, text, true, Option, none, some, [], ◌∷◌, ◌≡◌, refl, ap, ◌∙◌, sym,
  ok-injective, Result, ok, err, ◌>>=◌, text_eq, text_eq_iff, Bool-cases, inl, inr, if◌then◌else◌,
  ends_with,
}
use faasta.Prelude.Dict
use faasta.Prelude.Dict.{Dict}
use faasta.Db.{Bytes}
use faasta.Codec.{Codec, IsLawful}
use faasta.Cli.Auth.{
  AuthConfig, default_config, Surroundings, Keeper, unreachable, new, get_config_path,
  get_project_hmac, store_project_hmac, save_config,
}
use faasta.Cli.Auth.Projects.{store_project_hmac-new}

abbrev one_secret : Dict Text → Result Text Bytes
one_secret [] = ok []
one_secret ((p, hmac) ∷ []) =
    if text_eq p (text "app") then ok (1 ∷ hmac) else err (text "too much")
one_secret ((p, hmac) ∷ q ∷ d) = err (text "too much")

abbrev encode : ℕ → ℕ → Bytes → Option Text → Dict Text → Result Text Bytes
encode zero zero [] none hmacs = one_secret hmacs
encode zero zero [] (some id) hmacs = err (text "too much")
encode zero zero (k ∷ key) id hmacs = err (text "too much")
encode zero (suc n) key id hmacs = err (text "too much")
encode (suc n) m key id hmacs = err (text "too much")

abbrev decode : Bytes → Result Text AuthConfig
decode [] = ok default_config
decode (x ∷ hmac) = ok (record default_config { project_hmacs = (text "app", hmac) ∷ [] })

abbrev config_codec : Codec AuthConfig
config_codec = record {
  encode = λ c. encode c.app_id c.installation_id c.private_key c.user_id c.project_hmacs;
  decode = decode;
}

decode-encode :
    (a b : ℕ) (key : Bytes) (id : Option Text) (d : Dict Text) (bytes : Bytes)
    → encode a b key id d ≡ ok bytes
    → decode bytes
      ≡ ok (record {
        app_id = a;
        installation_id = b;
        private_key = key;
        user_id = id;
        project_hmacs = d;
      })
decode-encode zero zero [] none [] bytes h = ap decode (sym (ok-injective [] bytes h))
decode-encode zero zero [] none ((p, hmac) ∷ []) bytes h =
    elim (Bool-cases (text_eq p (text "app"))) [
      | inl e ↦
          let h' = rw e at h in
          ap decode (sym (ok-injective (1 ∷ hmac) bytes h'))
          ∙ ap (λ q. ok (record default_config { project_hmacs = (q, hmac) ∷ [] }))
              (sym ((text_eq_iff p (text "app")).0 e))
      | inr e ↦ let h' = rw e at h in cc h'
    ]
decode-encode zero zero [] none ((p, hmac) ∷ q ∷ d) bytes h = cc
decode-encode zero zero [] (some id) d bytes h = cc
decode-encode zero zero (k ∷ key) id d bytes h = cc
decode-encode zero (suc b) key id d bytes h = cc
decode-encode (suc a) b key id d bytes h = cc

config_codec-IsLawful : IsLawful config_codec
config_codec-IsLawful = record {
  decode-encode = λ c bytes h.
      decode-encode c.app_id c.installation_id c.private_key c.user_id c.project_hmacs bytes h;
}

abbrev home : Surroundings (Unit {0})
home = record {
  codec = config_codec;
  config_dir = some (text "/home/ann/.config");
  parent_exists = λ path. true;
  create_dir_fault = none;
  read_fault = none;
  write_fault = none;
  new_token = λ config. err (text "no network");
  headers = λ token. ok [];
  convert = λ headers. ok headers;
  get_app = λ headers. unreachable (text "no network");
}

abbrev empty_keeper : Keeper (Unit {0})
empty_keeper = record { config = default_config; token = none; file = none }

app_stored : (store_project_hmac home (text "app") (text "s") empty_keeper).0 ≡ ok tt
unfolding store_project_hmac save_config Dict.insert text_eq ◌>>=◌
app_stored = refl

home_path :
    get_config_path home home.config_dir ≡ ok (text "/home/ann/.config/faasta/github_auth.json")
unfolding get_config_path ends_with text_eq
home_path = refl

store_project_hmac-new_example :
    let s' = (store_project_hmac home (text "app") (text "s") empty_keeper).1 in
    (t : Keeper (Unit {0})) × (new home s'.file ≡ ok t)
    × (t.config ≡ s'.config)
    × ((other : Text)
        → get_project_hmac other t ≡ (
            if text_eq (text "app") other
            then some (text "s")
            else get_project_hmac other empty_keeper))
store_project_hmac-new_example =
    store_project_hmac-new home (text "app") (text "s")
      (text "/home/ann/.config/faasta/github_auth.json") empty_keeper config_codec-IsLawful
      home_path refl app_stored
