-- ===== src/Tests.antt =====
-- Values on which the theorems are tried: a server with its surroundings, and small encodings.
pub mod Publications
pub mod Requests
pub mod Stores
pub mod Queries
pub mod Blobs
pub mod Buckets
pub mod Databases
pub mod Projects
pub mod Creations
pub mod Commands
pub mod Certificates
pub mod Guests
pub mod Starts
pub mod Keepers
use faasta.Prelude.{
  ℕ, zero, suc, Text, text, Bool, true, false, Option, none, some, List, [], ◌∷◌, Result, ok, err,
  text_eq, if◌then◌else◌,
}
use faasta.Db.{Bytes, Database, MetricRow, Faults, Statement}
use faasta.Codec.{Codec}
use faasta.GithubAuth.{UserData, GithubAuth, Reply, unreachable, answered}
use faasta.Server.{Server, FunctionInfo, Outside}

abbrev pub no_fault : Faults
no_fault statement = none

abbrev pub empty_database : Database
empty_database = record { functions = []; user_data = []; metrics = [] }

abbrev pub empty_auth : GithubAuth
empty_auth = record { user_projects = []; db = empty_database }

abbrev pub empty_server : Server
empty_server = record { auth = empty_auth; files = []; cache = []; past = [] }

-- Users without projects, and ann with one.
abbrev pub encode_user : Text → List Text → Result Text Bytes
encode_user name [] = ok (0 ∷ name)
encode_user name (p ∷ []) = if text_eq name (text "ann") then ok (1 ∷ p) else err (text "too much")
encode_user name (p ∷ q ∷ ps) = err (text "too much")

abbrev pub decode_user : Bytes → Result Text UserData
decode_user [] = err (text "no data")
decode_user (zero ∷ name) = ok (record { github_username = name; projects = [] })
decode_user (suc n ∷ p) = ok (record { github_username = text "ann"; projects = p ∷ [] })

abbrev pub user_codec : Codec UserData
user_codec = record { encode = λ d. encode_user d.github_username d.projects; decode = decode_user }

-- Of the metadata only the owner is kept.
abbrev pub info_codec : Codec FunctionInfo
info_codec = record {
  encode = λ info. ok info.owner;
  decode = λ bytes. ok (record { name = []; owner = bytes; published_at = []; usage = [] });
}

abbrev pub github : Text → Reply
github token =
    if text_eq token (text "secret")
    then answered 200 (ok (some (text "ann")))
    else answered 401 (ok none)

abbrev pub calm : Outside
calm = record {
  github = github;
  user_codec = user_codec;
  info_codec = info_codec;
  now = text "2025-01-01T00:00:00Z";
  unicode_alphanumeric = λ c. false;
  fault = no_fault;
  create_fault = none;
  write_fault = none;
  cut = λ bytes. [];
  sync_fault = none;
  rename_fault = none;
  remove_fault = λ file. none;
}

abbrev pub token : Text
token = text "ann:secret"

abbrev pub artifact : Bytes
artifact = 1 ∷ 2 ∷ []
