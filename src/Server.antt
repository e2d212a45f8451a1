-- ===== src/Server.antt =====
-- What the server keeps: `FaastaServer` of server/src/wasi_server/mod.rs, the functions directory and
-- the runtime's cache; and what it is given from outside.
use faasta.Prelude.{ℕ, Text, text, Bool, Option, List, ◌++◌, ◌*◌, ok, Action}
use faasta.Prelude.Dict
use faasta.Prelude.Dict.{Dict}
use faasta.Db.{Bytes, Faults}
use faasta.Codec.{Codec}
use faasta.GithubAuth.{UserData, GithubAuth, Reply}
use faasta.Wire.{HttpRequest}

-- interface/src/lib.rs
abbrev pub max_wasm_size : ℕ
max_wasm_size = 30 * 1024 * 1024

pub data FunctionError : Type 0 where
  auth_error not_found permission_denied invalid_input internal_error : Text → FunctionError

pub record FunctionInfo : Type 0 where
  pub name : Text
  pub owner : Text
  pub published_at : Text
  pub usage : Text

-- What a call of a function does outside of the server's own maps: its sandbox directory is made, its SQL
-- store is opened, its component is run on a request, with the stores for keys, blobs and SQL at hand,
-- and the drop of its `Timer` records the call.
pub data Event : Type 0 where
  sandboxed opened_sql timed : Text → Event
  ran : Text → Bytes → HttpRequest → Event

-- The files of the functions directory by name. A cache entry stands for the component that was
-- compiled from the artifact with those bytes. The sandbox directories, the functions' stores and what
-- was timed are known by the events that led to them, the latest first.
pub record Server : Type 0 where
  pub auth : GithubAuth
  pub open auth use *
  pub files : Dict Bytes
  pub cache : Dict Bytes
  pub past : List Event

-- What one request meets: GitHub, the encodings, the clock, Unicode's tables above ASCII, and the
-- failures of the database and of the file system. A write that fails leaves a part of the bytes.
pub record Outside : Type 0 where
  pub github : Text → Reply
  pub user_codec : Codec UserData
  pub info_codec : Codec FunctionInfo
  pub now : Text
  pub unicode_alphanumeric : ℕ → Bool
  pub fault : Faults
  pub create_fault : Option Text
  pub write_fault : Option Text
  pub cut : Bytes → Bytes
  pub sync_fault : Option Text
  pub rename_fault : Option Text
  pub remove_fault : Text → Option Text

abbrev pub wasm_file : Text → Text
wasm_file name = name ++ text ".wasm"

abbrev pub cwasm_file : Text → Text
cwasm_file name = name ++ text ".cwasm"

-- `artifact_path.with_extension("wasm.tmp")`
abbrev pub temp_file : Text → Text
temp_file name = name ++ text ".wasm.tmp"

abbrev pub Handler : Type 0 → Type 0
Handler A = Action Server FunctionError A

-- `GitHubAuth`'s methods on the server's state.
abbrev pub on_auth : Action GithubAuth Text (Unit {0}) → Action Server Text (Unit {0})
on_auth m s = let (r, auth) = m s.auth in (r, record s { auth = auth })

abbrev pub set_files : Dict Bytes → Server → Server
set_files files s = record s { files = files }

-- `remove_from_cache`
unfoldable pub remove_from_cache : Text → Handler (Unit {0})
remove_from_cache name s = (ok tt, record s { cache = Dict.erase name s.cache })
