-- ===== src/Http.antt =====
-- The handlers of server/src/main.rs, with `FaastaServer::invoke` of server/src/wasi_server/mod.rs and
-- `WasmFunctionRuntime` of server/src/wasm_function.rs. The engine that compiles and runs components, and
-- the encoding of JSON, are arguments; so is what comes of the effects outside of the server's maps.
pub mod Guards
pub mod Answers
pub mod Front
pub mod Lasting
use faasta.Prelude.{
  ℕ, Text, text, Bool, true, false, Option, none, some, List, [], ◌∷◌, ◌++◌, Result, ok, err,
  Action, pure, lift, ask, ◌>>=◌, ◌>>◌, is_empty, length, zero, suc, strip_prefix, trim,
  if◌then◌else◌,
}
use faasta.Prelude.Dict
use faasta.Db.{Bytes}
use faasta.Server.{
  FunctionError, auth_error, not_found, permission_denied, invalid_input, internal_error, Event,
  sandboxed, opened_sql, timed, ran, Server, Outside, wasm_file, cwasm_file,
}
use faasta.Routing.{resolve_function_name, sanitize_function_name}
use faasta.Rpc.{publish_impl}
use faasta.Wire.{
  HttpLibrary, HttpRequest, HttpResponse, WasmRequest, build_faasta_request, build_hyper_request,
  hyper_response_to_worker, faasta_response_to_http,
}

-- What is answered in JSON.
pub data Payload : Type 0 where
  success failure : Text → Payload

-- What the server runs functions with. `compile` takes an artifact, precompiled or not; a component
-- is known by the bytes it comes from. `answer` instantiates it for the tenant and lets it answer. The
-- directories and the stores are as the events so far left them, so these are arguments.
pub record Engine : Type 0 where
  pub http : HttpLibrary
  pub compile_error : Bool → Bytes → Option Text
  pub sandbox_error : List Event → Text → Option Text
  pub sql_error : List Event → Text → Option Text
  pub service_error : Option Text
  pub answer : List Event → Text → Bytes → HttpRequest → Result Text HttpResponse
  pub to_json : Payload → Bytes

abbrev Service : Type 0 → Type 0
Service A = Action Server Text A

abbrev pub is_some {ℓ} : {A : Type ℓ} → Option A → Bool
is_some none = false
is_some (some a) = true

-- `artifact_path`: the file's name, and whether it is precompiled
unfoldable pub artifact_path : Text → Server → Text × Bool
artifact_path name s =
    if is_some (Dict.lookup (wasm_file name) s.files)
    then (wasm_file name, false)
    else (cwasm_file name, true)

unfoldable pub function_exists : Text → Server → Bool
unfolding artifact_path
function_exists name s = is_some (Dict.lookup (artifact_path name s).0 s.files)

-- An effect outside of the server's maps, and what comes of it.
unfoldable pub effect : {A : Type 0} → Event → (List Event → Result Text A) → Service A
effect event outcome s = (outcome s.past, record s { past = event ∷ s.past })

-- The timer that lives as long as a call runs: its drop records the call, however the call ends.
unfoldable pub with_timer : {A : Type 0} → Text → Service A → Service A
with_timer name call s = let (r, t) = call s in (r, record t { past = timed name ∷ t.past })

abbrev pub unless {ℓ} : {A : Type ℓ} → Option Text → A → Result Text A
unless none a = ok a
unless (some e) a = err e

module _ (engine : Engine) where
  pub compiled : Text → Bool → Option Bytes → Service Bytes
  compiled name precompiled none s = (err (text "failed to load component"), s)
  compiled name precompiled (some bytes) s = elim (engine.compile_error precompiled bytes) [
    | some e ↦ (err e, s)
    | none ↦ (ok bytes, record s { cache = Dict.insert name bytes s.cache })
  ]

  -- `load`: the cached component, or the artifact's, which is then cached
  unfoldable pub load : Text → Text × Bool → Service Bytes
  unfolding compiled
  load name (path, precompiled) s = elim (Dict.lookup name s.cache) [
    | some component ↦ (ok component, s)
    | none ↦ compiled name precompiled (Dict.lookup path s.files) s
  ]

  -- `WasmFunctionRuntime::invoke` behind the load
  unfoldable pub run_component : Text → WasmRequest → Bytes → Service HttpResponse
  unfolding effect
  run_component name request component = do
    effect (opened_sql name) (λ past. unless (engine.sql_error past name) tt)
    http_request ← lift (build_hyper_request engine.http request)
    effect (ran name component http_request)
        (λ past. engine.answer past name component http_request)

  -- `WasmFunctionRuntime::invoke`
  unfoldable pub run : Text → Text × Bool → WasmRequest → Service HttpResponse
  run name path request = load name path >>= run_component name request

  unfoldable pub prepare_sandbox_path : Text → Service (Unit {0})
  unfolding effect
  prepare_sandbox_path name =
      effect (sandboxed name) (λ past. unless (engine.sandbox_error past name) tt)

  unfoldable pub ensure_exists : Text → Server → Result Text (Unit {0})
  ensure_exists path s =
      if is_some (Dict.lookup path s.files) then ok tt else err (text "function artifact missing")

  -- `FaastaServer::invoke`; what the timer records is in Metrics.
  unfoldable pub invoke : Text → HttpRequest → Service HttpResponse
  unfolding with_timer prepare_sandbox_path effect
  invoke name request s =
      (do
        lift (ensure_exists (artifact_path name s).0 s)
        prepare_sandbox_path name
        with_timer name (do
          response ← run name (artifact_path name s) (build_faasta_request engine.http request)
          pure (
              faasta_response_to_http engine.http (hyper_response_to_worker engine.http response))))
        s

  -- The encoding of these payloads, a status and a text, does not fail.
  abbrev pub json_response : ℕ → Payload → HttpResponse
  json_response status value = record {
    status = status;
    headers = (text "content-type", text "application/json") ∷ [];
    body = engine.to_json value;
  }

  abbrev pub error_response : ℕ → Text → HttpResponse
  error_response status message = json_response status (failure message)

  abbrev pub answered : Result Text HttpResponse × Server → HttpResponse × Server
  answered (ok response, s) = (response, s)
  answered (err e, s) = (error_response 500 (text "Function invocation failed"), s)

  -- A request of the fallback route: its host where that is text, its path, and its body where it could be read.
  unfoldable pub function_dispatch :
      Text → Option Text → Text → Result Text HttpRequest → Server → HttpResponse × Server
  function_dispatch base_domain host path (err e) s =
      (error_response 400 (text "Failed to read request body"), s)
  function_dispatch base_domain host path (ok request) s =
      elim (resolve_function_name host path base_domain) [
        | none ↦ (error_response 404 (text "Function name missing"), s)
        | some function_name ↦ elim (sanitize_function_name function_name) [
          | none ↦ (error_response 400 (text "Invalid function name"), s)
          | some name ↦
              if function_exists name s
              then answered (invoke name request s)
              else (error_response 404 (text "Function not found"), s)
        ]
      ]

  abbrev pub map_function_error : FunctionError → ℕ
  map_function_error (auth_error e) = 401
  map_function_error (not_found e) = 404
  map_function_error (permission_denied e) = 403
  map_function_error (invalid_input e) = 400
  map_function_error (internal_error e) = 500

-- The Authorization header of a request: missing, no text, or a text.
pub data Authorization : Type 0 where
  absent unreadable : Authorization
  present : Text → Authorization

-- `trim_start_matches("Bearer ")`: the word is taken off as often as it is in front. Each round of the
-- first argument takes one off.
pub without_bearer : ℕ → Text → Text
without_bearer zero token = token
without_bearer (suc n) token = elim (strip_prefix (text "Bearer ") token) [
  | none ↦ token
  | some rest ↦ without_bearer n rest
]

unfoldable pub bearer_token : Text → Text
unfolding without_bearer
bearer_token header = let token = trim header in without_bearer (length token) token

-- `err.to_string()`
abbrev pub error_text : FunctionError → Text
error_text (auth_error e) = text "Authentication error: " ++ e
error_text (not_found e) = text "Function not found: " ++ e
error_text (permission_denied e) = text "Permission denied: " ++ e
error_text (invalid_input e) = text "Invalid input: " ++ e
error_text (internal_error e) = text "Internal error: " ++ e

module _ (engine : Engine) where
  abbrev published : Result FunctionError Text × Server → HttpResponse × Server
  published (ok message, s) = (json_response engine 200 (success message), s)
  published (err e, s) =
      (json_response engine (map_function_error engine e) (failure (error_text e)), s)

  -- `create_service` fails where it cannot make the functions directory.
  with_service : Outside → Text → Text → Bytes → Option Text → Server → HttpResponse × Server
  with_service out name token bytes (some e) s =
      (error_response engine 500 (text "Internal server error"), s)
  with_service out name token bytes none s = published (publish_impl out bytes name token s)

  -- The name and the token are there: the body is read and the service publishes it.
  publish_body : Outside → Text → Text → Result Text Bytes → Server → HttpResponse × Server
  publish_body out name token (err e) s =
      (error_response engine 400 (text "Failed to read request body"), s)
  publish_body out name token (ok bytes) s =
      if is_empty bytes
      then (error_response engine 400 (text "Empty artifact body"), s)
      else with_service out name token bytes engine.service_error s

  publish_as : Outside → Text → Authorization → Result Text Bytes → Server → HttpResponse × Server
  publish_as out name absent body s =
      (error_response engine 401 (text "Missing Authorization header"), s)
  publish_as out name unreadable body s =
      (error_response engine 401 (text "Invalid Authorization header"), s)
  publish_as out name (present header) body s = publish_body out name (bearer_token header) body s

  unfoldable pub publish_handler :
      Outside → Text → Authorization → Result Text Bytes → Server → HttpResponse × Server
  unfolding publish_as publish_body with_service
  publish_handler out function_name authorization body s =
      elim (sanitize_function_name function_name) [
        | none ↦ (error_response engine 400 (text "Invalid function name"), s)
        | some name ↦ publish_as out name authorization body s
      ]

  -- `redirect_handler`
  unfoldable pub redirect_handler : Text → Text → HttpResponse
  redirect_handler target_domain path = record {
    status = 301;
    headers = (text "location", text "https://" ++ (target_domain ++ path)) ∷ [];
    body = [];
  }
