-- ===== src/Http/Answers.antt =====
-- The function's answer, from its artifact: `function_dispatch` of server/src/main.rs; and the token of a
-- header.
use faasta.Prelude.{
  ℕ, ◌≤◌, ◌+◌, zero, suc, Text, text, true, false, Option, none, some, List, [], ◌∷◌, ap, ◌∙◌,
  bind-answer, ◌≡◌, refl, arith, Result, ok, err, ◌>>=◌, ◌⊎◌, Option-cases, inl, inr, length,
  strip_prefix, trim,
}
use faasta.Prelude.Dict
use faasta.Db.{Bytes}
use faasta.Server.{Event, sandboxed, opened_sql, Server, wasm_file}
use faasta.Routing.{resolve_function_name, sanitize_function_name}
use faasta.Wire.{
  HttpRequest, HttpResponse, build_faasta_request, build_hyper_request, hyper_response_to_worker,
  faasta_response_to_http,
}
use faasta.Http.{
  Engine, artifact_path, effect, function_exists, compiled, load, run_component, run, ensure_exists,
  invoke, answered, function_dispatch, bearer_token, without_bearer,
}

pub artifact_path_lem :
    (name : Text) (bytes : Bytes) (s : Server)
    → Dict.lookup (wasm_file name) s.files ≡ some bytes
    → artifact_path name s ≡ (wasm_file name, false)
unfolding artifact_path
artifact_path_lem name bytes s artifact = rw artifact refl

-- After these events nothing fails on the way to the component, and it gives this response.
pub record Works (engine : Engine) (name : Text) (bytes : Bytes) (past : List Event)
    (request : HttpRequest) (response : HttpResponse) : Type 0 where
  pub compiles : engine.compile_error false bytes ≡ none
  pub sandbox : engine.sandbox_error past name ≡ none
  pub sql : engine.sql_error (sandboxed name ∷ past) name ≡ none
  pub received : HttpRequest
  pub built :
      build_hyper_request engine.http (build_faasta_request engine.http request) ≡ ok received
  pub answers :
      engine.answer (opened_sql name ∷ sandboxed name ∷ past) name bytes received ≡ ok response

load_lem :
    (engine : Engine) (name : Text) (bytes : Bytes)
    → engine.compile_error false bytes ≡ none
    → (s : Server) → Dict.lookup (wasm_file name) s.files ≡ some bytes
    → (Dict.lookup name s.cache ≡ none) ⊎ (Dict.lookup name s.cache ≡ some bytes)
    → (t : Server) × (load engine name (wasm_file name, false) s ≡ (ok bytes, t))
      × (t.past ≡ s.past)
unfolding load compiled
load_lem engine name bytes compiles s artifact cached = elim cached [
  | inl absent ↦ (
    record s { cache = Dict.insert name bytes s.cache },
    rw (absent, load, artifact, compiled, compiles) refl,
    refl,
  )
  | inr there ↦ (s, rw (there, load) refl, refl)
]

module _ (engine : Engine) (name : Text) (bytes : Bytes) (request : HttpRequest)
    (response : HttpResponse) (s : Server) (w : Works engine name bytes s.past request response)
    (artifact : Dict.lookup (wasm_file name) s.files ≡ some bytes)
    (cached : (Dict.lookup name s.cache ≡ none) ⊎ (Dict.lookup name s.cache ≡ some bytes)) where
  run_component_lem :
      (t : Server)
      → t.past ≡ sandboxed name ∷ s.past
      → (run_component engine name (build_faasta_request engine.http request) bytes t).0
        ≡ ok response
  unfolding run_component ◌>>=◌ effect
  run_component_lem t same = rw (same, w.sql, w.built, w.answers) refl

  abbrev Prepared : Server
  Prepared = record s { past = sandboxed name ∷ s.past }

  run_lem :
      (run engine name
        (wasm_file name, false)
        (build_faasta_request engine.http request)
        Prepared).0
      ≡ ok response
  unfolding run
  run_lem =
      let (t, loaded, same) = load_lem engine name bytes w.compiles Prepared artifact cached in
      ap (λ x. x.0)
        (bind-answer (load engine name (wasm_file name, false)) _ Prepared t bytes loaded)
      ∙ run_component_lem t same

  pub invoke_lem :
      (invoke engine name request s).0
      ≡ ok (faasta_response_to_http engine.http (hyper_response_to_worker engine.http response))
  unfolding invoke ◌>>=◌ ensure_exists
  invoke_lem = rw (artifact_path_lem name bytes s artifact, artifact, w.sandbox, run_lem) refl

  pub exists_lem : function_exists name s ≡ true
  unfolding function_exists
  exists_lem = rw (artifact_path_lem name bytes s artifact, artifact) refl

pub answered_lem :
    (engine : Engine) (r : Result Text HttpResponse × Server) (response : HttpResponse)
    → r.0 ≡ ok response
    → (answered engine r).0 ≡ response
answered_lem engine (ok a, s) response e = ground arith
answered_lem engine (err why, s) response e = cc

-- A request whose address leads to the name is answered by the artifact's component, where the cache
-- has no other one.
pub dispatch-answers :
    (engine : Engine) (name : Text) (bytes : Bytes) (request : HttpRequest)
    (response : HttpResponse)
    → (base_domain : Text) (host : Option Text) (path : Text) (s : Server)
    → Works engine name bytes s.past request response
    → Dict.lookup (wasm_file name) s.files ≡ some bytes
    → (Dict.lookup name s.cache ≡ none) ⊎ (Dict.lookup name s.cache ≡ some bytes)
    → resolve_function_name host path base_domain ≡ some name
    → sanitize_function_name name ≡ some name
    → (function_dispatch engine base_domain host path (ok request) s).0
      ≡ faasta_response_to_http engine.http (hyper_response_to_worker engine.http response)
unfolding function_dispatch
dispatch-answers engine name bytes request response base_domain host path s w artifact cached
      resolved clean =
    rw
      (
        resolved,
        function_dispatch,
        clean,
        exists_lem engine name bytes request response s w artifact cached,
      )
      (answered_lem engine (invoke engine name request s) _
        (invoke_lem engine name bytes request response s w artifact cached))

length-strip_prefix :
    (p s rest : Text) → strip_prefix p s ≡ some rest → length s ≡ length p + length rest
unfolding strip_prefix
length-strip_prefix [] s rest e = ground arith
length-strip_prefix (c ∷ p) [] rest e = cc
length-strip_prefix (c ∷ p) (d ∷ s) rest e = ground (arith, length-strip_prefix p s rest)

without_bearer_lem :
    (n : ℕ) (s : Text) → length s ≤ n → strip_prefix (text "Bearer ") (without_bearer n s) ≡ none
unfolding without_bearer strip_prefix
without_bearer_lem zero [] h = refl
without_bearer_lem zero (c ∷ s) h = absurd (omega (arith, h))
without_bearer_lem (suc n) s h = elim (Option-cases (strip_prefix (text "Bearer ") s)) [
  | inl gone ↦ rw (gone, without_bearer) gone
  | inr (rest, there) ↦
      rw (there, without_bearer)
        (without_bearer_lem n rest
          (omega (arith, h, length-strip_prefix (text "Bearer ") s rest there)))
]

-- The token that is taken from the header no longer begins with the scheme: as many rounds as the header has
-- characters are enough.
pub bearer_token_lem : (header : Text) → strip_prefix (text "Bearer ") (bearer_token header) ≡ none
unfolding bearer_token
bearer_token_lem header =
    let token = trim header in without_bearer_lem (length token) token (omega arith)
