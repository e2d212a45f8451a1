-- ===== src/Http/Guards.antt =====
-- What the handlers of server/src/main.rs let through, and that a published function answers.
use faasta.Prelude.{
  Text, text, false, true, List, [], ◌∷◌, ◌++◌, All, Option, none, some, ◌≡◌, ◌⊎◌, inl, inr, refl,
  Result, ok, err, Option-cases, Bool-cases, is_empty, if◌then◌else◌, Keeps, Keeps-bind, Keeps-lift,
  Keeps-pure, ap, ◌∙◌, sym, subst, text_eq_self, ◌>>=◌, continue, ok-injective,
}
use faasta.Prelude.Dict
use faasta.Prelude.Dict.{Dict, lookup-insert}
use faasta.Db.{Bytes}
use faasta.Server.{FunctionError, Event, sandboxed, opened_sql, timed, ran, Server, Outside}
use faasta.Routing.{resolve_function_name, sanitize_function_name}
use faasta.Routing.Names.{sanitize_function_name_iff}
use faasta.Rpc.{publish_impl}
use faasta.Rpc.Publish.{Authorised, SameFunctions, SameFunctions-refl, publish_impl_guarded}
use faasta.Wire.{WasmRequest, HttpRequest, HttpResponse, build_faasta_request}
use faasta.Http.{
  Engine, Authorization, absent, unreadable, present, artifact_path, function_exists, compiled,
  load, run_component, run, effect, with_timer, prepare_sandbox_path, ensure_exists, invoke,
  answered, function_dispatch, bearer_token, error_response, published, publish_body, with_service,
  publish_as, publish_handler,
}

-- The component of the function's artifact came into the cache, where there was none.
pub record Loaded (engine : Engine) (name : Text) (s : Server) (cache : Dict Bytes) : Type 0 where
  pub bytes : Bytes
  pub artifact : Dict.lookup (artifact_path name s).0 s.files ≡ some bytes
  pub fresh : Dict.lookup name s.cache ≡ none
  pub compiles : engine.compile_error (artifact_path name s).1 bytes ≡ none
  pub cached : cache ≡ Dict.insert name bytes s.cache

-- A component is the function's: the cached one, or its artifact's where none is cached.
abbrev pub Serves : Text → Server → Bytes → Type 0
Serves name s component =
    (Dict.lookup name s.cache ≡ some component)
    ⊎ ((Dict.lookup name s.cache ≡ none)
        × (Dict.lookup (artifact_path name s).0 s.files ≡ some component))

-- An event is about the function; where a component ran, it is the function's.
abbrev pub Concerns : Text → Server → Event → Type 0
Concerns name s (sandboxed n) = n ≡ name
Concerns name s (opened_sql n) = n ≡ name
Concerns name s (timed n) = n ≡ name
Concerns name s (ran n component request) = (n ≡ name) × Serves name s component

-- What a call of a function may change: the cache, by the component of its artifact, and what is outside of
-- the server's maps, by events about the function.
pub record Touched (engine : Engine) (name : Text) (s t : Server) : Type 0 where
  pub auth : t.auth ≡ s.auth
  pub files : t.files ≡ s.files
  pub cache : (t.cache ≡ s.cache) ⊎ Loaded engine name s t.cache
  pub events : List Event
  pub past : t.past ≡ events ++ s.past
  pub own : All (Concerns name s) events

module _ (engine : Engine) (name : Text) (s : Server) where
  abbrev Its : Server → Type 0
  Its t = Touched engine name s t

  noted :
      (event : Event) (t : Server)
      → Concerns name s event
      → Its t
      → Its (record t { past = event ∷ t.past })
  noted event t concerns h = record {
    auth = h.auth;
    files = h.files;
    cache = h.cache;
    events = event ∷ h.events;
    past = ap (λ past. event ∷ past) h.past;
    own = (concerns, h.own);
  }

  effect-Keeps :
      {A : Type 0} (event : Event) (outcome : List Event → Result Text A)
      → Concerns name s event
      → Keeps Its (effect event outcome)
  unfolding effect
  effect-Keeps event outcome concerns = record { from = λ t h. noted event t concerns h }

  with_timer-Keeps :
      {A : Type 0} (call : Server → Result Text A × Server)
      → Keeps Its call
      → Keeps Its (with_timer name call)
  unfolding with_timer
  with_timer-Keeps call k = record { from = λ t h. noted (timed name) _ refl (k.from t h) }

  -- What a load leaves, and which component it answers.
  abbrev Answers : Result Text Bytes × Server → Type 0
  Answers x = Its x.1 × ((component : Bytes) → x.0 ≡ ok component → Serves name s component)

  compiled-Answers :
      (o : Option Bytes) (t : Server)
      → Dict.lookup (artifact_path name s).0 s.files ≡ o
      → Dict.lookup name s.cache ≡ none
      → t.cache ≡ s.cache
      → Its t
      → Answers (compiled engine name (artifact_path name s).1 o t)
  unfolding compiled
  compiled-Answers none t e fresh same h = (h, λ component k. cc)
  compiled-Answers (some bytes) t e fresh same h =
      elim (Option-cases (engine.compile_error (artifact_path name s).1 bytes)) [
        | inl fine ↦
            rw (fine, compiled)
              (
                record {
                  auth = h.auth;
                  files = h.files;
                  cache = inr (record {
                    bytes = bytes;
                    artifact = e;
                    fresh = fresh;
                    compiles = fine;
                    cached = ap (Dict.insert name bytes) same;
                  });
                  events = h.events;
                  past = h.past;
                  own = h.own;
                },
                λ component k. inr (fresh, e ∙ ap (λ c. some c) (ok-injective bytes component k)),
              )
        | inr (why, bad) ↦ rw (bad, compiled) (h, λ component k. cc)
      ]

  hit-Answers :
      (bytes : Bytes) (t : Server)
      → Dict.lookup name t.cache ≡ some bytes
      → Serves name s bytes
      → Its t
      → Answers (load engine name (artifact_path name s) t)
  unfolding load
  hit-Answers bytes t hit serves h =
      rw (hit, load)
        (h, λ component k. subst (Serves name s) (ok-injective bytes component k) serves)

  load-Answers : (t : Server) → Its t → Answers (load engine name (artifact_path name s) t)
  unfolding load
  load-Answers t h = elim h.cache [
    | inr l ↦
        hit-Answers l.bytes t
          (ap (Dict.lookup name) l.cached
            ∙ lookup-insert name name l.bytes s.cache
            ∙ rw (text_eq_self name) refl)
          (inr (l.fresh, l.artifact)) h
    | inl same ↦ elim (Option-cases (Dict.lookup name s.cache)) [
      | inr (component, hit) ↦
          hit-Answers component t (ap (Dict.lookup name) same ∙ hit) (inl hit) h
      | inl fresh ↦
          rw (ap (Dict.lookup name) same ∙ fresh, load)
            (compiled-Answers _ t (ap (Dict.lookup (artifact_path name s).0) (sym h.files)) fresh
              same h)
    ]
  ]

  run_component-Keeps :
      (request : WasmRequest) (component : Bytes)
      → Serves name s component
      → Keeps Its (run_component engine name request component)
  unfolding run_component
  run_component-Keeps request component serves =
      Keeps-bind _ _ (effect-Keeps (opened_sql name) _ refl) λ _.
        Keeps-bind _ _ (Keeps-lift _)
          λ http_request. effect-Keeps (ran name component http_request) _ (refl, serves)

  ran-Its :
      (request : WasmRequest) (x : Result Text Bytes) (t : Server)
      → Answers (x, t)
      → Its (continue x (run_component engine name request) t).1
  ran-Its request (err e) t (h, serves) = h
  ran-Its request (ok component) t (h, serves) =
      (run_component-Keeps request component (serves component refl)).from t h

  run-Keeps : (request : WasmRequest) → Keeps Its (run engine name (artifact_path name s) request)
  unfolding run ◌>>=◌
  run-Keeps request = record {
    from = λ t h.
        let (x, u) = load engine name (artifact_path name s) t in
        ran-Its request x u (load-Answers t h);
  }

  Its-refl : Its s
  Its-refl = record {
    auth = refl;
    files = refl;
    cache = inl refl;
    events = [];
    past = refl;
    own = tt;
  }

  invoke-Touched : (request : HttpRequest) → Its (invoke engine name request s).1
  unfolding invoke prepare_sandbox_path
  invoke-Touched request =
      (Keeps-bind {P = Its} _ _ (Keeps-lift (ensure_exists engine (artifact_path name s).0 s)) λ _.
          Keeps-bind _ _ (effect-Keeps (sandboxed name) _ refl) λ _. with_timer-Keeps _ (
            Keeps-bind _ _ (run-Keeps (build_faasta_request engine.http request))
              (λ _. Keeps-pure _))).from
        s Its-refl

-- The name in a request's address passes the character check and has an artifact, and its call may change this.
pub record Dispatched (engine : Engine) (base_domain : Text) (host : Option Text) (path : Text)
    (s t : Server) : Type 0 where
  pub name : Text
  pub resolved : resolve_function_name host path base_domain ≡ some name
  pub clean : sanitize_function_name name ≡ some name
  pub there : function_exists name s ≡ true
  pub touched : Touched engine name s t

answered-state :
    (engine : Engine) (r : Result Text HttpResponse × Server) → (answered engine r).1 ≡ r.1
answered-state engine (ok response, s) = refl
answered-state engine (err e, s) = refl

served-state :
    (engine : Engine) (base_domain : Text) (host : Option Text) (path : Text)
    (request : HttpRequest) (s : Server) (name : Text)
    → resolve_function_name host path base_domain ≡ some name
    → sanitize_function_name name ≡ some name
    → let t =
        (if function_exists name s
          then answered engine (invoke engine name request s)
          else (error_response engine 404 (text "Function not found"), s)).1 in
      (t ≡ s) ⊎ Dispatched engine base_domain host path s t
served-state engine base_domain host path request s name resolved clean =
    elim (Bool-cases (function_exists name s)) [
      | inr missing ↦ rw missing (inl refl)
      | inl there ↦
          rw (there, answered-state engine (invoke engine name request s))
            (inr (record {
              name = name;
              resolved = resolved;
              clean = clean;
              there = there;
              touched = invoke-Touched engine name s request;
            }))
    ]

-- A request to a function leaves the server as it is, or is a call of the function that the address names,
-- by a name that passes the character check and has an artifact. The call changes neither users, metadata nor
-- files of the functions directory; the cache only by the component of that function's artifact, where it had
-- none; and outside of these it does nothing but make that function's sandbox directory, open its SQL store,
-- run its component and record its time.
pub function_dispatch_guarded :
    (engine : Engine) (base_domain : Text) (host : Option Text) (path : Text)
    (body : Result Text HttpRequest) (s : Server)
    → ((function_dispatch engine base_domain host path body s).1 ≡ s)
      ⊎ Dispatched engine base_domain host path s
          (function_dispatch engine base_domain host path body s).1
unfolding function_dispatch
function_dispatch_guarded engine base_domain host path (err e) s = inl refl
function_dispatch_guarded engine base_domain host path (ok request) s =
    elim (Option-cases (resolve_function_name host path base_domain)) [
      | inl nowhere ↦ rw (nowhere, function_dispatch) (inl refl)
      | inr (n, resolved) ↦ elim (Option-cases (sanitize_function_name n)) [
        | inl dirty ↦ rw (resolved, function_dispatch, dirty) (inl refl)
        | inr (name, clean) ↦
            let (good, same) = (sanitize_function_name_iff n name).0 clean in
            rw (resolved, function_dispatch, clean)
              (served-state engine base_domain host path request s name
                (resolved ∙ ap (λ x. some x) (sym same)) (ap sanitize_function_name same ∙ clean))
      ]
    ]

-- The body was read and is not empty, the name passes the character check, and the header's token may publish under it.
pub record MayPublish (out : Outside) (function_name : Text) (authorization : Authorization)
    (body : Result Text Bytes) (s : Server) : Type 0 where
  pub header : Text
  pub sent : authorization ≡ present header
  pub bytes : Bytes
  pub received : body ≡ ok bytes
  pub filled : is_empty bytes ≡ false
  pub clean : sanitize_function_name function_name ≡ some function_name
  pub authorised : Authorised out s bytes function_name (bearer_token header)

pub published-state :
    (engine : Engine) (r : Result FunctionError Text × Server) → (published engine r).1 ≡ r.1
published-state engine (ok message, s) = refl
published-state engine (err e, s) = refl

service-guarded :
    (engine : Engine) (out : Outside) (name token : Text) (bytes : Bytes) (o : Option Text)
    (s : Server)
    → SameFunctions s (with_service engine out name token bytes o s).1
      ⊎ Authorised out s bytes name token
unfolding with_service
service-guarded engine out name token bytes (some e) s = inl (SameFunctions-refl s)
service-guarded engine out name token bytes none s =
    rw (published-state engine (publish_impl out bytes name token s))
      (publish_impl_guarded out bytes name token s)

module _ (engine : Engine) (out : Outside) (name : Text)
    (clean : sanitize_function_name name ≡ some name) (s : Server) where
  as-guarded :
      (authorization : Authorization) (body : Result Text Bytes)
      → SameFunctions s (publish_as engine out name authorization body s).1
        ⊎ MayPublish out name authorization body s
  unfolding publish_as publish_body
  as-guarded absent body = inl (SameFunctions-refl s)
  as-guarded unreadable body = inl (SameFunctions-refl s)
  as-guarded (present header) (err e) = inl (SameFunctions-refl s)
  as-guarded (present header) (ok bytes) = elim (Bool-cases (is_empty bytes)) [
    | inl empty ↦ rw empty (inl (SameFunctions-refl s))
    | inr filled ↦
        rw filled
          (elim (service-guarded engine out name (bearer_token header) bytes engine.service_error
            s) [
              | inl same ↦ inl same
              | inr a ↦ inr (record {
                header = header;
                sent = refl;
                bytes = bytes;
                received = refl;
                filled = filled;
                clean = clean;
                authorised = a;
              })
            ])
  ]

-- An upload over HTTP changes the artifacts, the metadata or the cache only where it has a body and a
-- name of ASCII letters, digits, hyphens and underscores, and its token's user may publish under it.
pub publish_handler_guarded :
    (engine : Engine) (out : Outside) (name : Text) (authorization : Authorization)
    (body : Result Text Bytes) (s : Server)
    → SameFunctions s (publish_handler engine out name authorization body s).1
      ⊎ MayPublish out name authorization body s
unfolding publish_handler
publish_handler_guarded engine out name authorization body s =
    elim (Option-cases (sanitize_function_name name)) [
      | inl dirty ↦ rw (dirty, publish_handler) (inl (SameFunctions-refl s))
      | inr (n, clean) ↦
          let (good, same) = (sanitize_function_name_iff name n).0 clean in
          rw (clean, publish_handler, same)
            (as-guarded engine out name (clean ∙ ap (λ x. some x) same) s authorization body)
    ]
