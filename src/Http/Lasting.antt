-- ===== src/Http/Lasting.antt =====
-- A function between its owner's requests: the handlers of server/src/main.rs one after another.
use faasta.Prelude.{
  Text, true, Option, none, some, List, [], ◌∷◌, All, ◌≡◌, ◌≢◌, ◌⊎◌, inl, inr, ap, sym, subst, ◌∙◌,
  Result, ok, err, ok-injective, Bool-cases, Option-cases, text_eq, text_eq_iff, is_empty,
}
use faasta.Prelude.Dict
use faasta.Prelude.Dict.{Dict, lookup-insert}
use faasta.Db.{Bytes}
use faasta.GithubAuth.{GithubAuth}
use faasta.Server.{FunctionInfo, Server, Outside, wasm_file}
use faasta.Metrics.{Metrics}
use faasta.Routing.{resolve_function_name, sanitize_function_name}
use faasta.Rpc.{authenticated, publish_impl, unpublish_impl, new_info}
use faasta.Rpc.Keeps.{list_functions_impl_lem, get_metrics_impl_lem}
use faasta.Rpc.Publish.{Owns, publish_impl_guarded}
use faasta.Rpc.Unpublish.{unpublish_impl_guarded}
use faasta.Rpc.Commit.{publish_impl-Published}
use faasta.Rpc.Others.{Stands, SameFunctions-Stands, publish_impl-Stands, unpublish_impl-Stands}
use faasta.Rpc.Service.{Request, publish, unpublish, list_functions, get_metrics}
use faasta.Wire.{HttpRequest, HttpResponse, hyper_response_to_worker, faasta_response_to_http}
use faasta.Http.{
  Engine, Authorization, absent, unreadable, present, artifact_path, function_dispatch,
  bearer_token, publish_handler, publish_as, publish_body, with_service,
}
use faasta.Http.Answers.{Works, artifact_path_lem, dispatch-answers}
use faasta.Http.Guards.{Loaded, Touched, function_dispatch_guarded, published-state}
use faasta.Http.Front.{
  Wrapper, HttpCall, health, metrics, rpc, upload, visit, call_method, dispatched, rpc_handler,
  respond, respond_all,
}

module _ (name : Text) (bytes meta : Bytes) (info : FunctionInfo) where
  abbrev Stays : Server → Type 0
  Stays s = Stands name bytes meta s

  -- The encoding reads the metadata back, and the token is not the owner's.
  abbrev pub Foreign : Outside → Text → Type 0
  Foreign out token =
      (out.info_codec.decode meta ≡ ok info) × (authenticated out token ≢ ok info.owner)

  owner-Owns :
      (out : Outside) (token username : Text) (s : Server)
      → Foreign out token
      → Stays s
      → authenticated out token ≡ ok username
      → Owns out s name username
      → ⊥
  owner-Owns out token username s (decodes, foreign) p user owns =
      let entry : some owns.entry ≡ some meta = sym owns.stored ∙ p.stored in
      foreign (cc (entry, owns.decodes, owns.owner, decodes, user))

  publish-Stands :
      (out : Outside) (contents : Bytes) (other token : Text) (s : Server)
      → Foreign out token
      → Stays s
      → Stays (publish_impl out contents other token s).1
  publish-Stands out contents other token s h p = elim (Bool-cases (text_eq other name)) [
    | inr distinct ↦
        (publish_impl-Stands name bytes meta out other distinct contents token).from s p
    | inl e ↦
        let same = (text_eq_iff other name).0 e in
        rw same (elim (publish_impl_guarded out contents name token s) [
          | inl quiet ↦ SameFunctions-Stands name bytes meta s _ quiet p
          | inr a ↦ elim a.right [
            | inl (fresh, room) ↦ cc (fresh, p.artifact)
            | inr owns ↦ absurd (owner-Owns out token a.username s h p a.user owns)
          ]
        ])
  ]

  unpublish-Stands :
      (out : Outside) (other token : Text) (s : Server)
      → Foreign out token
      → Stays s
      → Stays (unpublish_impl out other token s).1
  unpublish-Stands out other token s h p = elim (Bool-cases (text_eq other name)) [
    | inr distinct ↦ (unpublish_impl-Stands name bytes meta out other distinct token).from s p
    | inl e ↦
        let same = (text_eq_iff other name).0 e in
        rw same (elim (unpublish_impl_guarded out name token s) [
          | inl quiet ↦ subst Stays (sym quiet) p
          | inr m ↦ absurd (owner-Owns out token m.username s h p m.user m.owns)
        ])
  ]

  abbrev ForeignRequest : Outside → Request → Type 0
  ForeignRequest out (publish contents other token) = Foreign out token
  ForeignRequest out (unpublish other token) = Foreign out token
  ForeignRequest out (list_functions token) = Unit
  ForeignRequest out (get_metrics report token) = Unit

  call_method-Stands :
      (out : Outside) (request : Request) (s : Server)
      → ForeignRequest out request
      → Stays s
      → Stays (call_method out request s).1
  unfolding call_method
  call_method-Stands out (publish contents other token) s h p =
      publish-Stands out contents other token s h p
  call_method-Stands out (unpublish other token) s h p = unpublish-Stands out other token s h p
  call_method-Stands out (list_functions token) s h p =
      subst Stays (sym (list_functions_impl_lem out token s)) p
  call_method-Stands out (get_metrics report token) s h p =
      subst Stays (sym (get_metrics_impl_lem out report token s)) p

  abbrev ForeignDecoded : Outside → Result Text Request → Type 0
  ForeignDecoded out (ok request) = ForeignRequest out request
  ForeignDecoded out (err e) = Unit

  abbrev ForeignHeader : Outside → Authorization → Type 0
  ForeignHeader out (present header) = Foreign out (bearer_token header)
  ForeignHeader out _ = Unit

  Loaded-Stands :
      (engine : Engine) (other : Text) (s : Server) (cache : Dict Bytes)
      → Loaded engine other s cache
      → Stays s
      → (Dict.lookup name cache ≡ none) ⊎ (Dict.lookup name cache ≡ some bytes)
  Loaded-Stands engine other s cache l p = rw l.cached (elim (Bool-cases (text_eq other name)) [
    | inr distinct ↦ rw (lookup-insert name other l.bytes s.cache, distinct) p.cached
    | inl e ↦ inr (lookup-insert name other l.bytes s.cache ∙ rw e (own_bytes e))
  ])
    where
      own_bytes : text_eq other name ≡ true → some l.bytes ≡ some bytes
      own_bytes e =
          let same =
            ap (λ n. Dict.lookup (artifact_path n s).0 s.files) ((text_eq_iff other name).0 e) in
          sym l.artifact
          ∙ same
          ∙ ap (λ q. Dict.lookup q.0 s.files) (artifact_path_lem name bytes s p.artifact)
          ∙ p.artifact

  Touched-Stands :
      (engine : Engine) (other : Text) (s t : Server) → Touched engine other s t → Stays s → Stays t
  Touched-Stands engine other s t h p = record {
    artifact = ap (Dict.lookup (wasm_file name)) h.files ∙ p.artifact;
    stored = ap (λ (a : GithubAuth). Dict.lookup name a.db.functions) h.auth ∙ p.stored;
    cached = elim h.cache [
      | inl same ↦ rw same p.cached
      | inr l ↦ Loaded-Stands engine other s t.cache l p
    ];
  }

  module _ (engine : Engine) (wrapper : Wrapper) where
    -- A request that asks for a publication or a removal has a token that is not the owner's.
    abbrev pub ForeignCall : HttpCall → Type 0
    ForeignCall health = Unit
    ForeignCall (metrics report) = Unit
    ForeignCall (rpc out report (ok body)) = ForeignDecoded out (wrapper.decode report body)
    ForeignCall (rpc out report (err e)) = Unit
    ForeignCall (upload out other authorization body) = ForeignHeader out authorization
    ForeignCall (visit host path body) = Unit

    dispatched-Stands :
        (out : Outside) (r : Result Text Request) (s : Server)
        → ForeignDecoded out r
        → Stays s
        → Stays (dispatched engine wrapper out r s).1
    dispatched-Stands out (err e) s h p = p
    dispatched-Stands out (ok request) s h p = call_method-Stands out request s h p

    rpc-Stands :
        (out : Outside) (report : Metrics) (body : Result Text Bytes) (s : Server)
        → ForeignCall (rpc out report body)
        → Stays s
        → Stays (rpc_handler engine wrapper out report body s).1
    unfolding rpc_handler
    rpc-Stands out report (err e) s h p = p
    rpc-Stands out report (ok body) s h p = elim (Option-cases engine.service_error) [
      | inl fine ↦ rw (fine, rpc_handler) (dispatched-Stands out (wrapper.decode report body) s h p)
      | inr (e, bad) ↦ rw (bad, rpc_handler) p
    ]

    visit-Stands :
        (base_domain : Text) (host : Option Text) (path : Text) (body : Result Text HttpRequest)
        (s : Server)
        → Stays s
        → Stays (function_dispatch engine base_domain host path body s).1
    visit-Stands base_domain host path body s p =
        elim (function_dispatch_guarded engine base_domain host path body s) [
          | inl same ↦ subst Stays (sym same) p
          | inr d ↦ Touched-Stands engine d.name s _ d.touched p
        ]

    service-Stands :
        (out : Outside) (other token : Text) (contents : Bytes) (o : Option Text) (s : Server)
        → Foreign out token
        → Stays s
        → Stays (with_service engine out other token contents o s).1
    unfolding with_service
    service-Stands out other token contents (some e) s h p = p
    service-Stands out other token contents none s h p =
        rw (published-state engine (publish_impl out contents other token s))
          (publish-Stands out contents other token s h p)

    as-Stands :
        (out : Outside) (other : Text) (authorization : Authorization) (body : Result Text Bytes)
        (s : Server)
        → ForeignHeader out authorization
        → Stays s
        → Stays (publish_as engine out other authorization body s).1
    unfolding publish_as publish_body
    as-Stands out other absent body s h p = p
    as-Stands out other unreadable body s h p = p
    as-Stands out other (present header) (err e) s h p = p
    as-Stands out other (present header) (ok contents) s h p =
        elim (Bool-cases (is_empty contents)) [
          | inl empty ↦ rw empty p
          | inr filled ↦
              rw filled
                (service-Stands out other (bearer_token header) contents engine.service_error s h p)
        ]

    upload-Stands :
        (out : Outside) (function_name : Text) (authorization : Authorization)
        (body : Result Text Bytes) (s : Server)
        → ForeignHeader out authorization
        → Stays s
        → Stays (publish_handler engine out function_name authorization body s).1
    unfolding publish_handler
    upload-Stands out function_name authorization body s h p =
        elim (Option-cases (sanitize_function_name function_name)) [
          | inl dirty ↦ rw (dirty, publish_handler) p
          | inr (other, clean) ↦
              rw (clean, publish_handler) (as-Stands out other authorization body s h p)
        ]

    module _ (base_domain : Text) where
      respond-Stands :
          (call : HttpCall) (s : Server)
          → ForeignCall call
          → Stays s
          → Stays (respond engine wrapper base_domain call s).1
      unfolding respond
      respond-Stands health s h p = p
      respond-Stands (metrics report) s h p = p
      respond-Stands (rpc out report body) s h p = rpc-Stands out report body s h p
      respond-Stands (upload out other authorization body) s h p =
          upload-Stands out other authorization body s h p
      respond-Stands (visit host path body) s h p = visit-Stands base_domain host path body s p

      respond_all-Stands :
          (calls : List HttpCall) (s : Server)
          → All ForeignCall calls
          → Stays s
          → Stays (respond_all engine wrapper base_domain calls s)
      unfolding respond_all
      respond_all-Stands [] s h p = p
      respond_all-Stands (call ∷ calls) s (h, hs) p =
          respond_all-Stands calls _ hs (respond-Stands call s h p)

-- Once a publication has succeeded, a request whose address leads to the name is answered by the
-- component of the artifact that was published, whatever requests of any kind were handled in
-- between, as long as none of them asks for a publication or a removal with a token of the owner;
-- where the name passes the character check, the component compiles, nothing around it fails, it gives this
-- answer with the stores as they are by then, and the encoding reads the metadata back.
pub publication-lasts :
    (engine : Engine) (wrapper : Wrapper) (out : Outside) (bytes : Bytes)
    (name token username message : Text) (meta : Bytes) (s : Server) (calls : List HttpCall)
    → (base_domain : Text) (host : Option Text) (path : Text) (request : HttpRequest)
      (response : HttpResponse)
    → (publish_impl out bytes name token s).0 ≡ ok message
    → authenticated out token ≡ ok username
    → out.info_codec.encode (new_info out username name) ≡ ok meta
    → All (ForeignCall name bytes meta (new_info out username name) engine wrapper) calls
    → resolve_function_name host path base_domain ≡ some name
    → sanitize_function_name name ≡ some name
    → Works engine name bytes
        (respond_all engine wrapper base_domain calls (publish_impl out bytes name token s).1).past
        request
        response
    → (respond engine wrapper base_domain
        (visit host path (ok request))
        (respond_all engine wrapper base_domain calls (publish_impl out bytes name token s).1)).0
      ≡ faasta_response_to_http engine.http (hyper_response_to_worker engine.http response)
unfolding respond
publication-lasts engine wrapper out bytes name token username message meta s calls base_domain host
      path request response done user encoded foreign resolved clean w =
    let (username', user', p) = publish_impl-Published out bytes name token message s done in
    let same = ok-injective username' username (sym user' ∙ user) in
    let coded =
      ok-injective p.meta meta
        (sym p.encoded ∙ ap (λ u. out.info_codec.encode (new_info out u name)) same ∙ encoded) in
    let t = respond_all engine wrapper base_domain calls (publish_impl out bytes name token s).1 in
    let stands : Stands name bytes meta t =
      (respond_all-Stands name bytes meta (new_info out username name) engine wrapper base_domain
        calls _ foreign
        (record {
          artifact = p.artifact;
          stored = p.stored ∙ ap (λ m. some m) coded;
          cached = inl p.cleared;
        })) in
    dispatch-answers engine name bytes request response base_domain host path t w stands.artifact
      stands.cached resolved clean
