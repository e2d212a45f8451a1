-- ===== src/Wire/Delivery.antt =====
-- Requests and responses pass between the server and a function unchanged.
use faasta.Prelude.{Text, true, some, List, [], ◌∷◌, map, ◌≡◌, refl, ok, All}
use faasta.Db.{Bytes}
use faasta.Wire.{
  Method, get, post, put, delete, patch, head, options, other, HttpLibrary, HttpRequest,
  HttpResponse, method_code, method_from_wire, is_status, wire_header, build_faasta_request,
  build_hyper_request, http_headers, worker_headers, hyper_response_to_worker,
  faasta_response_to_http,
}

-- One of the seven methods that have a code.
abbrev pub IsCoded : Method → Type 0
IsCoded (other name) = ⊥
IsCoded _ = Unit

method-roundtrip : (m : Method) → IsCoded m → method_from_wire (method_code m) ≡ m
method-roundtrip get h = refl
method-roundtrip post h = refl
method-roundtrip put h = refl
method-roundtrip delete h = refl
method-roundtrip patch h = refl
method-roundtrip head h = refl
method-roundtrip options h = refl
method-roundtrip (other name) h = absurd h

-- What the http library promises of what it printed itself.
pub record IsFaithful (http : HttpLibrary) : Type 0 where
  pub parse-to_string : (u : Bytes) → http.parse_uri (http.uri_to_string u) ≡ ok u
  pub value-to_str : (v : Bytes) (t : Text) → http.to_str v ≡ some t → http.header_value t ≡ some v

-- A header with a name that the library knows and a value that is text.
pub record IsPlain (http : HttpLibrary) (header : Text × Bytes) : Type 0 where
  pub content : Text
  pub named : http.header_name header.0 ≡ some header.0
  pub readable : http.to_str header.1 ≡ some content

module _ (http : HttpLibrary) (faithful : IsFaithful http) where
  wired-headers :
      (headers : List (Text × Bytes))
      → All (IsPlain http) headers
      → http_headers http (map (wire_header http) headers) ≡ headers
  unfolding http_headers
  wired-headers [] h = refl
  wired-headers ((name, value) ∷ headers) (p, h) =
      rw
        (
          p.readable,
          p.named,
          faithful.value-to_str value p.content p.readable,
          wired-headers headers h,
        )
        refl

  worker-headers :
      (headers : List (Text × Bytes))
      → All (IsPlain http) headers
      → http_headers http (worker_headers http headers) ≡ headers
  unfolding http_headers worker_headers
  worker-headers [] h = refl
  worker-headers ((name, value) ∷ headers) (p, h) =
      rw
        (
          p.readable,
          p.named,
          faithful.value-to_str value p.content p.readable,
          worker-headers headers h,
        )
        refl

  -- The function receives the request that the server got, its method, address, headers and body,
  -- where the http library reads back what it prints, the method has a code and every header is
  -- plain text.
  pub request-delivered :
      (request : HttpRequest)
      → IsCoded request.method
      → All (IsPlain http) request.headers
      → build_hyper_request http (build_faasta_request http request) ≡ ok request
  unfolding build_hyper_request build_faasta_request
  request-delivered request coded plain =
      rw
        (
          faithful.parse-to_string request.uri,
          build_hyper_request,
          wired-headers request.headers plain,
          method-roundtrip request.method coded,
        )
        refl

  -- The client receives the response that the function gave, where the http library reads back
  -- what it prints, the status is one that http allows and every header is plain text.
  pub response-delivered :
      (response : HttpResponse)
      → is_status response.status ≡ true
      → All (IsPlain http) response.headers
      → faasta_response_to_http http (hyper_response_to_worker http response) ≡ response
  unfolding faasta_response_to_http hyper_response_to_worker
  response-delivered response allowed plain =
      rw (allowed, worker-headers response.headers plain) refl
