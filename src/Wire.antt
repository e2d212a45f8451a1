-- ===== src/Wire.antt =====
-- How a request reaches a function and its response comes back: `build_faasta_request` and
-- `faasta_response_to_http` of server/src/wasi_server/mod.rs, `build_hyper_request`,
-- `method_from_wire` and `hyper_response_to_worker` of server/src/wasm_function.rs. The http library's
-- checks of URIs and headers are arguments.
pub mod Delivery
use faasta.Prelude.{
  ℕ, Text, text, Bool, true, false, ◌&&◌, Option, none, some, List, [], ◌∷◌, map, Result, ok, err,
  leb, ◌==◌, if◌then◌else◌,
}
use faasta.Db.{Bytes}

pub data Method : Type 0 where
  get post put delete patch head options : Method
  other : Text → Method

pub record WireHeader : Type 0 where
  pub name : Text
  pub value : Text

pub record WasmRequest : Type 0 where
  pub method : ℕ
  pub uri : Text
  pub headers : List WireHeader
  pub body : Bytes

pub record WasmResponse : Type 0 where
  pub status : ℕ
  pub headers : List WireHeader
  pub body : Bytes

-- The http library: URIs and header values as it keeps them, and what it prints and accepts.
pub record HttpLibrary : Type 0 where
  pub uri_to_string : Bytes → Text
  pub parse_uri : Text → Result Text Bytes
  pub header_name : Text → Option Text
  pub header_value : Text → Option Bytes
  pub to_str : Bytes → Option Text

pub record HttpRequest : Type 0 where
  pub method : Method
  pub uri : Bytes
  pub headers : List (Text × Bytes)
  pub body : Bytes

pub record HttpResponse : Type 0 where
  pub status : ℕ
  pub headers : List (Text × Bytes)
  pub body : Bytes

abbrev pub method_code : Method → ℕ
method_code get = 0
method_code post = 1
method_code put = 2
method_code delete = 3
method_code patch = 4
method_code head = 5
method_code options = 6
method_code (other name) = 0

abbrev pub method_from_wire : ℕ → Method
method_from_wire method =
    if method == 0
    then get
    else if method == 1
    then post
    else if method == 2
    then put
    else if method == 3
    then delete
    else if method == 4
    then patch
    else if method == 5
    then head
    else if method == 6
    then options
    else get

abbrev pub or_empty : Option Text → Text
or_empty none = []
or_empty (some value) = value

-- A header where the library takes both its name and its value.
abbrev pub with_header : Option Text → Option Bytes → List (Text × Bytes) → List (Text × Bytes)
with_header (some name) (some value) headers = (name, value) ∷ headers
with_header (some name) none headers = headers
with_header none value headers = headers

abbrev pub with_readable : Text → Option Text → List WireHeader → List WireHeader
with_readable name (some value) headers = record { name = name; value = value } ∷ headers
with_readable name none headers = headers

abbrev pub is_status : ℕ → Bool
is_status status = leb 100 status && leb status 999

module _ (http : HttpLibrary) where
  -- A value that is no text goes on as the empty text.
  abbrev wire_header : Text × Bytes → WireHeader
  wire_header (name, value) = record { name = name; value = or_empty (http.to_str value) }

  unfoldable pub build_faasta_request : HttpRequest → WasmRequest
  build_faasta_request request = record {
    method = method_code request.method;
    uri = http.uri_to_string request.uri;
    headers = map wire_header request.headers;
    body = request.body;
  }

  http_headers : List WireHeader → List (Text × Bytes)
  http_headers [] = []
  http_headers (header ∷ headers) =
      with_header (http.header_name header.name) (http.header_value header.value)
        (http_headers headers)

  unfoldable pub build_hyper_request : WasmRequest → Result Text HttpRequest
  unfolding http_headers
  build_hyper_request request = elim (http.parse_uri request.uri) [
    | err e ↦ err (text "invalid request URI")
    | ok uri ↦ ok (record {
      method = method_from_wire request.method;
      uri = uri;
      headers = http_headers request.headers;
      body = request.body;
    })
  ]

  worker_headers : List (Text × Bytes) → List WireHeader
  worker_headers [] = []
  worker_headers ((name, value) ∷ headers) =
      with_readable name (http.to_str value) (worker_headers headers)

  -- The response of the guest, its body read.
  unfoldable pub hyper_response_to_worker : HttpResponse → WasmResponse
  unfolding worker_headers
  hyper_response_to_worker response = record {
    status = response.status;
    headers = worker_headers response.headers;
    body = response.body;
  }

  -- A status that is none gives 500 and no body; the headers stay.
  unfoldable pub faasta_response_to_http : WasmResponse → HttpResponse
  unfolding http_headers
  faasta_response_to_http resp = record {
    status = if is_status resp.status then resp.status else 500;
    headers = http_headers resp.headers;
    body = if is_status resp.status then resp.body else [];
  }
