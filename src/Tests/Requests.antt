-- ===== src/Tests/Requests.antt =====
-- Requests over HTTP on the server of Tests, with an engine whose components give back what they get.
use faasta.Prelude.{
  Text, text, List, Result, ok-injective, text_eq_iff, ◌∙◌, none, some, [], ◌∷◌, ◌≡◌, ◌≢◌,
  if◌then◌else◌, split_once, trim, strip_prefix, is_whitespace, ◌⊎◌, refl, sym, ok, some, ◌>>=◌,
  text_eq, is_ascii_alphanumeric, before, ends_with, split, trim_start_matches,
}
use faasta.Prelude.Dict
use faasta.Server.{FunctionError, Event, Server, Outside, remove_from_cache}
use faasta.Routing.{resolve_function_name, sanitize_function_name}
use faasta.Rpc.{
  publish_impl, authenticated, new_info, valid_name, claim, register, record_info, require,
  create_temp, write_temp, sync_temp, rename_temp, commit_artifact,
}
use faasta.Rpc.Publish.{SameFunctions}
use faasta.Wire.{
  HttpLibrary, HttpRequest, HttpResponse, put, build_faasta_request, build_hyper_request,
  hyper_response_to_worker, faasta_response_to_http,
}
use faasta.Wire.Delivery.{IsFaithful, request-delivered, response-delivered}
use faasta.Http.{Engine, bearer_token, present, publish_handler, function_dispatch}
use faasta.Http.Guards.{MayPublish, Dispatched, function_dispatch_guarded, publish_handler_guarded}
use faasta.Http.Answers.{Works}
use faasta.Http.Front.{Wrapper, HttpCall, visit, upload, rpc, respond, respond_all}
use faasta.Http.Lasting.{publication-lasts}
use faasta.Metrics.{Metrics}
use faasta.GithubAuth.{
  Reply, authenticate_github, token_parts, can_upload_project, add_project, with_project,
  store_user,
}
use faasta.GithubAuth.{answered as replied}
use faasta.Rpc.Service.{unpublish}
use faasta.Db
use faasta.Tests.{empty_server, calm, token, artifact}
use faasta.Tests.Publications.{app, done_message}

-- Everything is kept as it is written.
abbrev pub plain_http : HttpLibrary
plain_http = record {
  uri_to_string = λ u. u;
  parse_uri = λ t. ok t;
  header_name = λ n. some n;
  header_value = λ t. some t;
  to_str = λ v. some v;
}

pub plain_http-IsFaithful : IsFaithful plain_http
plain_http-IsFaithful = record { parse-to_string = λ u. refl; value-to_str = λ v t e. sym e }

abbrev pub echo : Engine
echo = record {
  http = plain_http;
  compile_error = λ precompiled bytes. none;
  sandbox_error = λ past name. none;
  sql_error = λ past name. none;
  service_error = none;
  answer = λ past name component request.
      ok (record { status = 200; headers = request.headers; body = request.body });
  to_json = λ payload. [];
}

abbrev pub question : HttpRequest
question = record {
  method = put;
  uri = text "/app/x";
  headers = (text "accept", text "text/html") ∷ [];
  body = 7 ∷ [];
}

abbrev pub reply : HttpResponse
reply = record { status = 200; headers = (text "accept", text "text/html") ∷ []; body = 7 ∷ [] }

request-delivered_example :
    build_hyper_request plain_http (build_faasta_request plain_http question) ≡ ok question
request-delivered_example =
    request-delivered plain_http plain_http-IsFaithful question tt
      (record { content = text "text/html"; named = refl; readable = refl }, tt)

response-delivered_example :
    faasta_response_to_http plain_http (hyper_response_to_worker plain_http reply) ≡ reply
response-delivered_example =
    response-delivered plain_http plain_http-IsFaithful reply refl
      (record { content = text "text/html"; named = refl; readable = refl }, tt)

abbrev header : Text
header = text "Bearer ann:secret"

publish_handler_guarded_example :
    SameFunctions empty_server
      (publish_handler echo calm app (present header) (ok artifact) empty_server).1
    ⊎ MayPublish calm app (present header) (ok artifact) empty_server
publish_handler_guarded_example =
    publish_handler_guarded echo calm app (present header) (ok artifact) empty_server

abbrev pub base : Text
base = text "faasta.lol"

abbrev published_server : Server
published_server = (publish_impl calm artifact app token empty_server).1

function_dispatch_guarded_example :
    ((function_dispatch echo base (some base) (text "/app/x") (ok question) published_server).1
      ≡ published_server)
    ⊎ Dispatched echo base
        (some base)
        (text "/app/x")
        published_server
        (function_dispatch echo base (some base) (text "/app/x") (ok question) published_server).1
function_dispatch_guarded_example =
    function_dispatch_guarded echo base (some base) (text "/app/x") (ok question) published_server

pub app_resolved : resolve_function_name (some base) (text "/app/x") base ≡ some app
unfolding resolve_function_name before ends_with text_eq split trim_start_matches
app_resolved = refl

pub app_clean : sanitize_function_name app ≡ some app
unfolding sanitize_function_name is_ascii_alphanumeric
app_clean = refl

pub echo-Works : (past : List Event) → Works echo app artifact past question reply
unfolding build_hyper_request build_faasta_request
echo-Works past = record {
  compiles = refl;
  sandbox = refl;
  sql = refl;
  received = question;
  built = refl;
  answers = refl;
}

-- Two users, and metadata that is read back whole.
abbrev two_users : Text → Reply
two_users secret =
    if text_eq secret (text "secret")
    then replied 200 (ok (some (text "ann")))
    else replied 200 (ok (some (text "bob")))

abbrev shared : Outside
shared = record calm {
  github = two_users;
  info_codec = record {
    encode = λ info. ok info.owner;
    decode = λ bytes. ok (new_info calm bytes app);
  };
}

abbrev bare_wrapper : Wrapper
bare_wrapper = record {
  decode = λ report body. ok (unpublish app (text "bob:word"));
  encode = λ reply. ok [];
  response_from_bytes = λ bytes. record { status = 200; headers = []; body = bytes };
  to_vec = λ report. ok [];
}

abbrev empty_report : Metrics
empty_report = record { total_time = 0; total_calls = 0; function_metrics = [] }

-- A visit, an upload of bob's under ann's name, and a removal that bob asks for.
abbrev bobs_calls : List HttpCall
bobs_calls =
    visit (some base) (text "/app/x") (ok question)
    ∷ upload shared app (present (text "Bearer bob:word")) (ok (9 ∷ []))
    ∷ rpc shared empty_report (ok [])
    ∷ []

shared_published : (publish_impl shared artifact app token empty_server).0 ≡ ok done_message
unfolding publish_impl ◌>>=◌ authenticated authenticate_github token_parts valid_name claim register
    create_temp write_temp sync_temp rename_temp commit_artifact record_info require
    remove_from_cache add_project store_user with_project can_upload_project Dict.lookup Dict.insert
    Dict.erase text_eq split_once trim strip_prefix is_ascii_alphanumeric is_whitespace Db.put_user
    Db.put_function
shared_published = refl

ann_authenticated : authenticated shared token ≡ ok (text "ann")
unfolding authenticated authenticate_github token_parts text_eq split_once trim strip_prefix
    is_whitespace
ann_authenticated = refl

bob_uploads : authenticated shared (bearer_token (text "Bearer bob:word")) ≡ ok (text "bob")
unfolding authenticated authenticate_github token_parts bearer_token text_eq split_once trim
    strip_prefix is_whitespace
bob_uploads = refl

bob_removes : authenticated shared (text "bob:word") ≡ ok (text "bob")
unfolding authenticated authenticate_github token_parts text_eq split_once trim strip_prefix
    is_whitespace
bob_removes = refl

bob-ne-ann : (r : Result FunctionError Text) → r ≡ ok (text "bob") → r ≢ ok (text "ann")
unfolding text_eq
bob-ne-ann r bob ann =
    let same =
      (text_eq_iff (text "bob") (text "ann")).1
        (ok-injective (text "bob") (text "ann") (sym bob ∙ ann)) in
    cc same

publication-lasts_example :
    (respond echo bare_wrapper base (visit (some base) (text "/app/x") (ok question)) (
      respond_all echo bare_wrapper base bobs_calls
        (publish_impl shared artifact app token empty_server).1)).0
    ≡ faasta_response_to_http echo.http (hyper_response_to_worker echo.http reply)
publication-lasts_example =
    publication-lasts echo bare_wrapper shared artifact app token (text "ann") done_message
      (text "ann") empty_server bobs_calls base (some base) (text "/app/x") question reply
      shared_published ann_authenticated refl
      (tt, ((refl, bob-ne-ann _ bob_uploads), ((refl, bob-ne-ann _ bob_removes), tt))) app_resolved
      app_clean (echo-Works _)
