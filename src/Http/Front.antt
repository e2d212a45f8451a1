-- ===== src/Http/Front.antt =====
-- The other handlers of server/src/main.rs, and the request that any of them gets. Which handler that
-- is, bitrpc's encoding of requests and replies and serde's of a report are arguments.
use faasta.Prelude.{Text, text, Option, none, some, List, [], ◌∷◌, Result, ok, err}
use faasta.Db.{Bytes}
use faasta.Server.{FunctionError, FunctionInfo, Server, Outside}
use faasta.Metrics.{Metrics}
use faasta.Rpc.{publish_impl, unpublish_impl, list_functions_impl, get_metrics_impl}
use faasta.Rpc.Service.{Request, publish, unpublish, list_functions, get_metrics}
use faasta.Wire.{HttpRequest, HttpResponse}
use faasta.Http.{Engine, Authorization, error_response, publish_handler, function_dispatch}

-- What a method of the service gives back.
pub data RpcReply : Type 0 where
  published : Result FunctionError Text → RpcReply
  unpublished : Result FunctionError (Unit {0}) → RpcReply
  listed : Result FunctionError (List FunctionInfo) → RpcReply
  reported : Result FunctionError Metrics → RpcReply

-- bitrpc and serde. A request for a report is decoded with the report of the moment.
pub record Wrapper : Type 0 where
  pub decode : Metrics → Bytes → Result Text Request
  pub encode : RpcReply → Result Text Bytes
  pub response_from_bytes : Bytes → HttpResponse
  pub to_vec : Metrics → Result Text Bytes

unfoldable pub call_method : Outside → Request → Server → RpcReply × Server
call_method out (publish bytes name token) s =
    let (r, t) = publish_impl out bytes name token s in (published r, t)
call_method out (unpublish name token) s =
    let (r, t) = unpublish_impl out name token s in (unpublished r, t)
call_method out (list_functions token) s =
    let (r, t) = list_functions_impl out token s in (listed r, t)
call_method out (get_metrics report token) s =
    let (r, t) = get_metrics_impl out report token s in (reported r, t)

-- A request, by the handler that it goes to, with what it meets.
pub data HttpCall : Type 0 where
  health : HttpCall
  metrics : Metrics → HttpCall
  rpc : Outside → Metrics → Result Text Bytes → HttpCall
  upload : Outside → Text → Authorization → Result Text Bytes → HttpCall
  visit : Option Text → Text → Result Text HttpRequest → HttpCall

unfoldable pub health_handler : HttpResponse
health_handler = record { status = 200; headers = []; body = text "ok" }

module _ (engine : Engine) (wrapper : Wrapper) where
  abbrev encoded_report : Result Text Bytes → HttpResponse
  encoded_report (ok bytes) = record {
    status = 200;
    headers = (text "content-type", text "application/json") ∷ [];
    body = bytes;
  }
  encoded_report (err e) = error_response engine 500 (text "Failed to encode response")

  unfoldable pub metrics_handler : Metrics → HttpResponse
  metrics_handler report = encoded_report (wrapper.to_vec report)

  abbrev invalid_request : HttpResponse
  invalid_request = error_response engine 400 (text "Invalid RPC request")

  abbrev encoded_reply : Result Text Bytes → HttpResponse
  encoded_reply (ok bytes) = wrapper.response_from_bytes bytes
  encoded_reply (err e) = invalid_request

  -- `dispatch_bytes`: what a method changed stays also where its reply cannot be encoded.
  abbrev pub dispatched : Outside → Result Text Request → Server → HttpResponse × Server
  dispatched out (err e) s = (invalid_request, s)
  dispatched out (ok request) s =
      let (reply, t) = call_method out request s in (encoded_reply (wrapper.encode reply), t)

  abbrev pub with_wrapper : Option Text → Outside → Metrics → Bytes → Server → HttpResponse × Server
  with_wrapper (some e) out report bytes s =
      (error_response engine 500 (text "Internal server error"), s)
  with_wrapper none out report bytes s = dispatched out (wrapper.decode report bytes) s

  unfoldable pub rpc_handler :
      Outside → Metrics → Result Text Bytes → Server → HttpResponse × Server
  rpc_handler out report (err e) s =
      (error_response engine 400 (text "Failed to read request body"), s)
  rpc_handler out report (ok bytes) s = with_wrapper engine.service_error out report bytes s

  -- The routes of `main`.
  unfoldable pub respond : Text → HttpCall → Server → HttpResponse × Server
  respond base_domain health s = (health_handler, s)
  respond base_domain (metrics report) s = (metrics_handler report, s)
  respond base_domain (rpc out report body) s = rpc_handler out report body s
  respond base_domain (upload out function_name authorization body) s =
      publish_handler engine out function_name authorization body s
  respond base_domain (visit host path body) s =
      function_dispatch engine base_domain host path body s

  -- Requests one after another.
  unfoldable pub respond_all : Text → List HttpCall → Server → Server
  respond_all base_domain [] s = s
  respond_all base_domain (call ∷ calls) s =
      respond_all base_domain calls (respond base_domain call s).1
