-- ===== src/Rpc/Service.antt =====
-- Requests one after another: the methods of `FunctionService` in server/src/rpc_service.rs. Each
-- request meets an outside of its own.
use faasta.Prelude.{Text, List, [], ◌∷◌}
use faasta.Db.{Bytes}
use faasta.Server.{Server, Outside}
use faasta.Metrics.{Metrics}
use faasta.Rpc.{publish_impl, unpublish_impl, list_functions_impl, get_metrics_impl}

pub data Request : Type 0 where
  publish : Bytes → Text → Text → Request
  unpublish : Text → Text → Request
  list_functions : Text → Request
  get_metrics : Metrics → Text → Request

unfoldable pub handle : Outside → Request → Server → Server
handle out (publish bytes name token) s = (publish_impl out bytes name token s).1
handle out (unpublish name token) s = (unpublish_impl out name token s).1
handle out (list_functions token) s = (list_functions_impl out token s).1
handle out (get_metrics report token) s = (get_metrics_impl out report token s).1

pub serve : Server → List (Outside × Request) → Server
serve s [] = s
serve s ((out, request) ∷ rest) = serve (handle out request s) rest

module _ (P : Server → Type 0)
    (step : (out : Outside) (r : Request) (s : Server) → P s → P (handle out r s)) where
  pub serve_induction :
      (s : Server) (requests : List (Outside × Request)) → P s → P (serve s requests)
  unfolding serve
  serve_induction s [] p = p
  serve_induction s ((out, r) ∷ rest) p = serve_induction (handle out r s) rest (step out r s p)
