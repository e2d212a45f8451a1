-- ===== src/Rpc/Keeps.antt =====
-- What the methods of server/src/rpc_service.rs keep, from what their parts keep.
use faasta.Prelude.{
  Text, Bool, true, false, Option, none, some, ◌≡◌, refl, Keeps, Keeps-pure, Keeps-fail,
  keeps_rules, Keeps-bind, Keeps-lift, Keeps-then, Option-cases, inl, inr,
}
use faasta.Prelude.Dict
use faasta.Db.{Bytes}
use faasta.Metrics.{Metrics}
use faasta.Server.{FunctionError, Server, Outside, wasm_file, remove_from_cache}
use faasta.Rpc.{
  io, require, check_owner, register, claim, update, do_remove, create_temp, write_temp, sync_temp,
  rename_temp, commit_artifact, record_info, publish_impl, unpublish_impl, remove_entry,
  list_functions_impl, get_metrics_impl,
}

-- A call of the file system ends in one of two states.
pub io-from :
    (P : Server → Type 0) (f : Option Text) (what : Text) (failed done : Server)
    → P failed
    → P done
    → P (io f what failed done).1
io-from P none what failed done pf pd = pd
io-from P (some e) what failed done pf pd = pf

module _ (P : Server → Type 0) (out : Outside) where
  Keeps-require : (b : Bool) (e : FunctionError) → Keeps P (require b e)
  unfolding require
  Keeps-require true e = Keeps-pure tt
  Keeps-require false e = Keeps-fail e

  check_owner-Keeps :
      (username : Text) (entry : Option Bytes) → Keeps P (check_owner out username entry)
  unfolding check_owner
  check_owner-Keeps username none = Keeps-fail _
  check_owner-Keeps username (some bytes) = search (keeps_rules, Keeps-require)

  pub update-Keeps : (username name : Text) → Keeps P (update out username name)
  unfolding update
  update-Keeps username name = search (keeps_rules, check_owner-Keeps)

  pub claim-Keeps :
      (username name : Text)
      → Keeps P (register out username name)
      → Keeps P (claim out username name)
  unfolding claim
  claim-Keeps username name k = record {
    from = λ s p. elim (Option-cases (Dict.lookup (wasm_file name) s.files)) [
      | inl fresh ↦ rw (fresh, claim) (k.from s p)
      | inr (old, found) ↦ rw (found, claim) ((update-Keeps username name).from s p)
    ];
  }

  pub publish_impl-Keeps :
      (bytes : Bytes) (name token : Text)
      → ((username : Text) → Keeps P (register out username name))
      → Keeps P (remove_from_cache name)
      → Keeps P (create_temp out name)
      → Keeps P (write_temp out name bytes)
      → Keeps P (sync_temp out)
      → Keeps P (rename_temp out name)
      → ((username : Text) → Keeps P (record_info out username name))
      → Keeps P (publish_impl out bytes name token)
  unfolding publish_impl commit_artifact
  publish_impl-Keeps bytes name token kr kc k1 k2 k3 k4 ki =
      Keeps-bind _ _ (Keeps-lift _) λ username. Keeps-then _ _ (Keeps-require _ _) (
        Keeps-then _ _ (Keeps-require _ _) (
          Keeps-then _ _ (claim-Keeps username name (kr username)) (
            Keeps-then _ _ kc (
              Keeps-then _ _ (Keeps-then _ _ k1 (Keeps-then _ _ k2 (Keeps-then _ _ k3 k4)))
                (Keeps-then _ _ (ki username) (Keeps-pure _))))))

  remove_entry-Keeps :
      (username name : Text) (entry : Option Bytes)
      → Keeps P (do_remove out username name)
      → Keeps P (remove_entry out username name entry)
  unfolding remove_entry
  remove_entry-Keeps username name none k = Keeps-fail _
  remove_entry-Keeps username name (some bytes) k =
      Keeps-bind _ _ (Keeps-lift _) (λ info. Keeps-then _ _ (Keeps-require _ _) k)

  pub unpublish_impl-Keeps :
      (name token : Text)
      → ((username : Text) → Keeps P (do_remove out username name))
      → Keeps P (unpublish_impl out name token)
  unfolding unpublish_impl
  unpublish_impl-Keeps name token k = search (keeps_rules, remove_entry-Keeps, k)

  list_functions_impl-Keeps : (token : Text) → Keeps P (list_functions_impl out token)
  unfolding list_functions_impl
  list_functions_impl-Keeps token = search keeps_rules

  get_metrics_impl-Keeps :
      (report : Metrics) (token : Text) → Keeps P (get_metrics_impl out report token)
  unfolding get_metrics_impl
  get_metrics_impl-Keeps report token = search keeps_rules

-- Listing changes nothing.
pub list_functions_impl_lem :
    (out : Outside) (token : Text) (s : Server) → (list_functions_impl out token s).1 ≡ s
list_functions_impl_lem out token s = (list_functions_impl-Keeps (λ t. t ≡ s) out token).from s refl

-- A report changes nothing.
pub get_metrics_impl_lem :
    (out : Outside) (report : Metrics) (token : Text) (s : Server)
    → (get_metrics_impl out report token s).1 ≡ s
get_metrics_impl_lem out report token s =
    (get_metrics_impl-Keeps (λ t. t ≡ s) out report token).from s refl
