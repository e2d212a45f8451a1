-- ===== src/Rpc/Quota.antt =====
-- No sequence of requests takes a user past ten projects.
use faasta.Prelude.{
  Text, List, ◌≡◌, arith, Result, ok, err, Keeps, Bool-cases, inl, inr, Option-cases,
}
use faasta.Prelude.Dict
use faasta.Db.{Bytes}
use faasta.GithubAuth.{can_upload_project}
use faasta.GithubAuth.Limit.{WithinLimit, add_project-WithinLimit, remove_project-WithinLimit}
use faasta.Server.{Server, Outside, wasm_file, cwasm_file, temp_file, remove_from_cache}
use faasta.Rpc.{
  register, create_temp, write_temp, sync_temp, rename_temp, record_info, save_info, new_info,
  publish_impl, unpublish_impl, remove_file, remove_function, do_remove,
}
use faasta.Rpc.Keeps.{
  publish_impl-Keeps, unpublish_impl-Keeps, io-from, list_functions_impl_lem, get_metrics_impl_lem,
}
use faasta.Rpc.Service.{
  Request, publish, unpublish, list_functions, get_metrics, handle, serve, serve_induction,
}

abbrev Within : Server → Type 0
Within s = WithinLimit s.user_projects

module _ (out : Outside) where
  register-Within : (username name : Text) → Keeps Within (register out username name)
  unfolding register
  register-Within username name = record {
    from = λ s h. elim (Bool-cases (can_upload_project username name s.user_projects)) [
      | inl room ↦
          rw (room, register)
            (add_project-WithinLimit out.user_codec out.fault username name s.auth room h)
      | inr full ↦ rw (full, register) h
    ];
  }

  cache-Within : (name : Text) → Keeps Within (remove_from_cache name)
  unfolding remove_from_cache
  cache-Within name = record { from = λ s h. h }

  create_temp-Within : (name : Text) → Keeps Within (create_temp out name)
  unfolding create_temp
  create_temp-Within name = record { from = λ s h. io-from Within out.create_fault _ _ _ h h }

  write_temp-Within : (name : Text) (bytes : Bytes) → Keeps Within (write_temp out name bytes)
  unfolding write_temp
  write_temp-Within name bytes = record { from = λ s h. io-from Within out.write_fault _ _ _ h h }

  sync_temp-Within : Keeps Within (sync_temp out)
  unfolding sync_temp
  sync_temp-Within = record { from = λ s h. io-from Within out.sync_fault _ _ _ h h }

  rename_temp-Within : (name : Text) → Keeps Within (rename_temp out name)
  unfolding rename_temp
  rename_temp-Within name = record {
    from = λ s h. elim (Option-cases (Dict.lookup (temp_file name) s.files)) [
      | inl gone ↦ rw (gone, rename_temp) h
      | inr (bytes, there) ↦ rw (there, rename_temp) (io-from Within out.rename_fault _ _ _ h h)
    ];
  }

  save_info-Within : (name : Text) (r : Result Text Bytes) → Keeps Within (save_info out name r)
  save_info-Within name (err e) = record { from = λ s h. h }
  save_info-Within name (ok meta) = record { from = λ s h. h }

  record_info-Within : (username name : Text) → Keeps Within (record_info out username name)
  unfolding record_info
  record_info-Within username name =
      save_info-Within name (out.info_codec.encode (new_info out username name))

  publish-Within :
      (bytes : Bytes) (name token : Text) → Keeps Within (publish_impl out bytes name token)
  publish-Within bytes name token =
      publish_impl-Keeps Within out bytes name token (λ u. register-Within u name)
        (cache-Within name) (create_temp-Within name) (write_temp-Within name bytes)
        sync_temp-Within (rename_temp-Within name) (λ u. record_info-Within u name)

  auth-remove_file : (file : Text) (s : Server) → (remove_file out file s).auth ≡ s.auth
  unfolding remove_file
  auth-remove_file file s = ground arith

  do_remove-Within : (username name : Text) → Keeps Within (do_remove out username name)
  unfolding do_remove remove_function
  do_remove-Within username name = record {
    from = λ s h. remove_project-WithinLimit out.user_codec out.fault username name _ (
        rw
          (
            auth-remove_file (cwasm_file name) (remove_file out (wasm_file name) s),
            auth-remove_file (wasm_file name) s,
          )
          h);
  }

  unpublish-Within : (name token : Text) → Keeps Within (unpublish_impl out name token)
  unpublish-Within name token =
      unpublish_impl-Keeps Within out name token (λ u. do_remove-Within u name)

handle-Within : (out : Outside) (r : Request) (s : Server) → Within s → Within (handle out r s)
unfolding handle
handle-Within out (publish bytes name token) s h = (publish-Within out bytes name token).from s h
handle-Within out (unpublish name token) s h = (unpublish-Within out name token).from s h
handle-Within out (list_functions token) s h = rw (list_functions_impl_lem out token s) h
handle-Within out (get_metrics report token) s h = rw (get_metrics_impl_lem out report token s) h

-- Whatever the requests, the tokens and the failures, no user comes to have more than ten projects or
-- a project twice, if none had before.
pub serve-WithinLimit :
    (s : Server) (requests : List (Outside × Request))
    → WithinLimit s.user_projects
    → WithinLimit (serve s requests).user_projects
serve-WithinLimit = serve_induction Within handle-Within
