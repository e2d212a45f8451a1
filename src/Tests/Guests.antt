-- ===== src/Tests/Guests.antt =====
-- A function's blob stores in the bucket of Tests.Blobs.
use faasta.Prelude.{
  ℕ, suc, ◌↔◌, ◌⊎◌, ◌<◌, if◌then◌else◌, Text, text, Bool, true, false, Option, none, some, List, [],
  ◌∷◌, ◌++◌, ◌≡◌, refl, ap, arith, Result, ok, err, ◌>>=◌, Bool-cases, inl, inr, length,
  strip_prefix-append, text_eq,
}
use faasta.Prelude.Dict
use faasta.Prelude.Dict.{Dict}
use faasta.Db.{Bytes}
use faasta.Tenant.{TenantId, tenant}
use faasta.Blobstore
use faasta.Blobstore.{Container, s3, s3_container, container_of}
use faasta.Blobstore.S3.{ensure_marker, write_data, prefix, object_key}
use faasta.Blobstore.Listing.{begins, below, visible, list_objects_lem}
use faasta.Macros.{ItemFn, typed, path, sql, kv, handler}
use faasta.Macros.Injection.{Injects, handler_iff}
use faasta.Guest.Blobs.{Wasi, get, put, list}
use faasta.Guest.Objects.{PassesOn, IsSteady, put-get, get_container-after}
use faasta.Guest.Names.{IsStream, Breaks, list-eq}
use faasta.Guest.Responses.{
  Bindings, IntoResponse, response_from_result, into_response, json_response, body_response,
  IsAnswer, result-delivered,
}
use faasta.Prelude.Decimal.{to_string}
use faasta.Prelude.Utf8.{as_bytes}
use faasta.Wire.{HttpResponse, hyper_response_to_worker, faasta_response_to_http}
use faasta.Tests.Requests.{plain_http, plain_http-IsFaithful}
use faasta.Tests.Blobs.{
  small_s3, small_s3-IsConsistent, keys_of, one_page, shelf, left_over, Any, small_s3-IsPaged,
}

abbrev its_tenant : TenantId
its_tenant = tenant (text "a")

abbrev whole : Result Text (Option Bytes) → Result Text Bytes
whole (ok (some v)) = ok v
whole (ok none) = err (text "no such object")
whole (err e) = err e

-- A stream that hands out one name at a time.
abbrev one_name : List Text → Result Text (List Text × Bool × List Text)
one_name [] = ok ([], true, [])
one_name (x ∷ names) = ok (x ∷ [], false, names)

abbrev small_wasi : Wasi (Dict Bytes) (Container (Dict Bytes)) (List Text)
small_wasi = record {
  container_exists = Blobstore.container_exists its_tenant (s3 small_s3);
  create_container = Blobstore.create_container its_tenant (s3 small_s3) 9;
  get_container = Blobstore.get_container its_tenant (s3 small_s3) 9;
  has_object = λ c name. c.has_object name;
  get_data = λ c name start end r. let (v, r') = c.get_data name start end r in (whole v, r');
  consume_error = λ v. none;
  write_error = λ v. none;
  write_data = λ c name v. c.write_data name v;
  finish_error = λ v. none;
  list_objects = λ c. c.list_objects;
  read_stream_object_names = λ n names. one_name names;
  delete_object = λ c name. c.delete_object name;
}

small_wasi-PassesOn : PassesOn small_wasi small_s3 its_tenant 9
small_wasi-PassesOn = record {
  opens = λ name r. refl;
  finds = λ c name r. refl;
  writes = λ c name v r. refl;
  reads = λ c name v r h. ap whole h;
  consumes = λ v. refl;
}

below-insert :
    (p s : Text) (v : Bytes) (r : Dict Bytes)
    → (n : ℕ) × (length (below p (keys_of (Dict.insert (p ++ s) v r))) ≡ suc n)
unfolding Dict.insert
below-insert p s v [] = (0, rw (strip_prefix-append p s, begins) refl)
below-insert p s v ((j, w) ∷ r) = elim (Bool-cases (text_eq j (p ++ s))) [
  | inl e ↦ rw e (length (below p (keys_of r)), rw (strip_prefix-append p s, begins) refl)
  | inr e ↦ rw e (let (n, counted) = below-insert p s v r in more n counted (begins p j))
]
  where
    more :
        (n : ℕ)
        → length (below p (keys_of (Dict.insert (p ++ s) v r))) ≡ suc n
        → (b : Bool)
        → let rest = below p (keys_of (Dict.insert (p ++ s) v r)) in
          (m : ℕ) × (length (if b then j ∷ rest else rest) ≡ suc m)
    more n counted true = (suc n, ap suc counted)
    more n counted false = (n, counted)

small_s3-IsSteady : IsSteady small_s3
small_s3-IsSteady = record {
  lists = λ p n t r. refl;
  heads = λ k r. refl;
  counts = λ p s v r h.
      let (n, counted) = below-insert p s v r in
      (one_page (Dict.insert (p ++ s) v r) p none, n, refl, ap (λ k. some k) counted);
}

-- The container is there: it has an object.
abbrev one_object : Dict Bytes
one_object = (small_s3.put_object (object_key shelf (text "x")) (1 ∷ []) []).1

shelf_there :
    Blobstore.get_container its_tenant (s3 small_s3) 9 (text "k") one_object
    ≡ (ok (s3_container small_s3 9 shelf), one_object)
shelf_there =
    get_container-after small_s3 its_tenant 9 (text "k") small_s3-IsSteady (text "x") (1 ∷ []) []
      refl

x_written : (put small_wasi (text "k") (text "x") (7 ∷ []) one_object).0 ≡ ok tt
unfolding put write_data ensure_marker ◌>>=◌
x_written = rw shelf_there refl

put-get_example :
    (get small_wasi
      (text "k")
      (text "x")
      (put small_wasi (text "k") (text "x") (7 ∷ []) one_object).1).0
    ≡ ok (some (7 ∷ []))
put-get_example =
    put-get small_s3 its_tenant 9 (text "k") small_wasi small_wasi-PassesOn (text "x") (7 ∷ [])
      one_object small_s3-IsConsistent small_s3-IsSteady x_written

abbrev listed : List Text
listed = visible (prefix shelf) (keys_of one_object)

small_wasi-IsStream : IsStream small_wasi (λ names. names) (λ names. length names)
small_wasi-IsStream = record {
  takes = λ s batch done t h. taken s batch done t h;
  ends = λ s batch t h. ended s batch t h;
  goes_on = λ s batch t h. shorter s batch t h;
}
  where
    taken :
        (s batch : List Text) (done : Bool) (t : List Text)
        → one_name s ≡ ok (batch, done, t)
        → s ≡ batch ++ t
    taken [] batch done t h = cc
    taken (x ∷ s) batch done t h = ground arith

    ended : (s batch t : List Text) → one_name s ≡ ok (batch, true, t) → t ≡ []
    ended [] batch t h = cc
    ended (x ∷ s) batch t h = cc

    shorter : (s batch t : List Text) → one_name s ≡ ok (batch, false, t) → length t < length s
    shorter [] batch t h = cc
    shorter (x ∷ s) batch t h = ground arith

few : length (keys_of one_object) < 9
unfolding Dict.insert
few = omega arith

few_listed : length listed < 5
unfolding Dict.insert visible
few_listed = ground arith

list-eq_example :
    (list small_wasi 5 (text "k") one_object ≡ (ok listed, one_object))
    ⊎ ((e : Text) × Breaks small_wasi listed e
        × (list small_wasi 5 (text "k") one_object
            ≡ (err (text "reading object names: " ++ e), one_object)))
list-eq_example =
    list-eq small_wasi (λ names. names) (λ names. length names) small_wasi-IsStream 5 (text "k")
      (s3_container small_s3 9 shelf) listed one_object one_object one_object shelf_there
      (list_objects_lem small_s3 keys_of one_page left_over Any small_s3-IsPaged 9 shelf one_object
        few)
      few_listed

-- JSON of texts, and a host that takes every header and status.
abbrev easy : Bindings Text
easy = record {
  set_error = λ name value. none;
  accepts_status = λ status. true;
  to_vec = λ value. ok (text "{}");
  error_value = λ e. e;
}

abbrev failed : Result Text (IntoResponse Text)
failed = err (text "boom")

abbrev failed_response : HttpResponse
failed_response = record {
  status = 500;
  headers =
      (text "content-type", as_bytes (text "application/json"))
      ∷ (text "content-length", as_bytes (to_string 2))
      ∷ [];
  body = text "{}";
}

failed_built : response_from_result easy failed ≡ ok failed_response
unfolding response_from_result into_response json_response body_response
failed_built = refl

result-delivered_example :
    IsAnswer easy 500
      (ok (text "{}"))
      (faasta_response_to_http plain_http (hyper_response_to_worker plain_http failed_response))
result-delivered_example =
    result-delivered easy plain_http failed failed_response plain_http-IsFaithful tt failed_built
      refl
      (
        record { content = as_bytes (text "application/json"); named = refl; readable = refl },
        (record { content = as_bytes (to_string 2); named = refl; readable = refl }, tt),
      )

abbrev with_stores : ItemFn
with_stores = record {
  asyncness = true;
  ident = text "handle";
  inputs =
      typed true (path (text "Sql" ∷ []))
      ∷ typed true (path (text "faasta" ∷ text "kv" ∷ text "Kv" ∷ []))
      ∷ [];
}

handler_iff_example :
    (handler with_stores
      ≡ ok (record {
        export_type = text "__FaastahandleHandler";
        function = text "handle";
        call_args = sql ∷ kv ∷ [];
      }))
    ↔ ((with_stores.asyncness ≡ true) × Injects with_stores.inputs (sql ∷ kv ∷ []))
handler_iff_example = handler_iff with_stores (sql ∷ kv ∷ [])
