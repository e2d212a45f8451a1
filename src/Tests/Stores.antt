-- ===== src/Tests/Stores.antt =====
-- Users' data, tenants' data and counters.
use faasta.Prelude.{
  Text, text, true, false, none, some, List, [], ◌∷◌, ◌++◌, ◌≡◌, ◌≢◌, refl, ap, sym, subst, arith,
  Result, ok, err, text_eq, text_eq_iff, if◌then◌else◌, strip_prefix, trim, split_once,
  is_whitespace, is_ascii_alphanumeric, Bool-cases, inl, inr,
}
use faasta.Prelude.Dict
use faasta.Prelude.Dict.{Dict, lookup-insert, lookup-erase}
use faasta.Prelude.Decimal.{hex16}
use faasta.Prelude.Utf8.{as_bytes}
use faasta.Prelude.Int.{pos, max0_as_u64}
use faasta.Db
use faasta.Db.{Bytes, Database, MetricRow, read_row}
use faasta.Codec.{IsLawful}
use faasta.GithubAuth.{
  UserData, authenticate_github, token_parts, add_project, store_user, with_project,
}
use faasta.GithubAuth.Tokens.{Vouches, authenticate_github_valid}
use faasta.GithubAuth.Limit.{WithinLimit}
use faasta.GithubAuth.Persistence.{IsSynced, add_project-IsSynced}
use faasta.Tenant.{
  tenant, stable_tenant_hash, tenant_word, fnv_from, fnv_round, resource_name, guest_resource_name,
  valkey_prefix,
}
use faasta.Tenant.Isolation.{resource_name-injective}
use faasta.Routing.{sanitize_function_name}
use faasta.Keyvalue.{Valkey, valkey, Call, guest_call}
use faasta.Keyvalue
use faasta.Keyvalue.Tenants.{IsKeyed, guest_call-isolated}
use faasta.Metrics.{
  Metering, FunctionMetric, get_metrics, flush_entry, flush_metrics_to_db, get_or_create_metric,
}
use faasta.Metrics.Recording.{Event, called, flushed, restarted, run, IsBlank, report-IsBlank}
use faasta.Metrics.Flush.{IsUp, counted, stored, flush_entry-counted, reload-doubles}
use faasta.Tests.{
  no_fault, empty_database, empty_auth, user_codec, encode_user, decode_user, github, token,
}

authenticate_github_valid_example : Vouches github token (text "ann")
unfolding authenticate_github token_parts split_once strip_prefix trim text_eq is_whitespace
authenticate_github_valid_example = authenticate_github_valid github token (text "ann") refl

nobody-WithinLimit : WithinLimit []
unfolding Dict.lookup
nobody-WithinLimit = record { at_user = λ u d e. cc }

abbrev decode_result : Result Text Bytes → Result Text UserData
decode_result (ok bytes) = decode_user bytes
decode_result (err e) = err e

ann_decodes :
    (name p : Text) (bytes : Bytes)
    → encode_user name (p ∷ []) ≡ ok bytes
    → decode_user bytes ≡ ok (record { github_username = name; projects = p ∷ [] })
ann_decodes name p bytes e = elim (Bool-cases (text_eq name (text "ann"))) [
  | inl ann ↦ rw ((text_eq_iff name (text "ann")).0 ann) (
      sym (
        ap decode_result
          (subst (λ b. (if b then ok (1 ∷ p) else err (text "too much")) ≡ ok bytes) ann e)))
  | inr other ↦ absurd (
      no_bytes p bytes
        (subst (λ b. (if b then ok (1 ∷ p) else err (text "too much")) ≡ ok bytes) other e))
]
  where
    no_bytes :
        (p : Text) (bytes : Bytes) → ¬ (Path (Result Text Bytes) (err (text "too much")) (ok bytes))
    no_bytes p bytes e = cc

user_decodes :
    (name : Text) (projects : List Text) (bytes : Bytes)
    → encode_user name projects ≡ ok bytes
    → decode_user bytes ≡ ok (record { github_username = name; projects = projects })
user_decodes name [] bytes e = sym (ap decode_result e)
user_decodes name (p ∷ []) bytes e = ann_decodes name p bytes e
user_decodes name (p ∷ q ∷ ps) bytes e = cc

pub user_codec-IsLawful : IsLawful user_codec
user_codec-IsLawful = record {
  decode-encode = λ d bytes e. user_decodes d.github_username d.projects bytes e;
}

empty_auth-IsSynced : IsSynced user_codec empty_auth
unfolding Dict.lookup
empty_auth-IsSynced = record { rows = λ u. refl; keys = tt }

add_project-IsSynced_example :
    IsSynced user_codec (add_project user_codec no_fault (text "ann") (text "app") empty_auth).1
unfolding add_project store_user with_project Dict.lookup Dict.insert Db.put_user text_eq
add_project-IsSynced_example =
    add_project-IsSynced user_codec user_codec-IsLawful no_fault (text "ann") (text "app")
      empty_auth empty_auth-IsSynced refl

resource_name-injective_example :
    (text "app" ≡ text "app") × (guest_resource_name [] ≡ guest_resource_name (text "default"))
unfolding sanitize_function_name is_ascii_alphanumeric resource_name
resource_name-injective_example =
    resource_name-injective (text "app") (text "app") [] (text "default") refl refl refl

pub hashes_apart : stable_tenant_hash (text "a") ≢ stable_tenant_hash (text "b")
unfolding stable_tenant_hash tenant_word fnv_from fnv_round hex16 as_bytes text_eq
hashes_apart e =
    let same = (text_eq_iff (stable_tenant_hash (text "a")) (stable_tenant_hash (text "b"))).1 e in
    cc same

-- A store of texts; a set keeps its last member only.
abbrev small_valkey : Valkey (Dict Bytes)
small_valkey = record {
  connection = λ r. (ok tt, r);
  get = λ k r. (ok (Dict.lookup k r), r);
  set = λ k v r. (ok tt, Dict.insert k v r);
  sadd = λ k x r. (ok 1, Dict.insert k x r);
  del = λ k r. (ok 1, Dict.erase k r);
  srem = λ k x r. (ok 1, Dict.erase k r);
  exists = λ k r. (ok false, r);
  smembers = λ k r. (ok [], r);
}

pub insert-other :
    (k j : Text) (v : Bytes) (r : Dict Bytes)
    → k ≢ j
    → Dict.lookup j (Dict.insert k v r) ≡ Dict.lookup j r
insert-other k j v r apart = ground (arith, lookup-insert j k v r, text_eq_iff k j, apart)

pub erase-other :
    (k j : Text) (r : Dict Bytes) → k ≢ j → Dict.lookup j (Dict.erase k r) ≡ Dict.lookup j r
erase-other k j r apart = ground (arith, lookup-erase j k r, text_eq_iff k j, apart)

small_valkey-IsKeyed : IsKeyed small_valkey Dict.lookup
small_valkey-IsKeyed = record {
  at-connection = λ j r. refl;
  at-get = λ k j r. refl;
  at-exists = λ k j r. refl;
  at-smembers = λ k j r. refl;
  at-set = λ k j v r apart. insert-other k j v r apart;
  at-del = λ k j r apart. erase-other k j r apart;
  at-sadd = λ k j x r apart. insert-other k j x r apart;
  at-srem = λ k j x r apart. erase-other k j r apart;
}

guest_call-isolated_example :
    Dict.lookup
      (valkey_prefix (tenant (text "b")) (text "k") ++ text ":data:x")
      (guest_call
        (text "a")
        (valkey small_valkey)
        (text "k")
        (Keyvalue.set (text "x") (1 ∷ []))
        []).1
    ≡ Dict.lookup (valkey_prefix (tenant (text "b")) (text "k") ++ text ":data:x") []
guest_call-isolated_example =
    guest_call-isolated small_valkey Dict.lookup (text "a") (text "b") (text "k") (text "k")
      (text ":data:x") (Keyvalue.set (text "x") (1 ∷ [])) [] small_valkey-IsKeyed hashes_apart

abbrev empty_metering : Metering
empty_metering = record { function_metrics = []; metrics_db = empty_database }

abbrev two_calls : List Event
two_calls =
    called no_fault true 100 5 (text "app")
    ∷ called no_fault true 200 7 (text "app")
    ∷ flushed no_fault
    ∷ restarted
    ∷ []

report-IsBlank_example : IsBlank (get_metrics no_fault (λ t. []) (run empty_metering two_calls))
report-IsBlank_example =
    report-IsBlank empty_metering two_calls no_fault (λ t. []) (record { memory = tt; rows = tt })

abbrev app_metric : FunctionMetric
app_metric = record {
  function_name = text "app";
  total_time = 12;
  call_count = 2;
  last_called = 200;
}

-- Twelve milliseconds in two calls, at 200.
abbrev app_row : MetricRow
app_row = record { total_time = pos 12; call_count = pos 2; last_called = pos 200 }

abbrev app_database : Database
app_database = record empty_database { metrics = (text "app", app_row) ∷ [] }

no_fault-IsUp : (name : Text) → IsUp no_fault name
no_fault-IsUp name = record { selects = refl; sets = refl }

flush_entry-counted_example :
    counted no_fault (flush_entry no_fault app_metric app_database)
    ≡ counted no_fault (app_metric, app_database)
unfolding Db.get_metric Dict.lookup text_eq read_row max0_as_u64
flush_entry-counted_example =
    flush_entry-counted no_fault app_metric app_database (no_fault-IsUp (text "app"))
      (omega arith, omega arith, omega arith)

abbrev readonly : Db.Faults
readonly (Db.set_metric name) = some (text "readonly database")
readonly _ = none

reload-doubles_example :
    stored no_fault
      (text "app")
      (flush_metrics_to_db no_fault
        (get_or_create_metric no_fault true 300
          (text "app")
          (record { function_metrics = []; metrics_db = app_database })).1).metrics_db
    ≡ (24, 4, 200)
unfolding Dict.lookup text_eq read_row max0_as_u64
reload-doubles_example =
    reload-doubles no_fault 300 (text "app") app_database app_row 12 2 200
      (no_fault-IsUp (text "app")) refl refl refl (λ e. omega (arith, e))
      (omega arith, omega arith, omega arith)
