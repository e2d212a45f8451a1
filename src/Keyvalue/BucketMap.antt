-- ===== src/Keyvalue/BucketMap.antt =====
-- Each method of `ValkeyBucket` does to the stored bucket what a map does.
use faasta.Prelude.{
  Text, Bool, true, false, Option, none, some, List, [], ◌∷◌, ◌≡◌, refl, ap, ◌∙◌, Result, ok, pure,
  bind-answer, pure-eq, text_eq, text_eq_self, if◌then◌else◌,
}
use faasta.Prelude.Dict
use faasta.Prelude.Dict.{Dict, lookup-insert, lookup-erase}
use faasta.Db.{Bytes}
use faasta.Keyvalue.{
  Valkey, data_key, index_key, Call, valkey_get, valkey_set, valkey_delete, valkey_exists,
  valkey_keys,
}
use faasta.Keyvalue
use faasta.Keyvalue.Refinement.{
  is_some, IsWorking, value, found, names, done, Answers, after, AllAnswer, after_all, bucket_call,
  run_calls, Represents, data_index, index_data, data_data, is_some-if,
}

-- An answer with the state it leaves.
answered : {R A : Type 0} (o : Result Text A × R) (a : A) → o.0 ≡ ok a → o ≡ (ok a, o.1)
answered o a h = ap (λ x. (x, o.1)) h

both : (b : Bool) → (if b then false else false) ≡ false
both true = refl
both false = refl

module _ {R : Type 0} (c : Valkey R) (value_at : Text → R → Option Bytes)
    (member : Text → Text → R → Bool) (works : IsWorking c value_at member) (prefix : Text) (r : R)
    (d : Dict Bytes) (is : Represents value_at member prefix r d) where
  abbrev index : Text
  index = index_key prefix

  abbrev key_of : Text → Text
  key_of key = data_key prefix key

  -- The state between the two commands of `set`, and after them.
  abbrev stored : Text → Bytes → R
  stored key v = (c.set (key_of key) v r).1

  abbrev listed : Text → Bytes → R
  listed key v = (c.sadd index key (stored key v)).1

  stored-no_string : (key : Text) (v : Bytes) → value_at index (stored key v) ≡ none
  stored-no_string key v =
      rw (works.value-set (key_of key) index v r, data_index prefix key) is.no_string

  valkey_set-eq : (key : Text) (v : Bytes) → valkey_set c prefix key v r ≡ (ok tt, listed key v)
  unfolding valkey_set
  valkey_set-eq key v =
      let (n, added) = works.adds index key (stored key v) (stored-no_string key v) in
      bind-answer c.connection _ r r tt (works.connects r)
      ∙ bind-answer (c.set (key_of key) v) _ r (stored key v) tt
          (answered _ tt (works.sets (key_of key) v r))
      ∙ bind-answer (c.sadd index key) _ (stored key v) (listed key v) n (answered _ n added)
      ∙ pure-eq tt (listed key v)

  set-Represents :
      (key : Text) (v : Bytes)
      → Represents value_at member prefix (listed key v) (Dict.insert key v d)
  set-Represents key v = record {
    strings = λ j.
        rw
          (
            works.value-sadd index (key_of j) key (stored key v) (stored-no_string key v),
            works.value-set (key_of key) (key_of j) v r,
            data_data prefix key j,
            lookup-insert j key v d,
            is.strings j,
          )
          refl;
    index = λ j.
        rw
          (
            works.member-sadd index index key j (stored key v) (stored-no_string key v),
            works.member-set (key_of key) index j v r,
            data_index prefix key,
            text_eq_self index,
            lookup-insert j key v d,
            is.index j,
            is_some-if (text_eq key j) (some v) (Dict.lookup j d),
          )
          refl;
    no_sets = λ j x.
        rw
          (
            works.member-sadd index (key_of j) key x (stored key v) (stored-no_string key v),
            works.member-set (key_of key) (key_of j) x v r,
            index_data prefix j,
            is.no_sets j x,
          )
          (both (text_eq (key_of key) (key_of j)));
    no_string =
        works.value-sadd index index key (stored key v) (stored-no_string key v)
        ∙ stored-no_string key v;
  }

  -- The state between the two commands of `delete`, and after them.
  abbrev deleted : Text → R
  deleted key = (c.del (key_of key) r).1

  abbrev unlisted : Text → R
  unlisted key = (c.srem index key (deleted key)).1

  deleted-no_string : (key : Text) → value_at index (deleted key) ≡ none
  deleted-no_string key =
      rw (works.value-del (key_of key) index r, data_index prefix key) is.no_string

  valkey_delete-eq : (key : Text) → valkey_delete c prefix key r ≡ (ok tt, unlisted key)
  unfolding valkey_delete
  valkey_delete-eq key =
      let (n, gone) = works.deletes (key_of key) r in
      let (n', removed) = works.removes index key (deleted key) (deleted-no_string key) in
      bind-answer c.connection _ r r tt (works.connects r)
      ∙ bind-answer (c.del (key_of key)) _ r (deleted key) n (answered _ n gone)
      ∙ bind-answer (c.srem index key) _ (deleted key) (unlisted key) n' (answered _ n' removed)
      ∙ pure-eq tt (unlisted key)

  delete-Represents :
      (key : Text) → Represents value_at member prefix (unlisted key) (Dict.erase key d)
  delete-Represents key = record {
    strings = λ j.
        rw
          (
            works.value-srem index (key_of j) key (deleted key) (deleted-no_string key),
            works.value-del (key_of key) (key_of j) r,
            data_data prefix key j,
            lookup-erase j key d,
            is.strings j,
          )
          refl;
    index = λ j.
        rw
          (
            works.member-srem index index key j (deleted key) (deleted-no_string key),
            works.member-del (key_of key) index j r,
            data_index prefix key,
            text_eq_self index,
            lookup-erase j key d,
            is.index j,
            is_some-if (text_eq key j) none (Dict.lookup j d),
          )
          refl;
    no_sets = λ j x.
        rw
          (
            works.member-srem index (key_of j) key x (deleted key) (deleted-no_string key),
            works.member-del (key_of key) (key_of j) x r,
            index_data prefix j,
            is.no_sets j x,
          )
          (both (text_eq (key_of key) (key_of j)));
    no_string =
        works.value-srem index index key (deleted key) (deleted-no_string key)
        ∙ deleted-no_string key;
  }

  -- One call answers as the map does and leaves the map's next state.
  call-refines :
      (call : Call)
      → Answers call d (bucket_call c prefix call r).0
        × Represents value_at member prefix (bucket_call c prefix call r).1 (after call d)
  unfolding valkey_get valkey_exists valkey_keys
  call-refines (Keyvalue.get key) =
      let e =
        bind-answer (valkey_get c prefix key) (λ v. pure (value v)) r r (value_at (key_of key) r)
          (bind-answer c.connection _ r r tt (works.connects r)
            ∙ works.gets (key_of key) r (is.no_sets key))
        ∙ pure-eq _ r in
      rw (e, is.strings key) (refl, is)
  call-refines (Keyvalue.exists key) =
      let e =
        bind-answer (valkey_exists c prefix key) (λ b. pure (found b)) r r
          (is_some (value_at (key_of key) r))
          (bind-answer c.connection _ r r tt (works.connects r)
            ∙ works.finds (key_of key) r (is.no_sets key))
        ∙ pure-eq _ r in
      rw (e, is.strings key) (refl, is)
  call-refines (Keyvalue.set key v) =
      let e =
        bind-answer (valkey_set c prefix key v) (λ _. pure done) r (listed key v) tt
          (valkey_set-eq key v)
        ∙ pure-eq done (listed key v) in
      rw e (refl, set-Represents key v)
  call-refines (Keyvalue.delete key) =
      let e =
        bind-answer (valkey_delete c prefix key) (λ _. pure done) r (unlisted key) tt
          (valkey_delete-eq key)
        ∙ pure-eq done (unlisted key) in
      rw e (refl, delete-Represents key)
  call-refines Keyvalue.keys =
      let (xs, lists, holds) = works.lists index r is.no_string in
      let e =
        bind-answer (valkey_keys c prefix) (λ xs. pure (names xs)) r r xs
          (bind-answer c.connection _ r r tt (works.connects r) ∙ lists)
        ∙ pure-eq _ r in
      rw e ((xs, refl, λ x. holds x ∙ is.index x), is)

-- A bucket on a Valkey server that answers refines a map from keys to values: after any sequence of
-- calls every call has answered as the map does, `keys` in some order, and the bucket represents the map
-- that the sequence leads to.
pub bucket-refines :
    {R : Type 0} (c : Valkey R) (value_at : Text → R → Option Bytes)
    (member : Text → Text → R → Bool) (prefix : Text) (calls : List Call) (r : R) (d : Dict Bytes)
    → IsWorking c value_at member
    → Represents value_at member prefix r d
    → AllAnswer calls d (run_calls c prefix calls r).0
      × Represents value_at member prefix (run_calls c prefix calls r).1 (after_all calls d)
bucket-refines c value_at member prefix [] r d works is = (tt, is)
bucket-refines c value_at member prefix (call ∷ calls) r d works is =
    let (first, next) = call-refines c value_at member works prefix r d is call in
    let (rest, last) =
      bucket-refines c value_at member prefix calls (bucket_call c prefix call r).1 (after call d)
        works next in
    ((first, rest), last)
