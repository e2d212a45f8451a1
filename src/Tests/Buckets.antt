-- ===== src/Tests/Buckets.antt =====
-- A Valkey server of strings and of pairs of a set and a member.
use faasta.Prelude.{
  Text, text, Bool, true, false, ◌&&◌, ◌||◌, Option, List, [], ◌∷◌, ◌≡◌, refl, arith, ok, text_eq,
  text_eq_iff, if◌then◌else◌,
}
use faasta.Prelude.Dict
use faasta.Prelude.Dict.{Dict, lookup-insert, lookup-erase}
use faasta.Db.{Bytes}
use faasta.GithubAuth.{contains}
use faasta.Keyvalue
use faasta.Keyvalue.{Valkey, Call}
use faasta.Keyvalue.Refinement.{is_some, IsWorking, AllAnswer, after_all, run_calls, Represents}
use faasta.Keyvalue.BucketMap.{bucket-refines}

abbrev Pairs : Type 0
Pairs = List (Text × Text)

abbrev Store : Type 0
Store = Dict Bytes × Pairs

has : Text → Text → Pairs → Bool
has k x [] = false
has k x ((j, y) ∷ ps) = (text_eq j k && text_eq y x) || has k x ps

gather : Text → Pairs → List Text
gather k [] = []
gather k ((j, y) ∷ ps) = let rest = gather k ps in if text_eq j k then y ∷ rest else rest

drop_set : Text → Pairs → Pairs
drop_set k [] = []
drop_set k ((j, y) ∷ ps) = let rest = drop_set k ps in if text_eq j k then rest else (j, y) ∷ rest

drop_member : Text → Text → Pairs → Pairs
drop_member k x [] = []
drop_member k x ((j, y) ∷ ps) =
    let rest = drop_member k x ps in if text_eq j k && text_eq y x then rest else (j, y) ∷ rest

contains-gather : (k x : Text) (ps : Pairs) → contains (gather k ps) x ≡ has k x ps
unfolding has gather
contains-gather k x [] = refl
contains-gather k x ((j, y) ∷ ps) = ground (arith, contains-gather k x ps)

has-drop_set :
    (k j x : Text) (ps : Pairs)
    → has j x (drop_set k ps) ≡ (if text_eq k j then false else has j x ps)
unfolding has drop_set
has-drop_set k j x [] = ground arith
has-drop_set k j x ((i, y) ∷ ps) =
    ground (arith, has-drop_set k j x ps, text_eq_iff i k, text_eq_iff k j, text_eq_iff i j)

has-drop_member :
    (k j x y : Text) (ps : Pairs)
    → has j y (drop_member k x ps) ≡ (if text_eq k j && text_eq x y then false else has j y ps)
unfolding has drop_member
has-drop_member k j x y [] = ground arith
has-drop_member k j x y ((i, z) ∷ ps) = ground (
  arith,
  has-drop_member k j x y ps,
  text_eq_iff i k,
  text_eq_iff k j,
  text_eq_iff i j,
  text_eq_iff z x,
  text_eq_iff x y,
  text_eq_iff z y,
)

abbrev pairs_valkey : Valkey Store
pairs_valkey = record {
  connection = λ r. (ok tt, r);
  get = λ k r. (ok (Dict.lookup k r.0), r);
  set = λ k v r. (ok tt, (Dict.insert k v r.0, drop_set k r.1));
  sadd = λ k x r. (ok 1, (r.0, (k, x) ∷ r.1));
  del = λ k r. (ok 1, (Dict.erase k r.0, drop_set k r.1));
  srem = λ k x r. (ok 1, (r.0, drop_member k x r.1));
  exists = λ k r. (ok (is_some (Dict.lookup k r.0)), r);
  smembers = λ k r. (ok (gather k r.1), r);
}

abbrev value_of : Text → Store → Option Bytes
value_of k r = Dict.lookup k r.0

abbrev member : Text → Text → Store → Bool
member k x r = has k x r.1

added :
    (k j x y : Text) (ps : Pairs)
    → has j y ((k, x) ∷ ps) ≡ (if text_eq k j && text_eq x y then true else has j y ps)
unfolding has
added k j x y ps = ground arith

pairs_valkey-IsWorking : IsWorking pairs_valkey value_of member
pairs_valkey-IsWorking = record {
  connects = λ r. refl;
  gets = λ k r no_set. refl;
  finds = λ k r no_set. refl;
  lists = λ k r no_string. (gather k r.1, refl, λ x. contains-gather k x r.1);
  sets = λ k v r. refl;
  value-set = λ k j v r. lookup-insert j k v r.0;
  member-set = λ k j x v r. has-drop_set k j x r.1;
  deletes = λ k r. (1, refl);
  value-del = λ k j r. lookup-erase j k r.0;
  member-del = λ k j x r. has-drop_set k j x r.1;
  adds = λ k x r no_string. (1, refl);
  value-sadd = λ k j x r no_string. refl;
  member-sadd = λ k j x y r no_string. added k j x y r.1;
  removes = λ k x r no_string. (1, refl);
  value-srem = λ k j x r no_string. refl;
  member-srem = λ k j x y r no_string. has-drop_member k j x y r.1;
}

nothing-Represents : Represents value_of member (text "p") ([], []) []
unfolding Dict.lookup has
nothing-Represents = record {
  strings = λ key. refl;
  index = λ key. refl;
  no_sets = λ key x. refl;
  no_string = refl;
}

abbrev some_calls : List Call
some_calls =
    Keyvalue.set (text "x") (1 ∷ [])
    ∷ Keyvalue.keys
    ∷ Keyvalue.delete (text "x")
    ∷ Keyvalue.get (text "x")
    ∷ []

bucket-refines_example :
    AllAnswer some_calls [] (run_calls pairs_valkey (text "p") some_calls ([], [])).0
    × Represents value_of member
        (text "p")
        (run_calls pairs_valkey (text "p") some_calls ([], [])).1
        (after_all some_calls [])
bucket-refines_example =
    bucket-refines pairs_valkey value_of member (text "p") some_calls ([], []) []
      pairs_valkey-IsWorking nothing-Represents
