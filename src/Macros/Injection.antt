-- ===== src/Macros/Injection.antt =====
-- Which functions `handler` of macros/src/lib.rs takes.
use faasta.Prelude.{
  Text, text, true, false, Option, none, some, List, [], ◌∷◌, ◌++◌, ◌≡◌, ◌↔◌, refl, ap, arith,
  Result, ok, err, text_eq, text_eq_iff, Bool-cases, inl, inr,
}
use faasta.Macros.{
  path, unnamed, FnArg, receiver, typed, ItemFn, ArgKind, kv, sql, blobs, last_segment,
  last_path_segment, kind_of, arg_kind, with_kind, arg_kinds, exported, handler,
}

abbrev pub name_of : ArgKind → Text
name_of kv = text "Kv"
name_of sql = text "Sql"
name_of blobs = text "Blobs"

-- Each argument is a name whose type is a path to the type of its kind, in any module.
abbrev pub Injects : List FnArg → List ArgKind → Type 0
Injects [] [] = Unit
Injects [] (kind ∷ kinds) = ⊥
Injects (arg ∷ inputs) [] = ⊥
Injects (arg ∷ inputs) (kind ∷ kinds) =
    ((modules : List Text) × (arg ≡ typed true (path (modules ++ name_of kind ∷ []))))
    × Injects inputs kinds

last_segment-append :
    (modules : List Text) (name : Text) → last_segment (modules ++ name ∷ []) ≡ some name
unfolding last_segment
last_segment-append [] name = refl
last_segment-append (m ∷ []) name = refl
last_segment-append (m ∷ n ∷ modules) name = last_segment-append (n ∷ modules) name

last_segment-split :
    (segments : List Text) (name : Text)
    → last_segment segments ≡ some name
    → (modules : List Text) × (segments ≡ modules ++ name ∷ [])
unfolding last_segment
last_segment-split [] name h = cc
last_segment-split (s ∷ []) name h = ([], cc)
last_segment-split (s ∷ t ∷ segments) name h =
    let (modules, split) = last_segment-split (t ∷ segments) name h in
    (s ∷ modules, ap (λ ts. s ∷ ts) split)

kind_of-name : (kind : ArgKind) → kind_of (some (name_of kind)) ≡ ok kind
unfolding kind_of text_eq
kind_of-name kv = refl
kind_of-name sql = refl
kind_of-name blobs = refl

kind_of-eq-ok : (o : Option Text) (kind : ArgKind) → kind_of o ≡ ok kind → o ≡ some (name_of kind)
unfolding kind_of
kind_of-eq-ok none kind h = cc
kind_of-eq-ok (some name) kv h = ground (
  arith,
  text_eq_iff name (text "Kv"),
  text_eq_iff name (text "Sql"),
  text_eq_iff name (text "Blobs"),
)
kind_of-eq-ok (some name) sql h = ground (
  arith,
  text_eq_iff name (text "Kv"),
  text_eq_iff name (text "Sql"),
  text_eq_iff name (text "Blobs"),
)
kind_of-eq-ok (some name) blobs h = ground (
  arith,
  text_eq_iff name (text "Kv"),
  text_eq_iff name (text "Sql"),
  text_eq_iff name (text "Blobs"),
)

arg_kind-eq-ok :
    (arg : FnArg) (kind : ArgKind)
    → arg_kind arg ≡ ok kind
    → (modules : List Text) × (arg ≡ typed true (path (modules ++ name_of kind ∷ [])))
unfolding arg_kind last_path_segment
arg_kind-eq-ok receiver kind h = cc
arg_kind-eq-ok (typed false ty) kind h = cc
arg_kind-eq-ok (typed true unnamed) kind h = cc (kind_of-eq-ok none kind h)
arg_kind-eq-ok (typed true (path segments)) kind h =
    let (modules, split) =
      last_segment-split segments (name_of kind) (kind_of-eq-ok (last_segment segments) kind h) in
    (modules, ap (λ s. typed true (path s)) split)

arg_kinds-Injects :
    (inputs : List FnArg) (kinds : List ArgKind)
    → arg_kinds inputs ≡ ok kinds
    → Injects inputs kinds
unfolding arg_kinds
arg_kinds-Injects [] [] h = tt
arg_kinds-Injects [] (kind ∷ kinds) h = cc
arg_kinds-Injects (arg ∷ inputs) kinds h =
    go (arg_kind arg) (arg_kinds inputs) refl refl kinds h (λ ks e. arg_kinds-Injects inputs ks e)
  where
    go :
        (r : Result Text ArgKind) (rs : Result Text (List ArgKind))
        → arg_kind arg ≡ r
        → arg_kinds inputs ≡ rs
        → (kinds : List ArgKind) → with_kind r rs ≡ ok kinds
        → ((ks : List ArgKind) → arg_kinds inputs ≡ ok ks → Injects inputs ks)
        → Injects (arg ∷ inputs) kinds
    go (err e) rs p q kinds h ih = cc
    go (ok kind) (err e) p q kinds h ih = cc
    go (ok kind) (ok found) p q [] h ih = cc
    go (ok kind) (ok found) p q (k ∷ ks) h ih =
        (arg_kind-eq-ok arg k (cc (p, h)), ih ks (cc (q, h)))

Injects-arg_kinds :
    (inputs : List FnArg) (kinds : List ArgKind)
    → Injects inputs kinds
    → arg_kinds inputs ≡ ok kinds
unfolding arg_kinds arg_kind last_path_segment
Injects-arg_kinds [] [] h = refl
Injects-arg_kinds [] (kind ∷ kinds) h = absurd h
Injects-arg_kinds (arg ∷ inputs) [] h = absurd h
Injects-arg_kinds (arg ∷ inputs) (kind ∷ kinds) ((modules, e), h) =
    rw
      (
        e,
        last_segment-append modules (name_of kind),
        kind_of-name kind,
        Injects-arg_kinds inputs kinds h,
      )
      refl

exported-ok :
    (ident : Text) (r : Result Text (List ArgKind)) (kinds : List ArgKind)
    → exported ident r ≡ exported ident (ok kinds)
    → r ≡ ok kinds
exported-ok ident (err e) kinds h = cc
exported-ok ident (ok found) kinds h = cc

-- `handler` takes a function with these arguments to inject exactly where it is asynchronous and
-- takes them in this order, each by a plain name and by a path that ends in `Kv`, `Sql` or `Blobs`; what it
-- adds is the type named `__Faasta`, the function's name and `Handler`, which calls the function of that name
-- with them in this order.
pub handler_iff :
    (input : ItemFn) (kinds : List ArgKind)
    → (handler input
        ≡ ok (record {
          export_type = text "__Faasta" ++ (input.ident ++ text "Handler");
          function = input.ident;
          call_args = kinds;
        }))
      ↔ ((input.asyncness ≡ true) × Injects input.inputs kinds)
unfolding handler
handler_iff input kinds = elim (Bool-cases input.asyncness) [
  | inr sync ↦ (λ h. let h' = rw sync at h in cc h', λ (a, is). cc (a, sync))
  | inl async ↦ (
    (λ h.
        let h' = rw async at h in
        (
          async,
          arg_kinds-Injects input.inputs kinds
              (exported-ok input.ident (arg_kinds input.inputs) kinds h'),
        )),
    λ (a, is). rw (async, Injects-arg_kinds input.inputs kinds is) refl,
  )
]
