-- ===== src/Macros.antt =====
-- The attribute `handler` of macros/src/lib.rs, as what it makes of a function's signature. The rest of the
-- function goes through it unchanged; an error is its message.
pub mod Injection
use faasta.Prelude.{
  Text, text, Bool, true, false, Option, none, some, List, [], ◌∷◌, ◌++◌, Result, ok, err, text_eq,
  if◌then◌else◌,
}

-- A type: a path with its segments' names, or another.
pub data Ty : Type 0 where
  path : List Text → Ty
  unnamed : Ty

-- An argument: `self`, or a pattern, which is a name or is not, with its type.
pub data FnArg : Type 0 where
  receiver : FnArg
  typed : Bool → Ty → FnArg

pub record ItemFn : Type 0 where
  pub asyncness : Bool
  pub ident : Text
  pub inputs : List FnArg

pub data ArgKind : Type 0 where
  kv sql blobs : ArgKind

-- What is added behind the function: a type that implements `Guest` by a call of it.
pub record Exported : Type 0 where
  pub export_type : Text
  pub function : Text
  pub call_args : List ArgKind

-- `path.segments.last()`
unfoldable pub last_segment : List Text → Option Text
last_segment [] = none
last_segment (s ∷ []) = some s
last_segment (s ∷ t ∷ segments) = last_segment (t ∷ segments)

unfoldable pub last_path_segment : Ty → Option Text
unfolding last_segment
last_path_segment (path segments) = last_segment segments
last_path_segment unnamed = none

-- `{:?}` of a text, its characters that need no escape
abbrev debug : Text → Text
debug s = b'"' ∷ (s ++ b'"' ∷ [])

abbrev or_unknown : Option Text → Text
or_unknown none = text "<unknown>"
or_unknown (some s) = s

abbrev unsupported_type : Option Text → Text
unsupported_type other =
    text "unsupported argument type: "
    ++ (debug (or_unknown other) ++ text ". Supported injected types are Kv, Sql, and Blobs")

unfoldable pub kind_of : Option Text → Result Text ArgKind
kind_of none = err (unsupported_type none)
kind_of (some name) =
    if text_eq name (text "Kv")
    then ok kv
    else if text_eq name (text "Sql")
    then ok sql
    else if text_eq name (text "Blobs")
    then ok blobs
    else err (unsupported_type (some name))

unfoldable pub arg_kind : FnArg → Result Text ArgKind
arg_kind receiver = err (text "#[faasta::handler] functions must not take self")
arg_kind (typed false ty) = err (text "unsupported argument pattern in #[faasta::handler] function")
arg_kind (typed true ty) = kind_of (last_path_segment ty)

abbrev pub with_kind : Result Text ArgKind → Result Text (List ArgKind) → Result Text (List ArgKind)
with_kind (err e) rest = err e
with_kind (ok kind) (err e) = err e
with_kind (ok kind) (ok kinds) = ok (kind ∷ kinds)

-- The loop over the arguments, which stops at the first that is refused.
unfoldable pub arg_kinds : List FnArg → Result Text (List ArgKind)
arg_kinds [] = ok []
arg_kinds (arg ∷ inputs) = with_kind (arg_kind arg) (arg_kinds inputs)

abbrev pub exported : Text → Result Text (List ArgKind) → Result Text Exported
exported ident (err e) = err e
exported ident (ok kinds) = ok (record {
  export_type = text "__Faasta" ++ (ident ++ text "Handler");
  function = ident;
  call_args = kinds;
})

unfoldable pub handler : ItemFn → Result Text Exported
handler input =
    if input.asyncness
    then exported input.ident (arg_kinds input.inputs)
    else err (text "#[faasta::handler] functions must be async")
