-- ===== src/Routing.antt =====
-- Function names from requests: `resolve_function_name` and `sanitize_function_name` of
-- server/src/wasi_server/mod.rs.
pub mod Names
pub mod Urls
use faasta.Prelude.{
  ℕ, Text, text, Bool, ◌||◌, Option, none, some, List, [], ◌∷◌, ◌≡◌, refl, all, is_empty, before,
  ends_with, split, trim_start_matches, is_ascii_alphanumeric, text_eq, ◌==◌, if◌then◌else◌,
}

-- `parts[0]` where there are more than two parts and it is not empty.
subdomain : List Text → Option Text
subdomain (name ∷ _ ∷ _ ∷ _) = if is_empty name then none else some name
subdomain _ = none

name_in_host : Option Text → Text → Option Text
name_in_host none base_domain = none
name_in_host (some host) base_domain =
    let hostname = before b':' host in
    if ends_with base_domain hostname then subdomain (split b'.' hostname) else none

name_in_path : Text → Option Text
name_in_path path =
    let trimmed = trim_start_matches b'/' path in
    if is_empty trimmed then none else some (before b'/' trimmed)

unfoldable pub resolve_function_name : Option Text → Text → Text → Option Text
unfolding name_in_host name_in_path subdomain
resolve_function_name host path base_domain = elim (name_in_host host base_domain) [
  | some name ↦ some name
  | none ↦ name_in_path path
]

abbrev pub is_name_char : ℕ → Bool
is_name_char c = is_ascii_alphanumeric c || c == b'-' || c == b'_'

unfoldable pub sanitize_function_name : Text → Option Text
sanitize_function_name function_name =
    if all is_name_char function_name then some function_name else none

by_subdomain :
    resolve_function_name (some (text "app.faasta.lol:443")) (text "/x") (text "faasta.lol")
    ≡ some (text "app")
unfolding resolve_function_name before ends_with text_eq split
by_subdomain = refl

by_path :
    resolve_function_name (some (text "faasta.lol")) (text "//app/x") (text "faasta.lol")
    ≡ some (text "app")
unfolding resolve_function_name before ends_with text_eq split trim_start_matches
by_path = refl
