-- ===== src/Cli/Urls.antt =====
-- The URLs that the command line makes: `format_function_url`, `extract_server_host` and
-- `invoke_function` of cli/src/main.rs. Which texts are IP addresses is an argument.
use faasta.Prelude.{
  Text, text, Bool, not, ◌&&◌, ◌||◌, List, [], ◌∷◌, ◌++◌, if◌then◌else◌, before, contains_text,
  starts_with, split_text, replace_text, ends_with, text_eq, colon_slashes,
}

abbrev pub default_invoke_url : Text
default_invoke_url = text "https://faasta.lol/"

unfoldable pub extract_server_host : Text → Text
extract_server_host server_addr =
    if contains_text colon_slashes server_addr
    then server_addr
    else text "https://" ++ before b':' server_addr

abbrev pub with_slash : Text → Text
with_slash url = if ends_with (text "/") url then url else url ++ text "/"

abbrev pub with_scheme : Text → Text
with_scheme server =
    if not (contains_text colon_slashes server) then text "https://" ++ server else server

abbrev pub with_argument : Text → Text → Text
with_argument url arg = if ends_with (text "/") url then url ++ arg else url ++ (text "/" ++ arg)

abbrev pub over_https : Text → Text
over_https url =
    if not (starts_with (text "https://") url) && not (starts_with (text "http://") url)
    then text "https://" ++ url
    else if starts_with (text "http://") url
    then replace_text (text "http://") (text "https://") url
    else url

module _ (is_ip_address : Text → Bool) where
  abbrev pub is_local : Text → Bool
  is_local host =
      text_eq host (text "localhost") || text_eq host (text "127.0.0.1") || is_ip_address host

  abbrev pub url_at : Text → Text → Text → Text → Text
  url_at function_name server_url scheme host =
      if is_local host
      then with_slash server_url ++ function_name
      else scheme ++ (colon_slashes ++ (function_name ++ (text "." ++ (host ++ text "/"))))

  abbrev pub url_from : Text → Text → Text → List Text → Text
  url_from function_name server server_url (scheme ∷ rest ∷ []) =
      url_at function_name server_url scheme (before b'/' rest)
  url_from function_name server server_url _ =
      text "https://" ++ (server ++ (text "/" ++ function_name))

  unfoldable pub format_function_url : Text → Text → Text
  format_function_url function_name server =
      url_from function_name server (with_scheme server)
        (split_text colon_slashes (with_scheme server))

  -- The URL that `invoke_function` asks.
  unfoldable pub invoke_url : Text → Text → Text
  unfolding format_function_url
  invoke_url name arg = over_https (with_argument (format_function_url name default_invoke_url) arg)
