-- ===== src/Cli/Reached.antt =====
-- The URLs that the command line prints and asks lead to the function: cli/src/main.rs with
-- `resolve_function_name` of server/src/wasi_server/mod.rs.
use faasta.Prelude.{
  ℕ, Text, text, Bool, true, false, some, [], ◌∷◌, ◌++◌, ◌≡◌, ◌≢◌, refl, sym, ap, ◌∙◌, All, arith,
  append_assoc, append-nil, before, contains_char, contains_text, starts_with, strip_prefix,
  split_text, split_from, colon_slashes, contains_colon_slashes, split_colon_slashes,
}
use faasta.Prelude.Cuts.{before_self, contains_char-append, ends_with-append}
use faasta.Routing.{resolve_function_name}
use faasta.Routing.Names.{IsNameChar}
use faasta.Routing.Urls.{IsTail, before-tail, resolve-subdomain}
use faasta.Cli.Urls.{
  default_invoke_url, extract_server_host, is_local, format_function_url, with_argument, over_https,
  invoke_url,
}

abbrev https : Text
https = text "https://"

https_has_scheme : (s : Text) → contains_text colon_slashes (https ++ s) ≡ true
unfolding contains_text strip_prefix
https_has_scheme s = refl

split_https :
    (s : Text)
    → contains_char b'/' s ≡ false
    → split_text colon_slashes (https ++ s) ≡ text "https" ∷ s ∷ []
unfolding split_from strip_prefix
split_https s h = ap (λ parts. text "https" ∷ parts) (split_colon_slashes s h)

contains_char-left :
    (c : ℕ) (s t : Text) → contains_char c (s ++ t) ≡ false → contains_char c s ≡ false
contains_char-left c s t h = ground (arith, contains_char-append c s t)

extract-host :
    (host port : Text)
    → contains_char b':' host ≡ false
    → contains_char b'/' (host ++ port) ≡ false
    → IsTail b':' port
    → extract_server_host (host ++ port) ≡ https ++ host
unfolding extract_server_host
extract-host host port colons slashes tail =
    rw (contains_colon_slashes (host ++ port) slashes)
      (ap (λ h. https ++ h) (before-tail b':' host port colons tail))

over_https_kept : (s : Text) → over_https (https ++ s) ≡ https ++ s
unfolding starts_with strip_prefix
over_https_kept s = refl

with_argument-slash : (s arg : Text) → with_argument (s ++ text "/") arg ≡ (s ++ text "/") ++ arg
with_argument-slash s arg = rw (ends_with-append s (text "/")) refl

module _ (is_ip_address : Text → Bool) where
  format-https :
      (name host : Text)
      → contains_char b'/' host ≡ false
      → is_local is_ip_address host ≡ false
      → format_function_url is_ip_address name (https ++ host)
        ≡ https ++ (name ++ b'.' ∷ (host ++ text "/"))
  unfolding format_function_url
  format-https name host slashes far =
      rw (https_has_scheme host, split_https host slashes, before_self b'/' host slashes, far) refl

  -- For a server `domain` or `domain:port` that is no local host and no IP address, the URL that a
  -- deployment prints is `https://name.domain/`, and the server resolves that host, whatever the path, to
  -- the name, where this is not empty and passes the character check and the domain has a dot and ends as
  -- the base domain does.
  pub format_function_url-resolve :
      (name domain base port path : Text)
      → All IsNameChar name
      → name ≢ []
      → contains_char b'.' (domain ++ base) ≡ true
      → contains_char b':' (domain ++ base) ≡ false
      → contains_char b'/' ((domain ++ base) ++ port) ≡ false
      → IsTail b':' port
      → is_local is_ip_address (domain ++ base) ≡ false
      → let host = name ++ b'.' ∷ (domain ++ base) in
        (format_function_url is_ip_address name (extract_server_host ((domain ++ base) ++ port))
          ≡ https ++ (host ++ text "/"))
        × (resolve_function_name (some host) path base ≡ some name)
  format_function_url-resolve name domain base port path good filled dots colons slashes tail far =
      let whole = domain ++ base in
      let slashes' = contains_char-left b'/' whole port slashes in
      (
        rw (extract-host whole port colons slashes tail) (
            format-https name whole slashes' far
            ∙ ap (λ s. https ++ s) (sym (append_assoc name (b'.' ∷ whole) (text "/")))),
        rw (← append-nil (name ++ b'.' ∷ whole))
            (resolve-subdomain name domain base [] path good filled dots colons tt),
      )

  default-format :
      (name : Text)
      → is_local is_ip_address (text "faasta.lol") ≡ false
      → format_function_url is_ip_address name default_invoke_url
        ≡ https ++ (name ++ text ".faasta.lol/")
  unfolding format_function_url contains_text split_from strip_prefix before
  default-format name far = rw far refl

  -- `invoke` asks `https://name.faasta.lol/` with the argument behind it, and a server for faasta.lol
  -- resolves that host to the name, where this is not empty and passes the character check and
  -- `faasta.lol` is no IP address.
  pub invoke_url-resolve :
      (name arg path : Text)
      → All IsNameChar name
      → name ≢ []
      → is_local is_ip_address (text "faasta.lol") ≡ false
      → (invoke_url is_ip_address name arg ≡ https ++ (name ++ (text ".faasta.lol/" ++ arg)))
        × (resolve_function_name (some (name ++ text ".faasta.lol")) path (text "faasta.lol")
            ≡ some name)
  unfolding invoke_url contains_char
  invoke_url-resolve name arg path good filled far = (
    ap (λ url. over_https (with_argument url arg))
          (default-format name far
            ∙ ap (λ s. https ++ s) (sym (append_assoc name (text ".faasta.lol") (text "/"))))
        ∙ ap over_https (with_argument-slash (https ++ (name ++ text ".faasta.lol")) arg)
        ∙ over_https_kept (((name ++ text ".faasta.lol") ++ text "/") ++ arg)
        ∙ ap (λ s. https ++ s) (simp append_assoc),
    rw (← append-nil (name ++ text ".faasta.lol"))
        (resolve-subdomain name [] (text "faasta.lol") [] path good filled refl refl tt),
  )
