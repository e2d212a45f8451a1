-- ===== src/Cli/Endpoint.antt =====
-- The endpoint of the RPC client: `normalize_endpoint` of cli/src/run.rs. The parser of URLs is an
-- argument.
use faasta.Prelude.{
  Text, text, true, false, Option, none, some, ◌++◌, ◌≡◌, ◌≢◌, refl, sym, ◌∙◌, Result, ok, err,
  is_empty, trim, contains_text, text_eq, text_eq_iff, colon_slashes, if◌then◌else◌, Bool-cases,
  inl, inr,
}

-- The functions of the crate `url` that are called.
pub record Urls (U : Type 0) : Type 0 where
  pub parse : Text → Result Text U
  pub scheme : U → Text
  pub set_scheme : Text → U → Option U
  pub path : U → Text
  pub set_path : Text → U → U
  pub to_string : U → Text

abbrev pub or_else {ℓ} : {A : Type ℓ} → Result Text A → Result Text A → Result Text A
or_else (ok a) r = ok a
or_else (err e) r = r

module _ {U : Type 0} (urls : Urls U) where
  abbrev pub parsed : Text → Result Text U
  parsed trimmed =
      if contains_text colon_slashes trimmed
      then urls.parse trimmed
      else or_else (urls.parse (text "https://" ++ trimmed))
          (urls.parse (text "https://" ++ (trimmed ++ text "/")))

  abbrev pub or_no_https : Option U → Result Text U
  or_no_https none = err (text "Server address must use HTTPS")
  or_no_https (some url) = ok url

  abbrev pub with_https : U → Result Text U
  with_https url =
      if text_eq (urls.scheme url) (text "https")
      then ok url
      else or_no_https (urls.set_scheme (text "https") url)

  abbrev pub with_rpc : U → U
  with_rpc url = if text_eq (urls.path url) (text "/") then urls.set_path (text "/rpc") url else url

  abbrev pub finish : Result Text U → Result Text Text
  finish (err e) = err e
  finish (ok url) = ok (urls.to_string (with_rpc url))

  abbrev pub secure : Result Text U → Result Text U
  secure (err e) = err e
  secure (ok url) = with_https url

  unfoldable pub normalize_endpoint : Text → Result Text Text
  normalize_endpoint server_addr =
      if is_empty (trim server_addr)
      then err (text "Server address cannot be empty")
      else finish (secure (parsed (trim server_addr)))

  -- What a URL is after a part of it was set.
  pub record IsLawful : Type 0 where
    pub scheme-set_scheme :
        (s : Text) (url url' : U) → urls.set_scheme s url ≡ some url' → urls.scheme url' ≡ s
    pub scheme-set_path : (s : Text) (url : U) → urls.scheme (urls.set_path s url) ≡ urls.scheme url
    pub path-set_path : (url : U) → urls.path (urls.set_path (text "/rpc") url) ≡ text "/rpc"

  with_https-scheme :
      (url url' : U) → IsLawful → with_https url ≡ ok url' → urls.scheme url' ≡ text "https"
  with_https-scheme url url' laws h = elim (Bool-cases (text_eq (urls.scheme url) (text "https"))) [
    | inl same ↦ same_url (rw same at h) ∙ (text_eq_iff (urls.scheme url) (text "https")).0 same
    | inr other ↦ set (urls.set_scheme (text "https") url) refl (rw other at h)
  ]
    where
      same_url : Path (Result Text U) (ok url) (ok url') → urls.scheme url' ≡ urls.scheme url
      same_url e = cc

      set :
          (o : Option U)
          → urls.set_scheme (text "https") url ≡ o
          → or_no_https o ≡ ok url'
          → urls.scheme url' ≡ text "https"
      set none e k = cc
      set (some url'') e k = laws.scheme-set_scheme (text "https") url url' (e ∙ same_some url'' k)
        where
          same_some :
              (x : U) → Path (Result Text U) (ok x) (ok url') → Path (Option U) (some x) (some url')
          same_some x k' = cc

  with_rpc-kept :
      (url : U)
      → IsLawful
      → (urls.scheme (with_rpc url) ≡ urls.scheme url) × (urls.path (with_rpc url) ≢ text "/")
  with_rpc-kept url laws = elim (Bool-cases (text_eq (urls.path url) (text "/"))) [
    | inl root ↦
        rw root (
          laws.scheme-set_path (text "/rpc") url,
          λ e. two_paths (sym (laws.path-set_path url) ∙ e),
        )
    | inr other ↦ rw other (refl, λ e. apart ((text_eq_iff (urls.path url) (text "/")).1 e) other)
  ]
    where
      two_paths : text "/rpc" ≢ text "/"
      two_paths e = cc

      apart :
          text_eq (urls.path url) (text "/") ≡ true → text_eq (urls.path url) (text "/") ≡ false → ⊥
      apart e k = cc

  finished :
      (r : Result Text U) (endpoint : Text)
      → IsLawful
      → finish (secure r) ≡ ok endpoint
      → (url : U) × (endpoint ≡ urls.to_string url)
        × (urls.scheme url ≡ text "https")
        × (urls.path url ≢ text "/")
  finished (err e) endpoint laws h = cc
  finished (ok url) endpoint laws h = secured (with_https url) refl h
    where
      secured :
          (r : Result Text U)
          → with_https url ≡ r
          → finish r ≡ ok endpoint
          → (url : U) × (endpoint ≡ urls.to_string url)
            × (urls.scheme url ≡ text "https")
            × (urls.path url ≢ text "/")
      secured (err e) k h = cc
      secured (ok url') k h =
          let (kept, no_root) = with_rpc-kept url' laws in
          (with_rpc url', same h, kept ∙ with_https-scheme url url' laws k, no_root)
        where
          same :
              Path (Result Text Text) (ok (urls.to_string (with_rpc url'))) (ok endpoint)
              → endpoint ≡ urls.to_string (with_rpc url')
          same e = cc

  -- The endpoint that the credentials are sent to is one of a URL with the scheme `https`, whatever the
  -- scheme of the given address, and its path is not the root.
  pub normalize_endpoint-https :
      (server_addr endpoint : Text)
      → IsLawful
      → normalize_endpoint server_addr ≡ ok endpoint
      → (url : U) × (endpoint ≡ urls.to_string url)
        × (urls.scheme url ≡ text "https")
        × (urls.path url ≢ text "/")
  unfolding normalize_endpoint
  normalize_endpoint-https server_addr endpoint laws h =
      elim (Bool-cases (is_empty (trim server_addr))) [
        | inl empty ↦ absurd (refused (rw empty at h))
        | inr filled ↦ finished (parsed (trim server_addr)) endpoint laws (rw filled at h)
      ]
    where
      refused :
          Path (Result Text Text) (err (text "Server address cannot be empty")) (ok endpoint) → ⊥
      refused e = cc
