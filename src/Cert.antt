-- ===== src/Cert.antt =====
-- The certificate manager of server/src/cert_manager.rs. Porkbun, the reading of certificates, the
-- environment, the clock and the file system's failures are arguments; log lines are left out.
pub mod Renewal
use faasta.Prelude.{
  ℕ, ◌-◌, ◌*◌, ◌/◌, ◌^◌, Text, text, Bool, true, false, not, ◌++◌, Option, none, some, Result, ok,
  err, Action, pure, fail, lift, ask, ◌>>=◌, ◌>>◌, ltb, text_eq, if◌then◌else◌,
}
use faasta.Prelude.Int.{ℤ, pos, negsuc}

pub record PorkbunResponse : Type 0 where
  pub status : Text
  pub message : Option Text
  pub certificate_chain : Option Text
  pub private_key : Option Text

-- The two files, and whether the key's may be read by its owner alone.
pub record Certs : Type 0 where
  pub certificate : Option Text
  pub key : Option Text
  pub key_private : Bool

-- What a renewal meets. The clock is in nanoseconds since the epoch; `not_after` reads the first
-- certificate of a file, in seconds; a write that fails leaves some text.
pub record Surroundings : Type 0 where
  pub now : ℕ
  pub not_after : Text → Result Text ℤ
  pub api_key : Option Text
  pub secret_api_key : Option Text
  pub retrieve : Text → Text → Result Text PorkbunResponse
  pub certificate_fault : Option (Text × Text)
  pub key_fault : Option (Text × Text)
  pub metadata_fault : Option Text
  pub permissions_fault : Option Text

abbrev pub nanos : ℕ
nanos = 1000000000

abbrev pub day : ℕ
day = 24 * 60 * 60

-- `i as u64` for an `i64`
abbrev pub as_u64 : ℤ → ℕ
as_u64 (pos n) = n
as_u64 (negsuc n) = 2 ^ 64 - 1 - n

abbrev pub required : Text → Option Text → Result Text Text
required e none = err e
required e (some value) = ok value

abbrev pub message_of : Option Text → Text
message_of none = text "Unknown error"
message_of (some message) = message

abbrev pub unless_error : Result Text PorkbunResponse → Result Text PorkbunResponse
unless_error (err e) = err e
unless_error (ok response) =
    if text_eq response.status (text "ERROR")
    then err (text "Error retrieving SSL from Porkbun: " ++ message_of response.message)
    else ok response

abbrev pub wrote :
    Option (Text × Text) → (Text → Certs → Certs) → Text → Action Certs Text (Unit {0})
wrote none put content s = (ok tt, put content s)
wrote (some (e, left)) put content s = (err e, put left s)

abbrev pub put_certificate : Text → Certs → Certs
put_certificate content s = record s { certificate = some content }

-- A new file is readable by others, an old one keeps its permissions.
abbrev pub still_private : Option Text → Bool → Bool
still_private none b = false
still_private (some old) b = b

abbrev pub put_key : Text → Certs → Certs
put_key content s = record s { key = some content; key_private = still_private s.key s.key_private }

abbrev pub fallible : Option Text → (Certs → Certs) → Action Certs Text (Unit {0})
fallible none f s = (ok tt, f s)
fallible (some e) f s = (err e, s)

module _ (out : Surroundings) where
  -- `expiry.duration_since(now)`, in whole seconds, is an error where the expiry lies before.
  abbrev pub expires_soon : ℕ → Bool
  expires_soon expiry =
      if ltb (expiry * nanos) out.now
      then true
      else ltb ((expiry * nanos - out.now) / nanos / day) 30

  abbrev pub soon_or_unreadable : Result Text ℤ → Bool
  soon_or_unreadable (ok seconds) = expires_soon (as_u64 seconds)
  soon_or_unreadable (err e) = true

  unfoldable pub needs_cert_renewal : Option Text → Bool
  needs_cert_renewal none = true
  needs_cert_renewal (some content) = soon_or_unreadable (out.not_after content)

  unfoldable pub get_ssl : Action Certs Text PorkbunResponse
  get_ssl = do
    apikey ← lift (
        required
          (text
            "PORKBUN_API_KEY environment variable not set. Please set it to your Porkbun API key.")
          out.api_key)
    secretapikey ← lift (
        required
          (text
            "PORKBUN_SECRET_API_KEY environment variable not set. Please set it to your Porkbun Secret API key.")
          out.secret_api_key)
    lift (unless_error (out.retrieve apikey secretapikey))

  unfoldable pub install_certificate : Option Text → Action Certs Text (Unit {0})
  install_certificate (some cert_chain) = wrote out.certificate_fault put_certificate cert_chain
  install_certificate none = fail (text "Certificate chain missing in Porkbun API response")

  unfoldable pub install_key : Option Text → Action Certs Text (Unit {0})
  install_key none = fail (text "Private key missing in Porkbun API response")
  install_key (some private_key) = do
    wrote out.key_fault put_key private_key
    fallible out.metadata_fault (λ s. s)
    fallible out.permissions_fault (λ s. record s { key_private = true })

  unfoldable pub renew : Action Certs Text (Unit {0})
  renew = do
    cert_json ← get_ssl
    install_certificate cert_json.certificate_chain
    install_key cert_json.private_key

  unfoldable pub obtain_or_renew_certificate : Action Certs Text (Unit {0})
  obtain_or_renew_certificate s = if needs_cert_renewal s.certificate then renew s else (ok tt, s)
