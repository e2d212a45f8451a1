-- ===== src/Cert/Renewal.antt =====
-- When a certificate is renewed, and what a renewal leaves.
use faasta.Prelude.{
  ℕ, ◌+◌, ◌*◌, ◌<◌, ◌≤◌, Text, text, Bool, true, false, Option, none, some, ◌≡◌, ◌↔◌, refl, sym, ap,
  ◌∙◌, arith, ok, err, ◌>>=◌, bind-eq-ok, lift-eq-ok, lift_lem, bind-answer, fail-eq-ok, ◌⊎◌,
  Bool-cases, inl, inr,
}
use faasta.Prelude.Int.{pos}
use faasta.Cert.{
  PorkbunResponse, Certs, Surroundings, nanos, day, expires_soon, needs_cert_renewal, get_ssl,
  unless_error, required, wrote, put_certificate, put_key, fallible, install_certificate,
  install_key, renew, obtain_or_renew_certificate,
}

expires_soon_iff :
    (out : Surroundings) (expiry : ℕ)
    → (expires_soon out expiry ≡ true) ↔ (expiry * nanos < out.now + 30 * day * nanos)
expires_soon_iff out expiry = ground arith

-- A certificate that can be read is renewed exactly when it expires less than thirty days from now, to
-- the second.
pub needs_cert_renewal_iff :
    (out : Surroundings) (content : Text) (expiry : ℕ)
    → out.not_after content ≡ ok (pos expiry)
    → (needs_cert_renewal out (some content) ≡ true) ↔ (expiry * nanos < out.now + 30 * day * nanos)
unfolding needs_cert_renewal
needs_cert_renewal_iff out content expiry h = rw h (expires_soon_iff out expiry)

-- The files are those of one answer of Porkbun, and the key's is private.
pub record IsInstalled (out : Surroundings) (t : Certs) : Type 0 where
  pub apikey : Text
  pub secretapikey : Text
  pub response : PorkbunResponse
  pub answered : unless_error (out.retrieve apikey secretapikey) ≡ ok response
  pub certificate : t.certificate ≡ response.certificate_chain
  pub key : t.key ≡ response.private_key
  pub private : t.key_private ≡ true

abbrev private_mode : Certs → Certs
private_mode s = record s { key_private = true }

module _ (out : Surroundings) where
  wrote-eq-ok :
      (fault : Option (Text × Text)) (put : Text → Certs → Certs) (content : Text) (s : Certs)
      → (wrote fault put content s).0 ≡ ok tt
      → (wrote fault put content s).1 ≡ put content s
  wrote-eq-ok none put content s h = refl
  wrote-eq-ok (some (e, left)) put content s h = cc

  fallible-eq-ok :
      (fault : Option Text) (f : Certs → Certs) (s : Certs)
      → (fallible fault f s).0 ≡ ok tt
      → (fallible fault f s).1 ≡ f s
  fallible-eq-ok none f s h = refl
  fallible-eq-ok (some e) f s h = cc

  install_certificate-eq-ok :
      (chain : Option Text) (s : Certs)
      → (install_certificate out chain s).0 ≡ ok tt
      → (install_certificate out chain s).1 ≡ record s { certificate = chain }
  unfolding install_certificate
  install_certificate-eq-ok none s h = absurd (fail-eq-ok _ s tt h)
  install_certificate-eq-ok (some chain) s h =
      wrote-eq-ok out.certificate_fault put_certificate chain s h

  install_key-eq-ok :
      (private_key : Option Text) (s : Certs)
      → (install_key out private_key s).0 ≡ ok tt
      → (install_key out private_key s).1
        ≡ record { certificate = s.certificate; key = private_key; key_private = true }
  unfolding install_key
  install_key-eq-ok none s h = absurd (fail-eq-ok _ s tt h)
  install_key-eq-ok (some private_key) s h =
      let (_, h1, e1) = bind-eq-ok (wrote out.key_fault put_key private_key) _ s h in
      let s1 = (wrote out.key_fault put_key private_key s).1 in
      let (_, h2, e2) =
        bind-eq-ok (fallible out.metadata_fault (λ t. t)) _ s1 (sym (ap (λ x. x.0) e1) ∙ h) in
      let s2 = (fallible out.metadata_fault (λ t. t) s1).1 in
      let before =
        fallible-eq-ok out.metadata_fault (λ t. t) s1 h2
        ∙ wrote-eq-ok out.key_fault put_key private_key s h1 in
      let whole = e1 ∙ e2 in
      ap (λ x. x.1) whole
      ∙ fallible-eq-ok out.permissions_fault private_mode s2 (sym (ap (λ x. x.0) whole) ∙ h)
      ∙ ap private_mode before

  get_ssl-eq-ok :
      (s : Certs) (response : PorkbunResponse)
      → (get_ssl out s).0 ≡ ok response
      → (apikey : Text) × (secretapikey : Text) × (unless_error (out.retrieve apikey secretapikey)
          ≡ ok response)
        × ((get_ssl out s).1 ≡ s)
  unfolding get_ssl
  get_ssl-eq-ok s response h =
      let (apikey, _, e1) = lift-eq-ok (required _ out.api_key) _ s h in
      let (secretapikey, _, e2) =
        lift-eq-ok (required _ out.secret_api_key) _ s (sym (ap (λ x. x.0) e1) ∙ h) in
      let (answered, kept) = lift_lem (unless_error (out.retrieve apikey secretapikey)) s in
      (
        apikey,
        secretapikey,
        sym answered ∙ sym (ap (λ x. x.0) (e1 ∙ e2)) ∙ h,
        ap (λ x. x.1) (e1 ∙ e2) ∙ kept,
      )

  renew-eq-ok : (s : Certs) → (renew out s).0 ≡ ok tt → IsInstalled out (renew out s).1
  unfolding renew
  renew-eq-ok s h =
      let (response, got, e1) = bind-eq-ok (get_ssl out) _ s h in
      let (apikey, secretapikey, answered, kept) = get_ssl-eq-ok s response got in
      let s1 = (get_ssl out s).1 in
      let (_, h2, e2) =
        bind-eq-ok (install_certificate out response.certificate_chain) _ s1
          (sym (ap (λ x. x.0) e1) ∙ h) in
      let s2 = (install_certificate out response.certificate_chain s1).1 in
      let whole = e1 ∙ e2 in
      let at_end =
        ap (λ x. x.1) whole
        ∙ install_key-eq-ok response.private_key s2 (sym (ap (λ x. x.0) whole) ∙ h) in
      record {
        apikey = apikey;
        secretapikey = secretapikey;
        response = response;
        answered = answered;
        certificate =
            ap (λ t. t.certificate) (at_end)
            ∙ ap (λ t. t.certificate) (install_certificate-eq-ok response.certificate_chain s1 h2);
        key = ap (λ t. t.key) at_end;
        private = ap (λ t. t.key_private) at_end;
      }

-- A renewal that reports success either was not needed and touched nothing, or has put the certificate
-- and the key of one answer of Porkbun in place, the key readable by its owner alone.
pub obtain_or_renew-IsInstalled :
    (out : Surroundings) (s : Certs)
    → (obtain_or_renew_certificate out s).0 ≡ ok tt
    → ((needs_cert_renewal out s.certificate ≡ false) × ((obtain_or_renew_certificate out s).1 ≡ s))
      ⊎ IsInstalled out (obtain_or_renew_certificate out s).1
unfolding obtain_or_renew_certificate
obtain_or_renew-IsInstalled out s h = elim (Bool-cases (needs_cert_renewal out s.certificate)) [
  | inl needed ↦ inr (rw needed (renew-eq-ok out s (rw needed at h)))
  | inr fresh ↦ inl (fresh, rw fresh refl)
]

-- Porkbun's answer to the keys of the environment.
pub record Answered (out : Surroundings) (response : PorkbunResponse) : Type 0 where
  pub apikey : Text
  pub secretapikey : Text
  pub first : out.api_key ≡ some apikey
  pub second : out.secret_api_key ≡ some secretapikey
  pub reply : unless_error (out.retrieve apikey secretapikey) ≡ ok response

get_ssl-Answered :
    (out : Surroundings) (response : PorkbunResponse) (s : Certs)
    → Answered out response
    → get_ssl out s ≡ (ok response, s)
unfolding get_ssl ◌>>=◌
get_ssl-Answered out response s a = rw (a.first, a.second, a.reply) refl

renew-half :
    (out : Surroundings) (response : PorkbunResponse) (chain : Text) (s : Certs)
    → Answered out response
    → response.certificate_chain ≡ some chain
    → response.private_key ≡ none
    → out.certificate_fault ≡ none
    → renew out s
      ≡ (err (text "Private key missing in Porkbun API response"), put_certificate chain s)
unfolding renew install_certificate install_key ◌>>=◌
renew-half out response chain s a with_chain no_key works =
    bind-answer (get_ssl out) _ s s response (get_ssl-Answered out response s a)
    ∙ bind-answer (install_certificate out response.certificate_chain) _ s (put_certificate chain s)
        tt (installed response.certificate_chain with_chain)
    ∙ refused response.private_key no_key
  where
    installed :
        (c : Option Text)
        → c ≡ some chain
        → install_certificate out c s ≡ (ok tt, put_certificate chain s)
    installed c e = rw (e, works) refl

    refused :
        (k : Option Text)
        → k ≡ none
        → install_key out k (put_certificate chain s)
          ≡ (err (text "Private key missing in Porkbun API response"), put_certificate chain s)
    refused k e = rw e refl

-- An answer with a certificate and no key is an error that leaves the new certificate beside the old
-- key, and the next renewal, where the new certificate is good for thirty days or more, reports success
-- and leaves the two as they are.
pub half_renewal-sticks :
    (out later : Surroundings) (response : PorkbunResponse) (chain : Text) (expiry : ℕ) (s : Certs)
    → needs_cert_renewal out s.certificate ≡ true
    → Answered out response
    → response.certificate_chain ≡ some chain
    → response.private_key ≡ none
    → out.certificate_fault ≡ none
    → later.not_after chain ≡ ok (pos expiry)
    → later.now + 30 * day * nanos ≤ expiry * nanos
    → (obtain_or_renew_certificate out s ≡ (
      err (text "Private key missing in Porkbun API response"),
      record s { certificate = some chain },
    ))
      × (obtain_or_renew_certificate later (record s { certificate = some chain })
          ≡ (ok tt, record s { certificate = some chain }))
unfolding obtain_or_renew_certificate
half_renewal-sticks out later response chain expiry s needed a with_chain no_key works reads far = (
  rw needed (renew-half out response chain s a with_chain no_key works),
  rw
      (not_needed (needs_cert_renewal later (some chain))
        (needs_cert_renewal_iff later chain expiry reads).0)
      refl,
)
  where
    not_needed : (b : Bool) → (b ≡ true → expiry * nanos < later.now + 30 * day * nanos) → b ≡ false
    not_needed true h = absurd (omega (arith, h refl, far))
    not_needed false h = refl
