-- ===== src/Tests/Certificates.antt =====
-- Answers of Porkbun with a key and without.
use faasta.Prelude.{
  Text, text, false, Option, none, some, ◌≡◌, ◌⊎◌, refl, arith, ok, err, ◌>>=◌, text_eq,
}
use faasta.Prelude.Int.{pos}
use faasta.Cert.{
  PorkbunResponse, Certs, Surroundings, needs_cert_renewal, obtain_or_renew_certificate, renew,
  get_ssl, install_certificate, install_key,
}
use faasta.Cert.Renewal.{IsInstalled, obtain_or_renew-IsInstalled, half_renewal-sticks}

abbrev response : Option Text → PorkbunResponse
response key = record {
  status = text "SUCCESS";
  message = none;
  certificate_chain = some (text "new");
  private_key = key;
}

-- Certificates run until a hundred million seconds; it is the first second of the epoch.
abbrev pub surroundings : Option Text → Surroundings
surroundings key = record {
  now = 0;
  not_after = λ content. ok (pos 100000000);
  api_key = some (text "a");
  secret_api_key = some (text "s");
  retrieve = λ apikey secretapikey. ok (response key);
  certificate_fault = none;
  key_fault = none;
  metadata_fault = none;
  permissions_fault = none;
}

abbrev pub no_files : Certs
no_files = record { certificate = none; key = none; key_private = false }

obtain_or_renew-IsInstalled_example :
    ((needs_cert_renewal (surroundings (some (text "k"))) none ≡ false)
      × ((obtain_or_renew_certificate (surroundings (some (text "k"))) no_files).1 ≡ no_files))
    ⊎ IsInstalled
        (surroundings (some (text "k")))
        (obtain_or_renew_certificate (surroundings (some (text "k"))) no_files).1
unfolding obtain_or_renew_certificate needs_cert_renewal renew get_ssl install_certificate
    install_key ◌>>=◌ text_eq
obtain_or_renew-IsInstalled_example =
    obtain_or_renew-IsInstalled (surroundings (some (text "k"))) no_files refl

half_renewal-sticks_example :
    (obtain_or_renew_certificate (surroundings none) no_files ≡ (
      err (text "Private key missing in Porkbun API response"),
      record no_files { certificate = some (text "new") },
    ))
    × (obtain_or_renew_certificate
          (surroundings none)
          (record no_files { certificate = some (text "new") })
        ≡ (ok tt, record no_files { certificate = some (text "new") }))
unfolding needs_cert_renewal text_eq
half_renewal-sticks_example =
    half_renewal-sticks (surroundings none) (surroundings none) (response none) (text "new")
      100000000 no_files refl
      (record {
        apikey = text "a";
        secretapikey = text "s";
        first = refl;
        second = refl;
        reply = refl;
      })
      refl refl refl refl (omega arith)
