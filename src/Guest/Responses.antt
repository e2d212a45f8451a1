-- ===== src/Guest/Responses.antt =====
-- What a function answers: faasta/src/http.rs and `response_from_result` of faasta/src/lib.rs. The bindings
-- to the host and the encoding of JSON are arguments.
use faasta.Prelude.{
  ℕ, Text, text, Bool, true, Option, none, some, [], ◌∷◌, ◌++◌, ◌≡◌, refl, ap, sym, ◌∙◌, Result, ok,
  err, ok-injective, All, length, if◌then◌else◌, Option-cases, Bool-cases, inl, inr, text_eq,
}
use faasta.Prelude.Decimal.{to_string}
use faasta.Prelude.Dict
use faasta.Prelude.Utf8.{as_bytes}
use faasta.Db.{Bytes}
use faasta.Wire.{
  HttpLibrary, HttpResponse, is_status, hyper_response_to_worker, faasta_response_to_http,
}
use faasta.Wire.Delivery.{IsFaithful, IsPlain, response-delivered}

-- `Fields::set` on fields without that name, `Response::set_status_code`, serde, and the value
-- `{ "error": … }`.
pub record Bindings (V : Type 0) : Type 0 where
  pub set_error : Text → Bytes → Option Text
  pub accepts_status : ℕ → Bool
  pub to_vec : V → Result Text Bytes
  pub error_value : Text → V

-- The types that are `IntoResponse`: `Html`, `Json`, each with a status or without, and a response.
pub data IntoResponse (V : Type 0) : Type 0 where
  html : Text → IntoResponse V
  json : V → IntoResponse V
  html_with_status : ℕ → Text → IntoResponse V
  json_with_status : ℕ → V → IntoResponse V
  response : HttpResponse → IntoResponse V

module _ {V : Type 0} (wasi : Bindings V) where
  abbrev built : ℕ → Text → Bytes → HttpResponse
  built status content_type body = record {
    status = status;
    headers =
        (text "content-type", as_bytes content_type)
        ∷ (text "content-length", as_bytes (to_string (length body)))
        ∷ [];
    body = body;
  }

  unfoldable pub body_response : ℕ → Text → Bytes → Result Text HttpResponse
  body_response status content_type body =
      elim (wasi.set_error (text "content-type") (as_bytes content_type)) [
        | some e ↦ err (text "setting header: " ++ e)
        | none ↦
            elim (wasi.set_error (text "content-length") (as_bytes (to_string (length body)))) [
              | some e ↦ err (text "setting header: " ++ e)
              | none ↦
                  if wasi.accepts_status status
                  then ok (built status content_type body)
                  else err (text "setting status code")
            ]
      ]

  abbrev sent_as_json : ℕ → Result Text Bytes → Result Text HttpResponse
  sent_as_json status (ok body) = body_response status (text "application/json") body
  sent_as_json status (err e) = err (text "serializing response: " ++ e)

  unfoldable pub json_response : ℕ → V → Result Text HttpResponse
  json_response status value = sent_as_json status (wasi.to_vec value)

  unfoldable pub into_response : IntoResponse V → Result Text HttpResponse
  into_response (html s) = body_response 200 (text "text/html; charset=utf-8") (as_bytes s)
  into_response (json value) = json_response 200 value
  into_response (html_with_status status s) =
      body_response status (text "text/html; charset=utf-8") (as_bytes s)
  into_response (json_with_status status value) = json_response status value
  into_response (response r) = ok r

  unfoldable pub response_from_result : Result Text (IntoResponse V) → Result Text HttpResponse
  response_from_result (ok answer) = into_response answer
  response_from_result (err e) = into_response (json_with_status 500 (wasi.error_value e))

  -- The status and the body that a handler's result asks for; a finished response has its own.
  abbrev pub status_of : Result Text (IntoResponse V) → ℕ
  status_of (ok (html s)) = 200
  status_of (ok (json value)) = 200
  status_of (ok (html_with_status status s)) = status
  status_of (ok (json_with_status status value)) = status
  status_of (ok (response r)) = r.status
  status_of (err e) = 500

  abbrev pub body_of : Result Text (IntoResponse V) → Result Text Bytes
  body_of (ok (html s)) = ok (as_bytes s)
  body_of (ok (json value)) = wasi.to_vec value
  body_of (ok (html_with_status status s)) = ok (as_bytes s)
  body_of (ok (json_with_status status value)) = wasi.to_vec value
  body_of (ok (response r)) = ok r.body
  body_of (err e) = wasi.to_vec (wasi.error_value e)

  abbrev pub IsUnfinished : Result Text (IntoResponse V) → Type 0
  IsUnfinished (ok (response r)) = ⊥
  IsUnfinished _ = Unit

  -- The response has this status and body, and tells the body's length.
  pub record IsAnswer (status : ℕ) (body : Result Text Bytes) (r : HttpResponse) : Type 0 where
    pub status_eq : r.status ≡ status
    pub body_eq : body ≡ ok r.body
    pub sized :
        Dict.lookup (text "content-length") r.headers ≡ some (as_bytes (to_string (length r.body)))

  body_response-eq :
      (status : ℕ) (content_type : Text) (body : Bytes) (r : HttpResponse)
      → body_response status content_type body ≡ ok r
      → r ≡ built status content_type body
  unfolding body_response
  body_response-eq status content_type body r h =
      elim (Option-cases (wasi.set_error (text "content-type") (as_bytes content_type))) [
        | inr (e, refused) ↦ let h' = rw (refused, body_response) at h in cc h'
        | inl fine ↦
            elim (Option-cases
              (wasi.set_error (text "content-length") (as_bytes (to_string (length body))))) [
                | inr (e, refused) ↦ let h' = rw (fine, body_response, refused) at h in cc h'
                | inl fine' ↦ elim (Bool-cases (wasi.accepts_status status)) [
                  | inr strange ↦ let h' = rw (fine, body_response, fine', strange) at h in cc h'
                  | inl usual ↦
                      let h' = rw (fine, body_response, fine', usual) at h in
                      sym (ok-injective (built status content_type body) r h')
                ]
              ]
      ]

  body_response-IsAnswer :
      (status : ℕ) (content_type : Text) (body : Bytes) (r : HttpResponse)
      → body_response status content_type body ≡ ok r
      → IsAnswer status (ok body) r
  unfolding Dict.lookup text_eq
  body_response-IsAnswer status content_type body r h =
      rw (body_response-eq status content_type body r h)
        (record { status_eq = refl; body_eq = refl; sized = refl })

  json_response-IsAnswer :
      (status : ℕ) (value : V) (encoded : Result Text Bytes) (r : HttpResponse)
      → sent_as_json status encoded ≡ ok r
      → IsAnswer status encoded r
  json_response-IsAnswer status value (ok body) r h =
      body_response-IsAnswer status (text "application/json") body r h
  json_response-IsAnswer status value (err e) r h = cc

  response_from_result-IsAnswer :
      (result : Result Text (IntoResponse V)) (r : HttpResponse)
      → IsUnfinished result
      → response_from_result result ≡ ok r
      → IsAnswer (status_of result) (body_of result) r
  unfolding response_from_result into_response json_response
  response_from_result-IsAnswer (ok (html s)) r u h = body_response-IsAnswer 200 _ (as_bytes s) r h
  response_from_result-IsAnswer (ok (json value)) r u h =
      json_response-IsAnswer 200 value (wasi.to_vec value) r h
  response_from_result-IsAnswer (ok (html_with_status status s)) r u h =
      body_response-IsAnswer status _ (as_bytes s) r h
  response_from_result-IsAnswer (ok (json_with_status status value)) r u h =
      json_response-IsAnswer status value (wasi.to_vec value) r h
  response_from_result-IsAnswer (ok (response finished)) r u h = absurd u
  response_from_result-IsAnswer (err e) r u h =
      json_response-IsAnswer 500 (wasi.error_value e) (wasi.to_vec (wasi.error_value e)) r h

  -- What a handler gives back reaches the client: with the status that it asked for, 500 for an error, its
  -- page or its value or the error in JSON as the body, and a `content-length` that is the body's; where
  -- the host takes the headers and the status, both are such that http allows them, and the http library
  -- reads back what it prints.
  pub result-delivered :
      (http : HttpLibrary) (result : Result Text (IntoResponse V)) (r : HttpResponse)
      → IsFaithful http
      → IsUnfinished result
      → response_from_result result ≡ ok r
      → is_status (status_of result) ≡ true
      → All (IsPlain http) r.headers
      → IsAnswer
          (status_of result)
          (body_of result)
          (faasta_response_to_http http (hyper_response_to_worker http r))
  result-delivered http result r faithful u h allowed plain =
      let is = response_from_result-IsAnswer result r u h in
      rw (response-delivered http faithful r (ap is_status is.status_eq ∙ allowed) plain) is
