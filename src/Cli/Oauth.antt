-- ===== src/Cli/Oauth.antt =====
-- The login through GitHub: cli/src/github_oauth.rs. The browser, the redirect server, GitHub and the
-- parser of URLs are arguments; what is printed and what the browser is shown are left out.
use faasta.Prelude.{
  Text, text, Bool, true, false, Option, none, some, List, [], ◌∷◌, ◌++◌, Result, ok, err, text_eq,
  if◌then◌else◌,
}

-- `csrf_state` is the secret that is put into the URL. `query_pairs` are those of the request that comes
-- in; `respond` may fail for the text that it sends.
pub record Surroundings : Type 0 where
  pub test_mode : Bool
  pub test_username : Option Text
  pub test_token : Option Text
  pub get_oauth_client : Result Text (Unit {0})
  pub start_redirect_server : Result Text (Unit {0})
  pub open_browser : Result Text (Unit {0})
  pub csrf_state : Text
  pub query_pairs : Result Text (List (Text × Text))
  pub respond : Result Text (Unit {0})
  pub exchange_code : Text → Result Text Text
  pub login_of : Text → Result Text Text

-- The loop keeps the last value of a key.
unfoldable pub last_value : Text → List (Text × Text) → Option Text → Option Text
last_value key [] found = found
last_value key ((k, value) ∷ pairs) found =
    let replaced = last_value key pairs (some value) in
    let kept = last_value key pairs found in if text_eq k key then replaced else kept

-- `state.as_deref() == Some(csrf_state.secret())`
abbrev pub is_state : Text → Option Text → Bool
is_state secret none = false
is_state secret (some state) = text_eq state secret

abbrev pub then_err {ℓ} : {A : Type ℓ} → Result Text (Unit {0}) → Result Text A → Result Text A
then_err (err e) r = err e
then_err (ok u) r = r

abbrev pub bind_result {ℓ} : {A B : Type ℓ} → Result Text A → (A → Result Text B) → Result Text B
bind_result (err e) f = err e
bind_result (ok a) f = f a

module _ (out : Surroundings) where
  abbrev pub code_or_error : Option Text → Result Text Text
  code_or_error (some code_value) = then_err out.respond (ok code_value)
  code_or_error none = then_err out.respond (err (text "No authorization code received"))

  abbrev pub checked : List (Text × Text) → Result Text Text
  checked pairs =
      if is_state out.csrf_state (last_value (text "state") pairs none)
      then code_or_error (last_value (text "code") pairs none)
      else then_err out.respond (err (text "Invalid OAuth state"))

  unfoldable pub wait_for_callback : Result Text Text
  unfolding last_value
  wait_for_callback = bind_result out.query_pairs checked

  -- The access token becomes the token that is stored, with the login that GitHub knows it by.
  unfoldable pub exchanged : Text → Result Text (Text × Text)
  exchanged auth_code = bind_result (out.exchange_code auth_code) λ access_token.
      bind_result (out.login_of access_token)
        λ username. ok (username, text "Bearer " ++ access_token)

  unfoldable pub authorised : Result Text (Text × Text)
  unfolding wait_for_callback exchanged
  authorised = then_err out.get_oauth_client (
      then_err out.start_redirect_server
        (then_err out.open_browser (bind_result wait_for_callback exchanged)))

  abbrev pub test_or :
      Bool → Option Text → Option Text → Result Text (Text × Text) → Result Text (Text × Text)
  test_or true (some username) (some token) r = ok (username, text "Bearer " ++ token)
  test_or _ _ _ r = r

  unfoldable pub github_oauth_flow : Result Text (Text × Text)
  github_oauth_flow = test_or out.test_mode out.test_username out.test_token authorised
