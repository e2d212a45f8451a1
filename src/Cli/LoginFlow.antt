-- ===== src/Cli/LoginFlow.antt =====
-- Whose credentials a login through GitHub stores (cli/src/github_oauth.rs).
use faasta.Prelude.{
  Text, text, true, false, Option, none, some, List, ◌++◌, ◌≡◌, refl, sym, ap, ◌∙◌, Result, ok, err,
  text_eq_iff, Bool-cases, inl, inr, ok-injective,
}
use faasta.Cli.Oauth.{
  Surroundings, last_value, is_state, then_err, bind_result, code_or_error, checked,
  wait_for_callback, exchanged, authorised, github_oauth_flow,
}

then_err-eq-ok :
    {A : Type 0} (r : Result Text (Unit {0})) (s : Result Text A) (a : A)
    → then_err r s ≡ ok a
    → s ≡ ok a
then_err-eq-ok (err e) s a h = cc
then_err-eq-ok (ok u) s a h = h

bind_result-eq-ok :
    {A B : Type 0} (r : Result Text A) (f : A → Result Text B) (b : B)
    → bind_result r f ≡ ok b
    → (a : A) × (r ≡ ok a) × (f a ≡ ok b)
bind_result-eq-ok (err e) f b h = cc
bind_result-eq-ok (ok a) f b h = (a, refl, h)

is_state-some : (secret : Text) (o : Option Text) → is_state secret o ≡ true → o ≡ some secret
is_state-some secret none h = cc
is_state-some secret (some state) h = ap (λ x. some x) ((text_eq_iff state secret).0 h)

-- The credentials come from one callback, which had the state that was put into the URL: its code was
-- exchanged for the access token in them, and the name is the login that GitHub gives for that token.
pub record IsAuthorised (out : Surroundings) (username token : Text) : Type 0 where
  pub pairs : List (Text × Text)
  pub received : out.query_pairs ≡ ok pairs
  pub state : last_value (text "state") pairs none ≡ some out.csrf_state
  pub code : Text
  pub given : last_value (text "code") pairs none ≡ some code
  pub access_token : Text
  pub exchange : out.exchange_code code ≡ ok access_token
  pub login : out.login_of access_token ≡ ok username
  pub stored : token ≡ text "Bearer " ++ access_token

module _ (out : Surroundings) where
  no_code :
      (code : Text)
      → ¬ (then_err out.respond (err (text "No authorization code received")) ≡ ok code)
  no_code code h = refused (then_err-eq-ok out.respond _ code h)
    where
      refused : Path (Result Text Text) (err (text "No authorization code received")) (ok code) → ⊥
      refused e = cc

  code_or_error-eq-ok :
      (o : Option Text) (code : Text) → code_or_error out o ≡ ok code → o ≡ some code
  code_or_error-eq-ok (some found) code h =
      ap (λ x. some x) (ok-injective found code (then_err-eq-ok out.respond (ok found) code h))
  code_or_error-eq-ok none code h = absurd (no_code code h)

  checked-eq-ok :
      (pairs : List (Text × Text)) (code : Text)
      → checked out pairs ≡ ok code
      → (last_value (text "state") pairs none ≡ some out.csrf_state)
        × (last_value (text "code") pairs none ≡ some code)
  checked-eq-ok pairs code h =
      elim (Bool-cases (is_state out.csrf_state (last_value (text "state") pairs none))) [
        | inl same ↦ (
          is_state-some out.csrf_state _ same,
          code_or_error-eq-ok (last_value (text "code") pairs none) code (rw same at h),
        )
        | inr other ↦ absurd (refused (then_err-eq-ok out.respond _ code (rw other at h)))
      ]
    where
      refused : Path (Result Text Text) (err (text "Invalid OAuth state")) (ok code) → ⊥
      refused e = cc

  authorised-IsAuthorised :
      (username token : Text)
      → authorised out ≡ ok (username, token)
      → IsAuthorised out username token
  unfolding authorised wait_for_callback exchanged
  authorised-IsAuthorised username token h =
      let waited =
        then_err-eq-ok out.open_browser _ (username, token)
          (then_err-eq-ok out.start_redirect_server _ (username, token)
            (then_err-eq-ok out.get_oauth_client _ (username, token) h)) in
      let (code, called, rest) =
        bind_result-eq-ok (wait_for_callback out) (exchanged out) (username, token) waited in
      let (pairs, received, passed) = bind_result-eq-ok out.query_pairs (checked out) code called in
      let (state, given) = checked-eq-ok pairs code passed in
      let (access_token, exchange, named) =
        bind_result-eq-ok (out.exchange_code code)
          (λ access. bind_result (out.login_of access) λ name. ok (name, text "Bearer " ++ access))
          (username, token) rest in
      let (name, login, both) =
        bind_result-eq-ok (out.login_of access_token)
          (λ name. ok (name, text "Bearer " ++ access_token)) (username, token) named in
      let same = ok-injective _ _ both in
      record {
        pairs = pairs;
        received = received;
        state = state;
        code = code;
        given = given;
        access_token = access_token;
        exchange = exchange;
        login = login ∙ ap (λ p. ok p.0) same;
        stored = sym (ap (λ p. p.1) same);
      }

-- Outside the test mode, a login through GitHub that succeeds is authorised by the callback.
pub github_oauth_flow-IsAuthorised :
    (out : Surroundings) (username token : Text)
    → out.test_mode ≡ false
    → github_oauth_flow out ≡ ok (username, token)
    → IsAuthorised out username token
unfolding github_oauth_flow authorised
github_oauth_flow-IsAuthorised out username token plain h =
    authorised-IsAuthorised out username token (rw plain at h)
