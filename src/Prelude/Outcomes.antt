-- ===== src/Prelude/Outcomes.antt =====
-- Results, and actions that read and write a state and may fail. What was written before a failure
-- stays written, so the state comes back beside the error too.
use mathlib.Core.Path.{◌≡◌, refl}

pub data Result {ℓ κ} (E : Type ℓ) (A : Type κ) : Type (ℓ ⊔ κ) where
  ok : A → Result E A
  err : E → Result E A

pub ok-injective {ℓ κ} :
    {E : Type ℓ} {A : Type κ} (a b : A) → Path (Result E A) (ok a) (ok b) → a ≡ b
ok-injective a b e = cc

abbrev pub Action {ℓ} : Type ℓ → Type ℓ → Type ℓ → Type ℓ
Action S E A = S → Result E A × S

module _ {ℓ} {S E A : Type ℓ} where
  pub pure : A → Action S E A
  pure a s = (ok a, s)

  pub fail : E → Action S E A
  fail e s = (err e, s)

  -- The result of a part that does not touch the state.
  pub lift : Result E A → Action S E A
  lift r s = (r, s)

  -- `self.field`
  pub ask : (S → A) → Action S E A
  ask f s = (ok (f s), s)

  pub lift_lem : (r : Result E A) (s : S) → ((lift r s).0 ≡ r) × ((lift r s).1 ≡ s)
  unfolding lift
  lift_lem r s = (refl, refl)

  pub pure-eq : (a : A) (s : S) → pure a s ≡ (ok a, s)
  unfolding pure
  pure-eq a s = refl

module _ {ℓ} {S E A B : Type ℓ} where
  abbrev pub continue : Result E A → (A → Action S E B) → Action S E B
  continue (ok a) f s = f a s
  continue (err e) f s = (err e, s)

  infixl 5 ◌>>=◌ ◌>>◌
  -- Opening this opens the actions above too.
  unfoldable pub ◌>>=◌ : Action S E A → (A → Action S E B) → Action S E B
  unfolding pure fail lift ask
  ◌>>=◌ m f s = let (r, s') = m s in continue r f s'

  abbrev pub ◌>>◌ : Action S E A → Action S E B → Action S E B
  m >> n = m >>= λ _. n

  -- Inversion of a successful step.
  pub bind-eq-ok :
      (m : Action S E A) (f : A → Action S E B) (s : S) {b : B}
      → ((m >>= f) s).0 ≡ ok b
      → (a : A) × ((m s).0 ≡ ok a) × ((m >>= f) s ≡ f a (m s).1)
  unfolding ◌>>=◌
  bind-eq-ok m f s h = let (r, s') = m s in continue-eq-ok r f s' h
    where
      continue-eq-ok :
          (r : Result E A) (g : A → Action S E B) (t : S) {b : B}
          → (continue r g t).0 ≡ ok b
          → (a : A) × (r ≡ ok a) × (continue r g t ≡ g a t)
      continue-eq-ok (ok a) g t e = (a, refl, refl)
      continue-eq-ok (err x) g t e = cc

module _ {ℓ} {S E A B : Type ℓ} where
  -- A step that answers `a` hands over to what follows.
  pub bind-answer :
      (m : Action S E A) (f : A → Action S E B) (s t : S) (a : A)
      → m s ≡ (ok a, t)
      → (m >>= f) s ≡ f a t
  unfolding ◌>>=◌
  bind-answer m f s t a e = rw e refl

module _ {ℓ} {S E A B : Type ℓ} where
  pub lift_ok : (a : A) (f : A → Action S E B) (s : S) → (lift (ok a) >>= f) s ≡ f a s
  unfolding ◌>>=◌
  lift_ok a f s = refl

  pub lift-eq-ok :
      (r : Result E A) (f : A → Action S E B) (s : S) {b : B}
      → ((lift r >>= f) s).0 ≡ ok b
      → (a : A) × (r ≡ ok a) × ((lift r >>= f) s ≡ f a s)
  unfolding ◌>>=◌
  lift-eq-ok (ok a) f s h = (a, refl, refl)
  lift-eq-ok (err x) f s h = cc

module _ {ℓ} {S E A B : Type ℓ} where
  -- What follows a step that succeeded succeeds.
  pub bind-ok-then :
      (m : Action S E A) (f : A → Action S E B) (s : S) {b : B}
      → ((m >>= f) s).0 ≡ ok b
      → (a : A) × ((m s).0 ≡ ok a) × ((f a (m s).1).0 ≡ ok b)
  unfolding ◌>>=◌
  bind-ok-then m f s h = let (r, s') = m s in continue-ok-then r s' h
    where
      continue-ok-then :
          (r : Result E A) (t : S) {b : B}
          → (continue r f t).0 ≡ ok b
          → (a : A) × (r ≡ ok a) × ((f a t).0 ≡ ok b)
      continue-ok-then (ok a) t e = (a, refl, e)
      continue-ok-then (err x) t e = cc

  pub lift-ok-then :
      (r : Result E A) (f : A → Action S E B) (s : S) {b : B}
      → ((lift r >>= f) s).0 ≡ ok b
      → (a : A) × (r ≡ ok a) × ((f a s).0 ≡ ok b)
  unfolding ◌>>=◌
  lift-ok-then (ok a) f s e = (a, refl, e)
  lift-ok-then (err x) f s e = cc

-- An action leads from states with `P` to states with `P`, whether it fails or not.
pub record Keeps {ℓ} {S E A : Type ℓ} (P : S → Type ℓ) (m : Action S E A) : Type ℓ where
  pub from : (s : S) → P s → P (m s).1

module _ {ℓ} {S E A : Type ℓ} {P : S → Type ℓ} where
  pub Keeps-lift : (r : Result E A) → Keeps P (lift {S = S} r)
  unfolding lift
  Keeps-lift r = record { from = λ s p. p }

  pub Keeps-pure : (a : A) → Keeps P (pure {E = E} a)
  unfolding pure
  Keeps-pure a = record { from = λ s p. p }

  pub Keeps-fail : (e : E) → Keeps P (fail {A = A} e)
  unfolding fail
  Keeps-fail e = record { from = λ s p. p }

  pub Keeps-ask : (f : S → A) → Keeps P (ask {E = E} f)
  unfolding ask
  Keeps-ask f = record { from = λ s p. p }

module _ {ℓ} {S E A B : Type ℓ} {P : S → Type ℓ} where
  Keeps-continue :
      (r : Result E A) (f : A → Action S E B) (s : S)
      → ((a : A) → Keeps P (f a))
      → P s
      → P (continue r f s).1
  Keeps-continue (ok a) f s k p = (k a).from s p
  Keeps-continue (err e) f s k p = p

  pub Keeps-bind :
      (m : Action S E A) (f : A → Action S E B)
      → Keeps P m
      → ((a : A) → Keeps P (f a))
      → Keeps P (m >>= f)
  unfolding ◌>>=◌
  Keeps-bind m f km kf = record {
    from = λ s p. let (r, s') = m s in Keeps-continue r f s' kf (km.from s p);
  }

module _ {ℓ} {S E A B : Type ℓ} {P : S → Type ℓ} where
  pub Keeps-then : (m : Action S E A) (n : Action S E B) → Keeps P m → Keeps P n → Keeps P (m >> n)
  Keeps-then m n km kn = Keeps-bind m (λ _. n) km (λ _. kn)

module _ {ℓ} {S E A B C : Type ℓ} (P : S → Type ℓ) where
  Keeps-continue-assoc :
      (r : Result E A) (g : A → Action S E B) (f : B → Action S E C) (s : S)
      → P (continue r (λ a. g a >>= f) s).1
      → P (continue (continue r g s).0 f (continue r g s).1).1
  unfolding ◌>>=◌
  Keeps-continue-assoc (ok a) g f s p = p
  Keeps-continue-assoc (err e) g f s p = p

module _ {ℓ} {S E A B C : Type ℓ} {P : S → Type ℓ} where
  -- A sequence of a sequence.
  pub Keeps-assoc :
      (m : Action S E A) (g : A → Action S E B) (f : B → Action S E C)
      → Keeps P (m >>= λ a. g a >>= f)
      → Keeps P ((m >>= g) >>= f)
  unfolding ◌>>=◌
  Keeps-assoc m g f k = record {
    from = λ s p. let (r, s') = m s in Keeps-continue-assoc P r g f s' (k.from s p);
  }

module _ {ℓ} {S E A B : Type ℓ} {P : S → Type ℓ} where
  pub Keeps-pure-then : (a : A) (f : A → Action S E B) → Keeps P (f a) → Keeps P (pure a >>= f)
  unfolding ◌>>=◌
  Keeps-pure-then a f k = record { from = λ s p. k.from s p }

pub ruleset keeps_rules = (Keeps-then, Keeps-lift, Keeps-pure, Keeps-fail, Keeps-ask, Keeps-bind)

module _ {ℓ} {S E A B : Type ℓ} (Q : S → Type ℓ) where
  either-continue :
      (r : Result E A) (f : A → Action S E B) (s : S)
      → ((e : E) → r ≡ err e → Q s)
      → ((a : A) → r ≡ ok a → Q (f a s).1)
      → Q (continue r f s).1
  either-continue (ok a) f s bad good = good a refl
  either-continue (err e) f s bad good = bad e refl

  -- A sequence ends after its first step, which then failed, or in the steps behind it.
  pub bind-either :
      (m : Action S E A) (f : A → Action S E B) (s : S)
      → ((e : E) → (m s).0 ≡ err e → Q (m s).1)
      → ((a : A) → (m s).0 ≡ ok a → Q (f a (m s).1).1)
      → Q ((m >>= f) s).1
  unfolding ◌>>=◌
  bind-either m f s bad good = let (r, s') = m s in either-continue r f s' bad good

  pub lift-either :
      (r : Result E A) (f : A → Action S E B) (s : S)
      → Q s
      → ((a : A) → r ≡ ok a → Q (f a s).1)
      → Q ((lift r >>= f) s).1
  unfolding ◌>>=◌
  lift-either r f s bad good = either-continue r f s (λ e p. bad) good

-- What holds after an action that starts where `P` holds and does not fail.
pub record Ensures {ℓ} {S E A : Type ℓ} (P : S → Type ℓ) (m : Action S E A) (Q : S → Type ℓ)
    : Type ℓ where
  pub after : (s : S) → P s → (a : A) → (m s).0 ≡ ok a → Q (m s).1

module _ {ℓ} {S E A B : Type ℓ} {R Q : S → Type ℓ} where
  Ensures-continue :
      (r : Result E A) (f : A → Action S E B) (s : S)
      → ((a : A) → r ≡ ok a → Ensures R (f a) Q)
      → ((a : A) → r ≡ ok a → R s)
      → (b : B) → (continue r f s).0 ≡ ok b
      → Q (continue r f s).1
  Ensures-continue (ok a) f s k p b h = (k a refl).after s (p a refl) b h
  Ensures-continue (err e) f s k p b h = cc

module _ {ℓ} {S E A B : Type ℓ} {P R Q : S → Type ℓ} where
  pub Ensures-bind :
      (m : Action S E A) (f : A → Action S E B)
      → Ensures P m R
      → ((a : A) → Ensures R (f a) Q)
      → Ensures P (m >>= f) Q
  unfolding ◌>>=◌
  Ensures-bind m f km kf = record {
    after = λ s p b h.
        let (r, s') = m s in Ensures-continue r f s' (λ a e. kf a) (λ a e. km.after s p a e) b h;
  }

  pub Ensures-then :
      (m : Action S E A) (n : Action S E B) → Ensures P m R → Ensures R n Q → Ensures P (m >> n) Q
  Ensures-then m n km kn = Ensures-bind m (λ _. n) km (λ _. kn)

module _ {ℓ} {S E A B : Type ℓ} {P Q : S → Type ℓ} where
  -- What follows a part that leaves the state alone may use that the part succeeded.
  pub Ensures-lift :
      (r : Result E A) (f : A → Action S E B)
      → ((a : A) → r ≡ ok a → Ensures P (f a) Q)
      → Ensures P (lift r >>= f) Q
  unfolding ◌>>=◌
  Ensures-lift r f k = record { after = λ s p b h. Ensures-continue r f s k (λ a e. p) b h }
