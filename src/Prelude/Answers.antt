-- ===== src/Prelude/Answers.antt =====
-- What an action that does not fail answers, and leaves.
use mathlib.Core.Path.{◌≡◌, refl, subst}
use faasta.Prelude.Outcomes.{
  Result, ok, err, Action, pure, fail, lift, ok-injective, continue, ◌>>=◌,
}

-- An answer of the action and the state after it are in the relation.
pub record Yields {ℓ} {S E A : Type ℓ} (m : Action S E A) (Q : A → S → Type ℓ) : Type ℓ where
  pub answers : (s : S) (a : A) → (m s).0 ≡ ok a → Q a (m s).1

module _ {ℓ} {S E A B : Type ℓ} where
  Yields-continue :
      (r : Result E A) (f : A → Action S E B) (Q : B → S → Type ℓ) (s : S)
      → ((a : A) → r ≡ ok a → Yields (f a) Q)
      → (b : B) → (continue r f s).0 ≡ ok b
      → Q b (continue r f s).1
  Yields-continue (ok a) f Q s k b h = (k a refl).answers s b h
  Yields-continue (err e) f Q s k b h = cc

  pub Yields-bind :
      (m : Action S E A) (f : A → Action S E B) (Q : B → S → Type ℓ)
      → ((a : A) → Yields (f a) Q)
      → Yields (m >>= f) Q
  unfolding ◌>>=◌
  Yields-bind m f Q k = record {
    answers = λ s b h. let (r, s') = m s in Yields-continue r f Q s' (λ a e. k a) b h;
  }

  -- What follows a part that leaves the state alone may use that the part succeeded.
  pub Yields-lift :
      (r : Result E A) (f : A → Action S E B) (Q : B → S → Type ℓ)
      → ((a : A) → r ≡ ok a → Yields (f a) Q)
      → Yields (lift r >>= f) Q
  unfolding ◌>>=◌
  Yields-lift r f Q k = record { answers = λ s b h. Yields-continue r f Q s k b h }

  pub Yields-pure_then :
      (a : A) (f : A → Action S E B) (Q : B → S → Type ℓ) → Yields (f a) Q → Yields (pure a >>= f) Q
  unfolding ◌>>=◌
  Yields-pure_then a f Q k = record { answers = λ s b h. k.answers s b h }

module _ {ℓ} {S E A B : Type ℓ} where
  Yields-continue-map :
      (r : Result E A) (f : A → B) (Q : B → S → Type ℓ) (s : S)
      → ((a : A) → r ≡ ok a → Q (f a) s)
      → (b : B) → (continue r (λ a. pure (f a)) s).0 ≡ ok b
      → Q b (continue r (λ a. pure (f a)) s).1
  unfolding ◌>>=◌
  Yields-continue-map (ok a) f Q s k b h = subst (λ x. Q x s) (ok-injective (f a) b h) (k a refl)
  Yields-continue-map (err e) f Q s k b h = cc

  pub Yields-map :
      (m : Action S E A) (f : A → B) (Q : B → S → Type ℓ)
      → Yields m (λ a s. Q (f a) s)
      → Yields (m >>= λ a. pure (f a)) Q
  unfolding ◌>>=◌
  Yields-map m f Q k = record {
    answers =
        λ s b h. let (r, s') = m s in Yields-continue-map r f Q s' (λ a e. k.answers s a e) b h;
  }

module _ {ℓ} {S E A : Type ℓ} where
  -- A failure answers nothing.
  pub fail-eq-ok : (e : E) (s : S) (a : A) → ¬ ((fail e s).0 ≡ ok a)
  unfolding ◌>>=◌
  fail-eq-ok e s a h = refused h
    where
      refused : Path (Result E A) (err e) (ok a) → ⊥
      refused h = cc
