-- ===== src/Blobstore/Listing.antt =====
-- `list_objects` of `S3Container` reads every page.
use faasta.Prelude.{
  ℕ, zero, suc, ◌≤◌, ◌<◌, Text, text, Bool, true, false, Option, none, some, List, [], ◌∷◌, ◌++◌,
  ◌≡◌, refl, ap, bind-answer, ◌∙◌, arith, append_assoc, ok, ◌>>=◌, pure, strip_prefix, ends_with,
  if◌then◌else◌, length, length-append, Bool-cases, Option-cases, inl, inr,
}
use faasta.Blobstore.S3.{
  ObjectStore, S3Container, Page, prefix, names, onto, list_from, list_objects, or_false,
}

-- The keys that a page holds.
abbrev pub present : List (Option Text) → List Text
present [] = []
present (none ∷ keys) = present keys
present (some key ∷ keys) = key ∷ present keys

abbrev pub begins : Text → Text → Bool
begins p key = elim (strip_prefix p key) [ none ↦ false | some _ ↦ true ]

abbrev pub below : Text → List Text → List Text
below p [] = []
below p (key ∷ keys) = let rest = below p keys in if begins p key then key ∷ rest else rest

-- What a container shows of all keys: without the prefix, and without those that end as markers do.
unfoldable pub visible : Text → List Text → List Text
visible p [] = []
visible p (key ∷ keys) =
    let rest = visible p keys in
    if ends_with (text ".container") key then rest else onto (strip_prefix p key) rest

-- Every request for a page succeeds, and S3 hands out the keys below a prefix page after page, each continuation token standing for the
-- keys that are left, with a key at least on every page but the last.
pub record IsPaged {R : Type 0} (store : ObjectStore R) (keys : R → List Text)
    (page : R → Text → Option Text → Page) (rest : R → Text → Option Text → List Text)
    (Issued : R → Text → Option Text → Type 0) : Type 0 where
  pub first : (r : R) (p : Text) → Issued r p none
  pub all : (r : R) (p : Text) → rest r p none ≡ below p (keys r)
  pub answers :
      (r : R) (p : Text) (t : Option Text)
      → Issued r p t
      → store.list_objects_v2 p none t r ≡ (ok (page r p t), r)
  pub last :
      (r : R) (p : Text) (t : Option Text)
      → Issued r p t
      → or_false (page r p t).is_truncated ≡ false
      → rest r p t ≡ present (page r p t).contents
  pub more :
      (r : R) (p : Text) (t : Option Text)
      → Issued r p t
      → or_false (page r p t).is_truncated ≡ true
      → Issued r p (page r p t).next_continuation_token
        × (rest r p t
            ≡ present (page r p t).contents ++ rest r p (page r p t).next_continuation_token)
        × (1 ≤ length (present (page r p t).contents))

names-eq-visible : (p : Text) (keys : List (Option Text)) → names p keys ≡ visible p (present keys)
unfolding names visible
names-eq-visible p [] = refl
names-eq-visible p (none ∷ keys) = names-eq-visible p keys
names-eq-visible p (some key ∷ keys) = rw (names-eq-visible p keys) refl

onto-append : (o : Option Text) (xs ys : List Text) → onto o (xs ++ ys) ≡ onto o xs ++ ys
onto-append none xs ys = refl
onto-append (some x) xs ys = refl

visible-append :
    (p : Text) (xs ys : List Text) → visible p (xs ++ ys) ≡ visible p xs ++ visible p ys
unfolding visible
visible-append p [] ys = refl
visible-append p (key ∷ xs) ys = elim (Bool-cases (ends_with (text ".container") key)) [
  | inl hidden ↦ rw (hidden, visible-append p xs ys) refl
  | inr plain ↦
      rw (plain, visible-append p xs ys)
        (onto-append (strip_prefix p key) (visible p xs) (visible p ys))
]

begins-none : (p key : Text) → strip_prefix p key ≡ none → begins p key ≡ false
begins-none p key h = rw (h, begins) refl

begins-some : (p key name : Text) → strip_prefix p key ≡ some name → begins p key ≡ true
begins-some p key name h = rw (h, begins) refl

visible-below : (p : Text) (keys : List Text) → visible p (below p keys) ≡ visible p keys
unfolding visible
visible-below p [] = refl
visible-below p (key ∷ keys) = elim (Option-cases (strip_prefix p key)) [
  | inl outside ↦
      rw (begins-none p key outside, outside)
        (visible-below p keys ∙ skipped (ends_with (text ".container") key) (visible p keys))
  | inr (name, inside) ↦ rw (begins-some p key name inside, inside, visible-below p keys) refl
]
  where
    skipped : (b : Bool) (xs : List Text) → xs ≡ (if b then xs else xs)
    skipped true xs = refl
    skipped false xs = refl

length-below : (p : Text) (keys : List Text) → length (below p keys) ≤ length keys
length-below p [] = omega arith
length-below p (key ∷ keys) = ground (arith, length-below p keys)

module _ {R : Type 0} (store : ObjectStore R) (keys : R → List Text)
    (page : R → Text → Option Text → Page) (rest : R → Text → Option Text → List Text)
    (Issued : R → Text → Option Text → Type 0) (paged : IsPaged store keys page rest Issued) where
  turn :
      (rounds : ℕ) (r : R) (p : Text) (t : Option Text) (objects : List Text)
      → Issued r p t
      → length (rest r p t) < suc rounds
      → let o = page r p t in
        ((objects' : List Text)
          → Issued r p o.next_continuation_token
          → length (rest r p o.next_continuation_token) < rounds
          → list_from store rounds p o.next_continuation_token objects' r
            ≡ (ok (objects' ++ visible p (rest r p o.next_continuation_token)), r))
        → (if or_false o.is_truncated
              then list_from store rounds p o.next_continuation_token
                  (objects ++ names p o.contents)
              else pure (objects ++ names p o.contents))
            r
          ≡ (ok (objects ++ visible p (rest r p t)), r)
  unfolding ◌>>=◌
  turn rounds r p t objects issued enough ih =
      let o = page r p t in
      elim (Bool-cases (or_false o.is_truncated)) [
        | inr done ↦
            rw (done, paged.last r p t issued done)
              (ap (λ x. (ok (objects ++ x), r)) (names-eq-visible p o.contents))
        | inl goes_on ↦
            let (issued', split, some_key) = paged.more r p t issued goes_on in
            rw
              (
                goes_on,
                split,
                visible-append p (present o.contents) (rest r p o.next_continuation_token),
              )
              (ih (objects ++ names p o.contents) issued' (
                  omega (
                    arith,
                    enough,
                    some_key,
                    ap length split,
                    length-append (present o.contents) (rest r p o.next_continuation_token),
                  ))
                ∙ rw (names-eq-visible p o.contents, append_assoc) refl)
      ]

  list_from_lem :
      (rounds : ℕ) (r : R) (p : Text) (t : Option Text) (objects : List Text)
      → Issued r p t
      → length (rest r p t) < rounds
      → list_from store rounds p t objects r ≡ (ok (objects ++ visible p (rest r p t)), r)
  unfolding list_from
  list_from_lem zero r p t objects issued enough = absurd (omega (arith, enough))
  list_from_lem (suc rounds) r p t objects issued enough =
      let o = page r p t in
      bind-answer (store.list_objects_v2 p none t) _ r r o (paged.answers r p t issued)
      ∙ turn rounds r p t objects issued enough (λ objects' issued' enough'.
        list_from_lem rounds r p o.next_continuation_token objects' issued' enough')

  -- Where every request for a page succeeds and S3 hands out the keys page after page, with a key at least on
  -- each but the last, more rounds than the bucket has keys are enough: the listing ends and gives the names
  -- of all objects of the container, in order and once for each key, without those that end in ".container".
  pub list_objects_lem :
      (rounds : ℕ) (c : S3Container) (r : R)
      → length (keys r) < rounds
      → list_objects store rounds c r ≡ (ok (visible (prefix c) (keys r)), r)
  unfolding list_objects
  list_objects_lem rounds c r enough =
      let whole = paged.all r (prefix c) in
      list_from_lem rounds r (prefix c) none [] (paged.first r (prefix c))
        (omega (arith, enough, ap length whole, length-below (prefix c) (keys r)))
      ∙ ap (λ x. (ok x, r)) (ap (visible (prefix c)) whole ∙ visible-below (prefix c) (keys r))
