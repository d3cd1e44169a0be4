-- ===== src/Base/Table.antt =====
-- Tables and Go maps as lists of rows: search by a test, and replacement of the rows that pass it.
use capibarco.Base.Lists.{exists}
use capibarco.Base.Names.{
  ◌≡◌, refl, Bool, true, false, ◌||◌, Option, none, some, List, [], ◌∷◌, ◌++◌, arith, if◌then◌else◌,
}

module _ {ℓ} {A : Type ℓ} where
  abbrev pub find : (A → Bool) → List A → Option A
  find p [] = none
  find p (x ∷ xs) = if p x then some x else find p xs

  -- `UPDATE … SET … WHERE …`, or the loop that assigns to each entry that passes.
  abbrev pub update : (A → Bool) → (A → A) → List A → List A
  update p f [] = []
  update p f (x ∷ xs) = (if p x then f x else x) ∷ update p f xs

module _ {ℓ} {A : Type ℓ} where
  pub find-append :
      (p : A → Bool) (xs ys : List A)
      → find p (xs ++ ys) ≡ elim (find p xs) [ none ↦ find p ys | some x ↦ some x ]
  find-append p [] ys = refl
  find-append p (x ∷ xs) ys = ground (arith, find-append p xs ys)

  pub find-append_some :
      (p : A → Bool) (xs ys : List A) {x : A} → find p xs ≡ some x → find p (xs ++ ys) ≡ some x
  find-append_some p xs ys h = ground (arith, find-append p xs ys)

  pub find-append_new :
      (p : A → Bool) (xs ys : List A) → find p xs ≡ none → find p (xs ++ ys) ≡ find p ys
  find-append_new p xs ys h = ground (arith, find-append p xs ys)

  -- What a search returns passes the test.
  pub find_sound : (p : A → Bool) (xs : List A) {x : A} → find p xs ≡ some x → p x ≡ true
  find_sound p [] h = cc
  find_sound p (y ∷ xs) {x} h = ground (arith, find_sound p xs {x = x})

  -- An update that does not change who passes `p` commutes with the search.
  pub find-update :
      (p q : A → Bool) (f : A → A) (xs : List A)
      → ((x : A) → p (f x) ≡ p x)
      → find p (update q f xs)
        ≡ elim (find p xs) [ none ↦ none | some x ↦ some (if q x then f x else x) ]
  find-update p q f [] h = refl
  find-update p q f (x ∷ xs) h = ground (arith, h x, find-update p q f xs h)

  pub exists-find : (p : A → Bool) (xs : List A) {x : A} → find p xs ≡ some x → exists p xs ≡ true
  exists-find p [] h = cc
  exists-find p (y ∷ xs) {x} h = ground (arith, exists-find p xs {x = x})

  pub find-exists : (p : A → Bool) (xs : List A) → exists p xs ≡ false → find p xs ≡ none
  find-exists p [] h = refl
  find-exists p (y ∷ xs) h = ground (arith, find-exists p xs)

  -- Where no row passes one of two tests, no row passes the first, and none the second.
  pub exists-or :
      (p q : A → Bool) (xs : List A)
      → exists (λ x. p x || q x) xs ≡ false
      → (exists p xs ≡ false) × (exists q xs ≡ false)
  exists-or p q [] h = (refl, refl)
  exists-or p q (x ∷ xs) h = ground (arith, exists-or p q xs)

  -- The row found by one test fails a test that no row passes.
  pub find-fails :
      (p q : A → Bool) (xs : List A) {x : A}
      → find q xs ≡ some x
      → exists p xs ≡ false
      → p x ≡ false
  find-fails p q [] h n = cc
  find-fails p q (y ∷ xs) {x} h n = ground (arith, find-fails p q xs {x = x})

  -- Some row passes a test, and still does once a row is added.
  pub exists-append :
      (p : A → Bool) (xs ys : List A) → exists p xs ≡ true → exists p (xs ++ ys) ≡ true
  exists-append p [] ys h = cc
  exists-append p (x ∷ xs) ys h = ground (arith, exists-append p xs ys)

  -- An update that does not change who passes `p`.
  pub exists-update :
      (p q : A → Bool) (f : A → A) (xs : List A)
      → ((x : A) → p (f x) ≡ p x)
      → exists p (update q f xs) ≡ exists p xs
  exists-update p q f [] h = refl
  exists-update p q f (x ∷ xs) h = ground (arith, h x, exists-update p q f xs h)
