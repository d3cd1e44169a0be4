-- ===== src/Animal/Labels.antt =====
-- `normalizeStrings` of backend/animal-service/internal/domain/animal/model.go.
use capibarco.Base.{◌≡◌, refl, Bool, true, false, not, ◌&&◌, List, [], ◌∷◌, arith, exists, is_empty}
use capibarco.Base.Text.{Text, text_eq, text_eq_refl, text_eq_iff, trim_space, trim_space_idem}
use capibarco.Animal.Domain.{Go, normalize_from, normalize_strings}

not_seen :
    (k l : Text) (seen : List Text)
    → exists (text_eq k) seen ≡ false
    → exists (text_eq l) seen ≡ true
    → text_eq k l ≡ false
not_seen k l [] h e = absurd (ground arith)
not_seen k l (m ∷ seen) h e =
    ground
      (arith, not_seen k l seen, text_eq_iff k l, text_eq_iff l m, text_eq_iff k m, text_eq_refl l)

module _ (go : Go) where
  abbrev pub key : Text → Text
  key value = go.to_lower (trim_space value)

  -- No key occurs twice, nor among those of `seen`.
  abbrev pub are_distinct : List Text → List Text → Bool
  are_distinct seen [] = true
  are_distinct seen (value ∷ values) =
      let rest = are_distinct (key value ∷ seen) values in
      not (exists (text_eq (key value)) seen) && rest

  -- Every label has been trimmed, and is not empty.
  abbrev pub are_clean : List Text → Bool
  are_clean [] = true
  are_clean (value ∷ values) =
      let rest = are_clean values in
      text_eq (trim_space value) value && (not (is_empty value) && rest)

  -- A label with the key `k`.
  abbrev pub has_key : Text → List Text → Bool
  has_key k = exists (λ value. not (is_empty (trim_space value)) && text_eq k (key value))

  normalize_from-are_clean :
      (seen values : List Text) → are_clean (normalize_from go seen values) ≡ true
  unfolding normalize_from
  normalize_from-are_clean seen [] = refl
  normalize_from-are_clean seen (value ∷ values) = ground (
    arith,
    trim_space_idem value,
    text_eq_refl (trim_space value),
    normalize_from-are_clean seen values,
    normalize_from-are_clean (key value ∷ seen) values,
  )

  normalize_from-are_distinct :
      (seen values : List Text) → are_distinct seen (normalize_from go seen values) ≡ true
  unfolding normalize_from
  normalize_from-are_distinct seen [] = refl
  normalize_from-are_distinct seen (value ∷ values) = ground (
    arith,
    trim_space_idem value,
    normalize_from-are_distinct seen values,
    normalize_from-are_distinct (key value ∷ seen) values,
  )

  normalize_from-has_key :
      (k : Text) (seen values : List Text)
      → exists (text_eq k) seen ≡ false
      → has_key k (normalize_from go seen values) ≡ has_key k values
  unfolding normalize_from
  normalize_from-has_key k seen [] h = refl
  normalize_from-has_key k seen (value ∷ values) h = ground (
    arith,
    trim_space_idem value,
    not_seen k (key value) seen,
    normalize_from-has_key k seen values,
    normalize_from-has_key k (key value ∷ seen) values,
  )

-- The labels that `normalizeStrings` returns are trimmed and not empty, no two of them agree when
-- trimmed and in lower case, and the keys that occur are those of the given labels that
-- are not blank.
pub normalize_strings_lem :
    (go : Go) (values : List Text)
    → (are_clean go (normalize_strings go values) ≡ true)
      × (are_distinct go [] (normalize_strings go values) ≡ true)
      × ((k : Text) → has_key go k (normalize_strings go values) ≡ has_key go k values)
unfolding normalize_strings
normalize_strings_lem go values = (
  normalize_from-are_clean go [] values,
  normalize_from-are_distinct go [] values,
  λ k. normalize_from-has_key go k [] values refl,
)
