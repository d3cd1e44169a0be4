-- ===== src/Feed/Ranking/Order.antt =====
-- The order of `sortCandidates` of backend/feed-service/internal/feed/service.go.
use capibarco.Base.{
  ℕ, zero, suc, ◌≡◌, refl, Bool, true, not, List, [], ◌∷◌, ◌++◌, arith, take, drop, keep, ◌&&◌,
  false,
}
use capibarco.Feed.Types.{Candidate}
use capibarco.Feed.Ranking.{insert, sort_candidates}

-- Every element passes the test.
abbrev pub All : (Candidate → Bool) → List Candidate → Type 0
All p [] = Unit
All p (x ∷ xs) = (p x ≡ true) × All p xs

module _ (p : Candidate → Bool) where
  All-insert :
      (higher : Candidate → Candidate → Bool) (c : Candidate) (xs : List Candidate)
      → p c ≡ true
      → All p xs
      → All p (insert higher c xs)
  unfolding insert
  All-insert higher c [] h a = (h, tt)
  All-insert higher c (d ∷ ds) h a = ground (arith, All-insert higher c ds h a.1)

  pub All-sort_candidates :
      (higher : Candidate → Candidate → Bool) (xs : List Candidate)
      → All p xs
      → All p (sort_candidates higher xs)
  unfolding sort_candidates
  All-sort_candidates higher [] a = tt
  All-sort_candidates higher (x ∷ xs) a =
      All-insert higher x (sort_candidates higher xs) a.0 (All-sort_candidates higher xs a.1)

  pub All-keep : (xs : List Candidate) → All p (keep p xs)
  All-keep [] = tt
  All-keep (x ∷ xs) = ground (arith, All-keep xs)

  pub All-take : (n : ℕ) (xs : List Candidate) → All p xs → All p (take n xs)
  All-take zero xs a = tt
  All-take (suc n) [] a = tt
  All-take (suc n) (x ∷ xs) a = (a.0, All-take n xs a.1)

  pub All-drop : (n : ℕ) (xs : List Candidate) → All p xs → All p (drop n xs)
  All-drop zero xs a = a
  All-drop (suc n) [] a = tt
  All-drop (suc n) (x ∷ xs) a = All-drop n xs a.1

  pub keep-append : (xs ys : List Candidate) → keep p (xs ++ ys) ≡ keep p xs ++ keep p ys
  keep-append [] ys = refl
  keep-append (x ∷ xs) ys = ground (arith, keep-append xs ys)

  pub keep-All : (xs : List Candidate) → All p xs → keep p xs ≡ xs
  keep-All [] a = refl
  keep-All (x ∷ xs) a = ground (arith, keep-All xs a.1)

  pub keep-All-not : (xs : List Candidate) → All (λ c. not (p c)) xs → keep p xs ≡ []
  keep-All-not [] a = refl
  keep-All-not (x ∷ xs) a = ground (arith, keep-All-not xs a.1)

-- What `>` is on totals that are numbers, whatever the order in which the map is summed up.
pub record IsStrictWeak (higher : Candidate → Candidate → Bool) : Type 0 where
  pub asym : (c d : Candidate) → higher c d ≡ true → higher d c ≡ false
  pub trans_false :
      (c d e : Candidate) → higher c d ≡ false → higher d e ≡ false → higher c e ≡ false

-- Descending scores: nothing is followed by a higher candidate.
abbrev pub IsSorted : (Candidate → Candidate → Bool) → List Candidate → Type 0
IsSorted higher [] = Unit
IsSorted higher (x ∷ xs) = All (λ y. not (higher y x)) xs × IsSorted higher xs

-- The candidates that neither precede a candidate nor follow it.
abbrev pub tied : (Candidate → Candidate → Bool) → Candidate → Candidate → Bool
tied higher e c = not (higher c e) && not (higher e c)
