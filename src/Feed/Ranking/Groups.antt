-- ===== src/Feed/Ranking/Groups.antt =====
-- The boosted and the organic candidates in the loop of `RankCandidates` of
-- backend/feed-service/internal/feed/service.go.
use capibarco.Base.{
  ℕ, zero, suc, ◌+◌, ◌≤◌, ◌<◌, ◌≡◌, refl, ◌∙◌, sym, Bool, true, not, List, [], ◌∷◌, ◌++◌, arith,
  length, take, drop, keep, is_empty, Bool-cases, inl, inr, take-append-drop, length-drop,
  if◌then◌else◌,
}
use capibarco.Feed.Types.{Candidate}
use capibarco.Feed.Ranking.{is_boosted, sort_candidates, interleave, rank_candidates}
use capibarco.Feed.Ranking.Count.{organic_after_boost_pos, empty_of_length}
use capibarco.Feed.Ranking.Order.{
  All, All-take, All-drop, All-keep, All-sort_candidates, keep-append, keep-All, keep-All-not,
}

empty_drop : (xs : List Candidate) → is_empty xs ≡ true → xs ≡ []
empty_drop [] h = refl
empty_drop (x ∷ xs) h = cc

-- Why the loop's body keeps two sequences in order, one that passes `p` and one that does not.
module _ (p : Candidate → Bool) (k : ℕ) (xs ys rest : List Candidate) where
  round_first :
      All p xs
      → All (λ c. not (p c)) ys
      → keep p rest ≡ drop 1 xs
      → keep p (take 1 xs ++ (take k ys ++ rest)) ≡ xs
  round_first a n h =
      rw
        (
          keep-append p (take 1 xs) (take k ys ++ rest),
          keep-append p (take k ys) rest,
          keep-All p (take 1 xs) (All-take p 1 xs a),
          keep-All-not p (take k ys) (All-take (λ c. not (p c)) k ys n),
          h,
        )
        (take-append-drop 1 xs)

  round_second :
      All (λ c. not (p c)) xs
      → All p ys
      → keep p rest ≡ drop k ys
      → keep p (take 1 xs ++ (take k ys ++ rest)) ≡ ys
  round_second n a h =
      rw
        (
          keep-append p (take 1 xs) (take k ys ++ rest),
          keep-append p (take k ys) rest,
          keep-All-not p (take 1 xs) (All-take (λ c. not (p c)) 1 xs n),
          keep-All p (take k ys) (All-take p k ys a),
          h,
        )
        (take-append-drop k ys)

module _ (p : Candidate → Bool) where
  rest_first :
      (k : ℕ) (xs ys tail : List Candidate)
      → All p xs
      → keep p tail ≡ drop 1 xs
      → keep p (if is_empty (drop k ys) then drop 1 xs else tail) ≡ drop 1 xs
  rest_first k xs ys tail a h = elim (Bool-cases (is_empty (drop k ys))) [
    | inl e ↦ rw e (keep-All p (drop 1 xs) (All-drop p 1 xs a))
    | inr e ↦ rw e h
  ]

  rest_second :
      (k : ℕ) (xs ys tail : List Candidate)
      → All (λ c. not (p c)) xs
      → keep p tail ≡ drop k ys
      → keep p (if is_empty (drop k ys) then drop 1 xs else tail) ≡ drop k ys
  rest_second k xs ys tail n h = elim (Bool-cases (is_empty (drop k ys))) [
    | inl e ↦
        rw e (keep-All-not p (drop 1 xs) (All-drop (λ c. not (p c)) 1 xs n) ∙ sym (empty_drop _ e))
    | inr e ↦ rw e h
  ]

  keep-interleave_first :
      (f k : ℕ) (xs ys : List Candidate)
      → 0 < k
      → length xs + length ys ≤ f
      → All p xs
      → All (λ c. not (p c)) ys
      → keep p (interleave f k xs ys) ≡ xs
  unfolding interleave
  keep-interleave_first zero k xs ys pos le a n = rw (empty_of_length xs (omega arith))
  keep-interleave_first (suc f) k [] [] pos le a n = refl
  keep-interleave_first (suc f) k (x ∷ xs) ys pos le a n = round_first p k (x ∷ xs) ys _ a n (
      rest_first k (x ∷ xs) ys _ a (
        keep-interleave_first f k xs (drop k ys) pos (omega (arith, length-drop k ys)) a.1
          (All-drop (λ c. not (p c)) k ys n)))
  keep-interleave_first (suc f) k [] (y ∷ ys) pos le a n = round_first p k [] (y ∷ ys) _ a n (
      rest_first k [] (y ∷ ys) _ a (
        keep-interleave_first f k [] (drop k (y ∷ ys)) pos (omega (arith, length-drop k (y ∷ ys))) a
          (All-drop (λ c. not (p c)) k (y ∷ ys) n)))

  keep-interleave_second :
      (f k : ℕ) (xs ys : List Candidate)
      → 0 < k
      → length xs + length ys ≤ f
      → All (λ c. not (p c)) xs
      → All p ys
      → keep p (interleave f k xs ys) ≡ ys
  unfolding interleave
  keep-interleave_second zero k xs ys pos le n a = rw (empty_of_length ys (omega arith))
  keep-interleave_second (suc f) k [] [] pos le n a = refl
  keep-interleave_second (suc f) k (x ∷ xs) ys pos le n a = round_second p k (x ∷ xs) ys _ n a (
      rest_second k (x ∷ xs) ys _ n (
        keep-interleave_second f k xs (drop k ys) pos (omega (arith, length-drop k ys)) n.1
          (All-drop p k ys a)))
  keep-interleave_second (suc f) k [] (y ∷ ys) pos le n a = round_second p k [] (y ∷ ys) _ n a (
      rest_second k [] (y ∷ ys) _ n (
        keep-interleave_second f k [] (drop k (y ∷ ys)) pos (omega (arith, length-drop k (y ∷ ys)))
          n (All-drop p k (y ∷ ys) a)))

abbrev pub is_organic : Candidate → Bool
is_organic c = not (is_boosted c)

not_organic : (xs : List Candidate) → All is_boosted xs → All (λ c. not (is_organic c)) xs
not_organic [] a = tt
not_organic (x ∷ xs) a = (ground (arith, a.0), not_organic xs a.1)

-- The boosted candidates of the ranking, read off in order, are the boosted candidates of the input
-- sorted by score, and so are the organic ones: the two groups are merged and neither is reordered.
pub rank_candidates-groups :
    (higher : Candidate → Candidate → Bool) (candidates : List Candidate) (policy : ℕ)
    → (keep is_boosted (rank_candidates higher candidates policy)
        ≡ sort_candidates higher (keep is_boosted candidates))
      × (keep is_organic (rank_candidates higher candidates policy)
          ≡ sort_candidates higher (keep is_organic candidates))
unfolding rank_candidates
rank_candidates-groups higher cs policy =
    let b = All-sort_candidates is_boosted higher _ (All-keep is_boosted cs) in
    let o = All-sort_candidates is_organic higher _ (All-keep is_organic cs) in
    (
      keep-interleave_first is_boosted _ _ _ _ (organic_after_boost_pos policy) (omega arith) b o,
      keep-interleave_second is_organic _ _ _ _ (organic_after_boost_pos policy) (omega arith)
          (not_organic _ b) o,
    )
