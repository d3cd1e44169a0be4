-- ===== src/Feed/Ranking/Count.antt =====
-- How often a candidate is in the ranking of backend/feed-service/internal/feed/service.go.
use capibarco.Base.{
  ℕ, zero, suc, ◌+◌, ◌≤◌, ◌<◌, ◌≡◌, refl, ◌∙◌, ap, sym, Bool, true, false, not, List, [], ◌∷◌, ◌++◌,
  arith, if◌then◌else◌, length, take, drop, keep, is_empty, Bool-cases, inl, inr, take-append-drop,
  length-drop,
}
use capibarco.Feed.Types.{Candidate}
use capibarco.Feed.Ranking.{
  is_boosted, insert, sort_candidates, interleave, organic_after_boost, rank_candidates,
}

-- How many elements pass a test.
abbrev pub count : (Candidate → Bool) → List Candidate → ℕ
count p [] = 0
count p (x ∷ xs) = let rest = count p xs in if p x then suc rest else rest

count-append :
    (p : Candidate → Bool) (xs ys : List Candidate) → count p (xs ++ ys) ≡ count p xs + count p ys
count-append p [] ys = omega arith
count-append p (x ∷ xs) ys = ground (arith, count-append p xs ys)

count-take-drop :
    (p : Candidate → Bool) (n : ℕ) (xs : List Candidate)
    → count p (take n xs) + count p (drop n xs) ≡ count p xs
count-take-drop p n xs =
    sym (count-append p (take n xs) (drop n xs)) ∙ ap (count p) (take-append-drop n xs)

count-insert :
    (higher : Candidate → Candidate → Bool) (p : Candidate → Bool) (c : Candidate)
    (cs : List Candidate)
    → count p (insert higher c cs) ≡ count p (c ∷ cs)
unfolding insert
count-insert higher p c [] = refl
count-insert higher p c (d ∷ cs) = ground (arith, count-insert higher p c cs)

pub count-sort_candidates :
    (higher : Candidate → Candidate → Bool) (p : Candidate → Bool) (cs : List Candidate)
    → count p (sort_candidates higher cs) ≡ count p cs
unfolding sort_candidates
count-sort_candidates higher p [] = refl
count-sort_candidates higher p (c ∷ cs) =
    count-insert higher p c (sort_candidates higher cs)
    ∙ ground (arith, count-sort_candidates higher p cs)

count-keep :
    (p q : Candidate → Bool) (cs : List Candidate)
    → count p (keep q cs) + count p (keep (λ c. not (q c)) cs) ≡ count p cs
count-keep p q [] = omega arith
count-keep p q (c ∷ cs) = ground (arith, count-keep p q cs)

pub empty_of_length : (xs : List Candidate) → length xs ≤ 0 → xs ≡ []
empty_of_length [] h = refl
empty_of_length (x ∷ xs) h = absurd (omega arith)

count-empty : (p : Candidate → Bool) (xs : List Candidate) → is_empty xs ≡ true → count p xs ≡ 0
count-empty p [] h = refl
count-empty p (x ∷ xs) h = cc

length-nonempty : (xs : List Candidate) → is_empty xs ≡ false → 0 < length xs
length-nonempty [] h = cc
length-nonempty (x ∷ xs) h = omega arith

pub interleave_empty : (f k : ℕ) → interleave f k [] [] ≡ []
unfolding interleave
interleave_empty zero k = refl
interleave_empty (suc f) k = refl

count_round :
    (p : Candidate → Bool) (k : ℕ) (boosted organic rest : List Candidate)
    → count p rest ≡ count p (drop 1 boosted) + count p (drop k organic)
    → count p (take 1 boosted ++ (take k organic ++ rest)) ≡ count p boosted + count p organic
count_round p k boosted organic rest h = omega (
  arith,
  count-append p (take 1 boosted) (take k organic ++ rest),
  count-append p (take k organic) rest,
  count-take-drop p 1 boosted,
  count-take-drop p k organic,
)

-- With fuel for every candidate, the loop passes all of them on.
pub count-interleave :
    (p : Candidate → Bool) (f k : ℕ) (boosted organic : List Candidate)
    → 0 < k
    → length boosted + length organic ≤ f
    → count p (interleave f k boosted organic) ≡ count p boosted + count p organic
unfolding interleave
count-interleave p zero k boosted organic pos le =
    rw (empty_of_length boosted (omega arith), empty_of_length organic (omega arith)) (omega arith)
count-interleave p (suc f) k [] [] pos le = omega arith
count-interleave p (suc f) k (b ∷ boosted) organic pos le =
    count_round p k (b ∷ boosted) organic _ (elim (Bool-cases (is_empty (drop k organic))) [
      | inl e ↦ rw e (omega (arith, count-empty p (drop k organic) e))
      | inr e ↦ rw e (
          count-interleave p f k boosted (drop k organic) pos
            (omega (arith, length-drop k organic)))
    ])
count-interleave p (suc f) k [] (o ∷ organic) pos le =
    count_round p k [] (o ∷ organic) _ (elim (Bool-cases (is_empty (drop k (o ∷ organic)))) [
      | inl e ↦ rw e (omega (arith, count-empty p (drop k (o ∷ organic)) e))
      | inr e ↦ rw e (
          count-interleave p f k [] (drop k (o ∷ organic)) pos
            (omega (arith, length-drop k (o ∷ organic))))
    ])

pub organic_after_boost_pos : (k : ℕ) → 0 < organic_after_boost k
unfolding organic_after_boost
organic_after_boost_pos k = ground arith

-- The ranked feed holds the given candidates, each as often: for every test, as many pass in the
-- ranking as pass among the candidates, whatever the policy.
pub count-rank_candidates :
    (higher : Candidate → Candidate → Bool) (p : Candidate → Bool) (candidates : List Candidate)
    (policy : ℕ)
    → count p (rank_candidates higher candidates policy) ≡ count p candidates
unfolding rank_candidates
count-rank_candidates higher p cs policy =
    count-interleave p _ _ _ _ (organic_after_boost_pos policy) (omega arith)
    ∙ omega (
      arith,
      count-sort_candidates higher p (keep is_boosted cs),
      count-sort_candidates higher p (keep (λ c. not (is_boosted c)) cs),
      count-keep p is_boosted cs,
    )
