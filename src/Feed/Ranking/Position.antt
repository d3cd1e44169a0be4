-- ===== src/Feed/Ranking/Position.antt =====
-- Where `RankCandidates` of backend/feed-service/internal/feed/service.go puts the boosted candidates.
use capibarco.Base.{
  ℕ, zero, suc, Bool, ◌++◌, ◌+◌, ◌*◌, ◌≤◌, ◌<◌, ◌≡◌, refl, ◌∙◌, false, List, [], ◌∷◌, arith, length,
  take, drop, keep, is_empty, length-drop, length-take, get_elem?, get_elem?-append,
}
use native.Mathlib.Nat.{zero-mul, zero-add, suc-add}
use capibarco.Feed.Types.{Candidate}
use capibarco.Feed.Ranking.{
  is_boosted, sort_candidates, interleave, organic_after_boost, rank_candidates,
}
use capibarco.Feed.Ranking.Count.{organic_after_boost_pos}
use capibarco.Feed.Ranking.Groups.{is_organic}

nonempty_drop : (xs : List Candidate) → 0 < length xs → is_empty xs ≡ false
nonempty_drop [] h = absurd (omega arith)
nonempty_drop (x ∷ xs) h = refl

interleave_position :
    (i f k : ℕ) (boosted organic : List Candidate)
    → 0 < k
    → length boosted + length organic ≤ f
    → i < length boosted
    → i * k < length organic
    → get_elem? (interleave f k boosted organic) (i * (k + 1)) ≡ get_elem? boosted i
unfolding interleave
interleave_position i f k [] organic pos le lt room = absurd (omega arith)
interleave_position i zero k (x ∷ xs) organic pos le lt room = absurd (omega arith)
interleave_position zero (suc f) k (x ∷ xs) organic pos le lt room = rw zero-mul refl
interleave_position (suc i) (suc f) k (x ∷ xs) organic pos le lt room =
    let left : i * k < length (drop k organic) = grind (arith, length-drop k organic) in
    let more = nonempty_drop (drop k organic) (omega arith) in
    let next =
      interleave_position i f k xs (drop k organic) pos (omega (arith, length-drop k organic))
        (omega arith) left in
    let at : suc i * (k + 1) ≡ suc (length (take k organic) + i * (k + 1)) =
      omega (arith, length-take k organic (grind arith)) in
    rw (more, at) (get_elem?-append (take k organic) _ (i * (k + 1)) ∙ next)

get_elem?-take :
    (k j : ℕ) (xs ys : List Candidate)
    → j < k
    → j < length xs
    → get_elem? (take k xs ++ ys) j ≡ get_elem? xs j
get_elem?-take zero j xs ys h r = absurd (omega arith)
get_elem?-take (suc k) j [] ys h r = absurd (omega arith)
get_elem?-take (suc k) zero (x ∷ xs) ys h r = refl
get_elem?-take (suc k) (suc j) (x ∷ xs) ys h r =
    get_elem?-take k j xs ys (omega arith) (omega arith)

get_elem?-drop : (k i : ℕ) (xs : List Candidate) → get_elem? (drop k xs) i ≡ get_elem? xs (k + i)
get_elem?-drop zero i xs = rw zero-add
get_elem?-drop (suc k) i [] = refl
get_elem?-drop (suc k) i (x ∷ xs) = rw suc-add (get_elem?-drop k i xs)

interleave_organic :
    (i j f k : ℕ) (boosted organic : List Candidate)
    → j < k
    → length boosted + length organic ≤ f
    → i < length boosted
    → i * k + j < length organic
    → get_elem? (interleave f k boosted organic) (i * (k + 1) + suc j)
      ≡ get_elem? organic (i * k + j)
unfolding interleave
interleave_organic i j f k [] organic pos le lt room = absurd (omega arith)
interleave_organic i j zero k (x ∷ xs) organic pos le lt room = absurd (omega arith)
interleave_organic zero j (suc f) k (x ∷ xs) organic pos le lt room =
    let here : 0 * (k + 1) + suc j ≡ suc j = omega arith in
    let there : 0 * k + j ≡ j = omega arith in
    rw (here, there) (get_elem?-take k j organic _ pos (omega arith))
interleave_organic (suc i) j (suc f) k (x ∷ xs) organic pos le lt room =
    let left : i * k + j < length (drop k organic) = grind (arith, length-drop k organic) in
    let more = nonempty_drop (drop k organic) (omega arith) in
    let next =
      interleave_organic i j f k xs (drop k organic) pos (omega (arith, length-drop k organic))
        (omega arith) left in
    let at : suc i * (k + 1) + suc j ≡ suc (length (take k organic) + (i * (k + 1) + suc j)) =
      omega (arith, length-take k organic (grind arith)) in
    let from : suc i * k + j ≡ k + (i * k + j) = grind arith in
    rw (more, at, from)
      (get_elem?-append (take k organic) _ (i * (k + 1) + suc j)
        ∙ next
        ∙ get_elem?-drop k (i * k + j) organic)

-- As long as the organic candidates last, the ranking is made of groups of one boosted candidate and
-- `k` organic ones behind it: the boosted candidate of rank `i` stands at position `i * (k + 1)`, and
-- for every `j` below `k` the organic one of rank `i * k + j` stands `j + 1` places behind it.
pub rank_candidates-position :
    (higher : Candidate → Candidate → Bool) (candidates : List Candidate) (policy i j : ℕ)
    → i < length (sort_candidates higher (keep is_boosted candidates))
    → j < organic_after_boost policy
    → i * organic_after_boost policy + j
      < length (sort_candidates higher (keep is_organic candidates))
    → (get_elem? (rank_candidates higher candidates policy) (i * (organic_after_boost policy + 1))
        ≡ get_elem? (sort_candidates higher (keep is_boosted candidates)) i)
      × (get_elem?
            (rank_candidates higher candidates policy)
            (i * (organic_after_boost policy + 1) + suc j)
          ≡ get_elem?
              (sort_candidates higher (keep is_organic candidates))
              (i * organic_after_boost policy + j))
unfolding rank_candidates
rank_candidates-position higher cs policy i j lt near room = (
  interleave_position i _ (organic_after_boost policy) _ _ (organic_after_boost_pos policy)
      (omega arith) lt (omega arith),
  interleave_organic i j _ (organic_after_boost policy) _ _ near (omega arith) lt room,
)
