-- ===== src/Feed/Ranking.antt =====
-- `RankCandidates` of backend/feed-service/internal/feed/service.go. An index that runs through a
-- slice is the rest of the list behind it.
pub mod Count
pub mod Order
pub mod Groups
pub mod Position
use capibarco.Base.{
  ℕ, zero, suc, ◌+◌, Bool, true, false, not, ◌&&◌, Option, none, some, List, [], ◌∷◌, ◌++◌, ltb,
  ◌==◌, if◌then◌else◌, length, take, drop, keep, is_empty,
}
use capibarco.Base.Text.{Text}
use capibarco.Feed.Types.{Candidate, AnimalProfile, Scores}

-- `candidate.Animal != nil && candidate.Animal.Boosted`
unfoldable pub is_boosted : Candidate → Bool
is_boosted c = elim c.animal [ none ↦ false | some animal ↦ animal.boosted ]

-- `higher c d` says whether `totalScore(c) > totalScore(d)`, in the arithmetic of float64, which is
-- a parameter. It is the same throughout one sort.
module _ (higher : Candidate → Candidate → Bool) where
  -- Puts a candidate in front of the first one whose score is not higher.
  unfoldable pub insert : Candidate → List Candidate → List Candidate
  insert c [] = c ∷ []
  insert c (d ∷ ds) = if higher d c then d ∷ insert c ds else c ∷ d ∷ ds

  -- `sort.SliceStable` by descending score: where `higher` is a strict weak order, the one
  -- arrangement that is sorted and stable.
  unfoldable pub sort_candidates : List Candidate → List Candidate
  unfolding insert
  sort_candidates [] = []
  sort_candidates (c ∷ cs) = insert c (sort_candidates cs)

-- The outer loop, on fuel: a boosted candidate, up to `k` organic ones, and all the boosted ones that
-- are left once the organic ones have run out.
unfoldable pub interleave : ℕ → ℕ → List Candidate → List Candidate → List Candidate
interleave zero k boosted organic = []
interleave (suc f) k boosted organic =
    let rest = interleave f k (drop 1 boosted) (drop k organic) in
    if is_empty boosted && is_empty organic
    then []
    else take 1 boosted
      ++ (take k organic ++ (if is_empty (drop k organic) then drop 1 boosted else rest))

abbrev pub default_organic_after_ad : ℕ
default_organic_after_ad = 3

-- `policy.OrganicAfterBoost`; 0 stands for zero and below
unfoldable pub organic_after_boost : ℕ → ℕ
organic_after_boost k = if k == 0 then default_organic_after_ad else k

unfoldable pub rank_candidates :
    (Candidate → Candidate → Bool) → List Candidate → ℕ → List Candidate
unfolding interleave organic_after_boost
rank_candidates higher candidates policy =
    let boosted = sort_candidates higher (keep is_boosted candidates) in
    let organic = sort_candidates higher (keep (λ c. not (is_boosted c)) candidates) in
    interleave (length boosted + length organic) (organic_after_boost policy) boosted organic
