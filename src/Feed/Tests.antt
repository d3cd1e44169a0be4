-- ===== src/Feed/Tests.antt =====
-- The theorems on the feed, at a small feed.
use capibarco.Base.{
  ℕ, suc, ltb, ◌+◌, ◌*◌, ◌≡◌, refl, Bool, true, false, not, List, [], ◌∷◌, Option, none, some,
  length, get_elem?, keep, arith,
}
use capibarco.Base.Int.{ℤ, pos}
use capibarco.Base.Text.{Text, lit, text_eq}
use capibarco.Base.Result.{ok}
use capibarco.Feed.Types.{AnimalProfile, Candidate, Scores, status_available, visibility_public}
use capibarco.Feed.Serving.{
  Codec, FeedRequest, actor_id, select_feed, filter_candidates, passes, visible_on_surface,
  page_bounds, page_size_of, effective_animal_filter, excluded_animal_ids, paginate,
}
use capibarco.Feed.Visibility.{may_see, select_feed-may_see}
use capibarco.Feed.Paging.{walk, walk_lem}
use capibarco.Feed.Ranking.{
  rank_candidates, sort_candidates, insert, interleave, organic_after_boost, is_boosted,
}
use capibarco.Feed.Ranking.Groups.{is_organic, rank_candidates-groups}
use capibarco.Feed.Ranking.Count.{count, count-rank_candidates}
use capibarco.Feed.Ranking.Position.{rank_candidates-position}

abbrev animal_of : Text → Text → Bool → AnimalProfile
animal_of id owner boosted = record {
  animal_id = id;
  owner_profile_id = owner;
  species = 1;
  status = status_available;
  city = lit "Oslo";
  vaccinated = true;
  sterilized = false;
  visibility = visibility_public;
  boosted = boosted;
  boost_expires_at = none;
}

abbrev candidate_of : Text → Text → Bool → ℕ → Candidate
candidate_of id owner boosted score = record {
  animal = some (animal_of id owner boosted);
  owner_display_name = owner;
  owner_average_rating = 4;
  ranking_reasons = [];
  score_components = (lit "fit", score) ∷ [];
  distance_km = 2;
  owner_hidden = false;
  owner_blocked = false;
}

abbrev sum_scores : Scores → ℕ
sum_scores [] = 0
sum_scores ((_, score) ∷ rest) = score + sum_scores rest

-- A comparison of totals that are natural numbers.
abbrev higher : Candidate → Candidate → Bool
higher c d = ltb (sum_scores d.score_components) (sum_scores c.score_components)

abbrev rex : Candidate
rex = candidate_of (lit "rex") (lit "ann") false 7

abbrev tom : Candidate
tom = candidate_of (lit "tom") (lit "bob") true 3

abbrev kit : Candidate
kit = candidate_of (lit "kit") (lit "eve") false 9

abbrev feed : List Candidate
feed = rex ∷ tom ∷ kit ∷ []

-- A codec that writes a number as one code point behind a letter.
abbrev decode_one : Text → Option ℤ
decode_one (c ∷ n ∷ []) = some (pos n)
decode_one _ = none

abbrev codec : Codec
codec = record { encode = λ n. 112 ∷ n ∷ []; decode = decode_one }

abbrev request : FeedRequest
request = record {
  page_size = pos 2;
  page_token = [];
  principal = some (record { actor_id = lit "ann"; actor_type = 1; roles = []; permissions = [] });
  surface = 1;
  filter = none;
}

select_feed-may_see_example :
    count
      (λ c. not (may_see (actor_id request.principal) 1 (excluded_animal_ids request.filter) [] c))
      (tom ∷ kit ∷ [])
    ≡ 0
unfolding select_feed filter_candidates passes visible_on_surface page_bounds page_size_of
    effective_animal_filter paginate rank_candidates sort_candidates insert interleave
    organic_after_boost is_boosted text_eq actor_id excluded_animal_ids
select_feed-may_see_example =
    select_feed-may_see codec higher 3 request (ok false) (λ filter. feed) []
      {window = tom ∷ kit ∷ []} {token = []} refl

walk_lem_example : walk (suc (length feed)) codec feed (pos 2) [] ≡ some feed
walk_lem_example = walk_lem codec feed (pos 2) (λ n. refl) (λ n. refl)

count-rank_candidates_example :
    count (λ c. not (is_boosted c)) (rank_candidates higher feed 1)
    ≡ count (λ c. not (is_boosted c)) feed
count-rank_candidates_example = count-rank_candidates higher (λ c. not (is_boosted c)) feed 1

rank_candidates-groups_example :
    (keep is_boosted (rank_candidates higher feed 1)
      ≡ sort_candidates higher (keep is_boosted feed))
    × (keep is_organic (rank_candidates higher feed 1)
        ≡ sort_candidates higher (keep is_organic feed))
rank_candidates-groups_example = rank_candidates-groups higher feed 1

abbrev long_feed : List Candidate
long_feed =
    rex
    ∷ tom
    ∷ kit
    ∷ candidate_of (lit "sam") (lit "dan") true 5
    ∷ candidate_of (lit "ole") (lit "uma") false 8
    ∷ candidate_of (lit "pia") (lit "gus") false 2
    ∷ []

rank_candidates-position_example :
    (get_elem? (rank_candidates higher long_feed 2) (1 * (organic_after_boost 2 + 1))
      ≡ get_elem? (sort_candidates higher (keep is_boosted long_feed)) 1)
    × (get_elem? (rank_candidates higher long_feed 2) (1 * (organic_after_boost 2 + 1) + suc 1)
        ≡ get_elem?
            (sort_candidates higher (keep is_organic long_feed))
            (1 * organic_after_boost 2 + 1))
unfolding sort_candidates insert is_boosted organic_after_boost
rank_candidates-position_example =
    rank_candidates-position higher long_feed 2 1 1 (omega arith) (omega arith) (omega arith)
