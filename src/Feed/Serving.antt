-- ===== src/Feed/Serving.antt =====
-- The choice of the cards in `GetFeed` of backend/feed-service/internal/feed/service.go: filters,
-- ranking and page. What the stores return is an argument; saving the cards and telemetry
-- are left out.
use capibarco.Base.{
  ℕ, ◌+◌, Bool, true, false, not, ◌&&◌, ◌||◌, Option, none, some, List, [], ltb, leb, ◌==◌,
  if◌then◌else◌, length, take, drop, keep, exists, is_empty,
}
use capibarco.Base.Int.{ℤ, pos, negsuc}
use capibarco.Base.Text.{Text, lit, text_eq}
use capibarco.Base.Result.{Result, ok, err, ◌>>=◌}
use capibarco.Feed.Types.{
  Candidate, AnimalFilter, FeedFilter, status_available, visibility_public, visibility_unlisted,
  surface_owner_profile,
}
use capibarco.Feed.Ranking.{rank_candidates}

-- The gRPC codes that `GetFeed` answers with.
pub data FeedError : Type 0 where
  invalid_argument internal permission_denied : FeedError

-- The fields of petmatch.common.v1.Principal that the service reads.
pub record Principal : Type 0 where
  pub actor_id : Text
  pub actor_type : ℕ
  pub roles : List Text
  pub permissions : List Text

abbrev pub actor_type_admin : ℕ
actor_type_admin = 4

unfoldable pub actor_id : Option Principal → Text
actor_id none = []
actor_id (some principal) = principal.actor_id

unfoldable pub can_explain_ranking : Option Principal → Bool
can_explain_ranking none = false
can_explain_ranking (some principal) =
    if principal.actor_type == actor_type_admin
    then true
    else if exists (text_eq (lit "admin")) principal.roles
    then true
    else exists (text_eq (lit "feed.ranking.explain")) principal.permissions

unfoldable pub strip_paid_advanced_filters : AnimalFilter → AnimalFilter
strip_paid_advanced_filters filter = record filter {
  near = none;
  radius_km = none;
  traits = [];
  vaccinated = none;
  sterilized = none;
  boosted_only = none;
}

-- `allowed` is what `CanUsePaidAdvancedFilters` answers.
unfoldable pub effective_animal_filter :
    Option FeedFilter → Result FeedError Bool → Result FeedError (Bool × Option AnimalFilter)
effective_animal_filter none allowed = ok (false, none)
effective_animal_filter (some feed_filter) allowed = elim feed_filter.animal_filter [
  | none ↦ ok (false, none)
  | some filter ↦
      if not feed_filter.use_paid_advanced_filters
      then ok (false, some (strip_paid_advanced_filters filter))
      else elim allowed [
        | err e ↦ err internal
        | ok b ↦
            if b
            then ok (true, some filter)
            else ok (false, some (strip_paid_advanced_filters filter))
      ]
]

unfoldable pub visible_on_surface : ℕ → ℕ → Bool
visible_on_surface visibility surface =
    if visibility == visibility_public
    then true
    else surface == surface_owner_profile && visibility == visibility_unlisted

unfoldable pub excluded_animal_ids : Option FeedFilter → List Text
excluded_animal_ids none = []
excluded_animal_ids (some filter) = filter.excluded_animal_ids

abbrev pub is_member : Text → List Text → Bool
is_member id = exists (text_eq id)

-- The tests of the loop of `filterCandidates`, in its order.
unfoldable pub passes : Text → ℕ → List Text → List Text → Candidate → Bool
passes actor surface excluded seen candidate = elim candidate.animal [
  | none ↦ false
  | some animal ↦
      if is_member animal.animal_id excluded
      then false
      else if is_member animal.animal_id seen
      then false
      else if candidate.owner_hidden || candidate.owner_blocked
      then false
      else if not (is_empty actor) && text_eq animal.owner_profile_id actor
      then false
      else if not (animal.status == status_available)
      then false
      else visible_on_surface animal.visibility surface
]

unfoldable pub filter_candidates :
    List Candidate → Option Principal → ℕ → List Text → List Text → List Candidate
filter_candidates candidates principal surface excluded seen =
    keep (passes (actor_id principal) surface excluded seen) candidates

-- `base64.RawURLEncoding` behind `strconv.Itoa`, and `strconv.Atoi` behind its inverse: `none` where
-- one of the two fails.
pub record Codec : Type 0 where
  pub encode : ℕ → Text
  pub decode : Text → Option ℤ

abbrev pub default_page_size : ℕ
default_page_size = 20

abbrev pub max_page_size : ℕ
max_page_size = 50

abbrev bounded : ℤ → ℕ
bounded (negsuc n) = default_page_size
bounded (pos n) =
    if n == 0 then default_page_size else if ltb max_page_size n then max_page_size else n

-- The size of a page, from the size that was asked for.
unfoldable pub page_size_of : ℤ → ℕ
page_size_of size = bounded size

abbrev parsed_offset : Option ℤ → Result FeedError ℕ
parsed_offset none = err invalid_argument
parsed_offset (some (negsuc n)) = err invalid_argument
parsed_offset (some (pos n)) = ok n

unfoldable pub page_bounds : Codec → ℤ → Text → Result FeedError (ℕ × ℕ)
page_bounds codec size token =
    if is_empty token
    then ok (page_size_of size, 0)
    else parsed_offset (codec.decode token) >>= λ offset. ok (page_size_of size, offset)

unfoldable pub paginate : Codec → List Candidate → ℕ → ℕ → List Candidate × Text
paginate codec candidates offset page_size =
    let end = offset + page_size in
    if leb (length candidates) offset
    then ([], [])
    else if ltb end (length candidates)
    then (take page_size (drop offset candidates), codec.encode end)
    else (drop offset candidates, [])

-- The request's fields, and what the two stores answered.
pub record FeedRequest : Type 0 where
  pub page_size : ℤ
  pub page_token : Text
  pub principal : Option Principal
  pub surface : ℕ
  pub filter : Option FeedFilter

-- The cards' candidates and the next token of `GetFeed`, for what ListCandidates and SeenAnimalIDs return.
unfoldable pub select_feed :
    Codec
    → (Candidate → Candidate → Bool)
    → ℕ
    → FeedRequest
    → Result FeedError Bool
    → (Option AnimalFilter → List Candidate)
    → List Text
    → Result FeedError (List Candidate × Text)
select_feed codec higher policy req allowed list_candidates seen =
    page_bounds codec req.page_size req.page_token >>= λ bounds.
    effective_animal_filter req.filter allowed >>= λ effective.
    let candidates =
      filter_candidates (list_candidates effective.1) req.principal req.surface
        (excluded_animal_ids req.filter) seen in
    ok (paginate codec (rank_candidates higher candidates policy) bounds.1 bounds.0)
