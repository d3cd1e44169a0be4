-- ===== src/Feed/Types.antt =====
-- The data of the feed service (backend/feed-service/internal/feed and the messages that it reads).
-- A protobuf enumeration is its number. Fields of messages that neither the service nor its memory
-- store reads are left out. A floating point number is the natural number of its bits,
-- with which nothing is computed here.
use capibarco.Base.{ℕ, Bool, Option, List}
use capibarco.Base.Text.{Text}

abbrev pub status_available : ℕ
status_available = 2

abbrev pub visibility_public : ℕ
visibility_public = 2

abbrev pub visibility_unlisted : ℕ
visibility_unlisted = 3

abbrev pub surface_owner_profile : ℕ
surface_owner_profile = 3

-- The fields of petmatch.animal.v1.AnimalProfile that the feed reads or writes.
pub record AnimalProfile : Type 0 where
  pub animal_id : Text
  pub owner_profile_id : Text
  pub species : ℕ
  pub status : ℕ
  pub city : Text
  pub vaccinated : Bool
  pub sterilized : Bool
  pub visibility : ℕ
  pub boosted : Bool
  pub boost_expires_at : Option ℕ

-- A map from names to scores, as its entries.
abbrev pub Scores : Type 0
Scores = List (Text × ℕ)

pub record Candidate : Type 0 where
  pub animal : Option AnimalProfile
  pub owner_display_name : Text
  pub owner_average_rating : ℕ
  pub ranking_reasons : List Text
  pub score_components : Scores
  pub distance_km : ℕ
  pub owner_hidden : Bool
  pub owner_blocked : Bool

-- petmatch.animal.v1.AnimalFilter; an absent optional field is `none`.
pub record AnimalFilter : Type 0 where
  pub species : List ℕ
  pub statuses : List ℕ
  pub city : Option Text
  pub near : Option (ℕ × ℕ)
  pub radius_km : Option ℕ
  pub boosted_only : Option Bool
  pub owner_profile_id : Option Text
  pub vaccinated : Option Bool
  pub sterilized : Option Bool
  pub traits : List Text

pub record FeedFilter : Type 0 where
  pub animal_filter : Option AnimalFilter
  pub use_paid_advanced_filters : Bool
  pub excluded_animal_ids : List Text
