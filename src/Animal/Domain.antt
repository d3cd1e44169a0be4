-- ===== src/Animal/Domain.antt =====
-- The data of backend/animal-service/internal/domain/animal/model.go, its validation and its
-- normalisation. An enumeration holds its declared values, a time is the number of nanoseconds since
-- Go's zero time, a coordinate is any number, and an error is its sentinel.
use capibarco.Base.{
  ℕ, Bool, true, false, not, ◌&&◌, ◌||◌, Option, none, some, List, [], ◌∷◌, if◌then◌else◌, exists,
  is_empty,
}
use capibarco.Base.Int.{ℤ, pos, ltb_ℤ}
use capibarco.Base.Text.{Text, text_eq, trim_space, is_blank}
use capibarco.Base.Result.{Result, ok, ◌>>◌, fail_if}

pub data AnimalError : Type 0 where
  invalid_argument invalid_state not_found conflict forbidden : AnimalError

pub data Species : Type 0 where
  unspecified dog cat bird rabbit rodent reptile other : Species

pub data Sex : Type 0 where
  unspecified male female unknown : Sex

pub data Size : Type 0 where
  unspecified small medium large extra_large : Size

pub data Status : Type 0 where
  unspecified draft available reserved adopted archived : Status

pub data OwnerType : Type 0 where
  unspecified user shelter kennel : OwnerType

pub data Visibility : Type 0 where
  unspecified private public unlisted suspended : Visibility

pub record Address : Type 0 where
  pub country_code : Text
  pub region : Text
  pub city : Text
  pub district : Text
  pub latitude : Option ℕ
  pub longitude : Option ℕ
  pub geohash : Text

pub record Photo : Type 0 where
  pub id : Text
  pub url : Text
  pub blurhash : Text
  pub width : ℤ
  pub height : ℤ
  pub content_type : Text
  pub sort_order : ℤ
  pub created_at : ℕ

pub record AuditMetadata : Type 0 where
  pub created_at : ℕ
  pub updated_at : ℕ
  pub created_by : Text
  pub updated_by : Text

-- A count is the bit pattern of its int64.
pub record Profile : Type 0 where
  pub id : Text
  pub owner_profile_id : Text
  pub owner_type : OwnerType
  pub name : Text
  pub species : Species
  pub breed : Text
  pub sex : Sex
  pub size : Size
  pub age_months : Option ℤ
  pub description : Text
  pub traits : List Text
  pub medical_notes : List Text
  pub vaccinated : Bool
  pub sterilized : Bool
  pub status : Status
  pub location : Address
  pub photos : List Photo
  pub visibility : Visibility
  pub boosted : Bool
  pub boost_expires_at : Option ℕ
  pub audit : AuditMetadata
  pub donation_count : ℕ
  pub interest_count : ℕ

-- What the code takes from Go's packages: `strings.ToLower`, `strings.ToUpper`, and the scheme and
-- the host that `url.ParseRequestURI` finds, `none` where it fails.
pub record Go : Type 0 where
  pub to_lower : Text → Text
  pub to_upper : Text → Text
  pub parse_request_uri : Text → Option (Text × Text)

abbrev pub is_no_owner_type : OwnerType → Bool
is_no_owner_type unspecified = true
is_no_owner_type _ = false

abbrev pub is_no_species : Species → Bool
is_no_species unspecified = true
is_no_species _ = false

abbrev pub is_no_sex : Sex → Bool
is_no_sex unspecified = true
is_no_sex _ = false

abbrev pub is_no_size : Size → Bool
is_no_size unspecified = true
is_no_size _ = false

abbrev pub is_negative : Option ℤ → Bool
is_negative none = false
is_negative (some age) = ltb_ℤ age (pos 0)

unfoldable pub validate_base : Profile → Result AnimalError (Unit {0})
validate_base p = do
  fail_if (is_empty p.owner_profile_id) invalid_argument
  fail_if (is_no_owner_type p.owner_type) invalid_argument
  fail_if (is_empty p.name) invalid_argument
  fail_if (is_no_species p.species) invalid_argument
  fail_if (is_no_sex p.sex) invalid_argument
  fail_if (is_no_size p.size) invalid_argument
  fail_if (is_negative p.age_months) invalid_argument
  ok tt

abbrev pub is_absolute : Option (Text × Text) → Bool
is_absolute none = false
is_absolute (some (scheme, host)) = not (is_empty scheme || is_empty host)

unfoldable pub validate_photo : Go → Photo → Result AnimalError (Unit {0})
validate_photo go photo = do
  fail_if (is_blank photo.id) invalid_argument
  fail_if (not (is_absolute (go.parse_request_uri (trim_space photo.url)))) invalid_argument
  fail_if (not (ltb_ℤ (pos 0) photo.width && ltb_ℤ (pos 0) photo.height)) invalid_argument
  fail_if (is_blank photo.content_type) invalid_argument
  ok tt

-- The loop of `normalizeStrings` behind the keys that it has seen.
unfoldable pub normalize_from : Go → List Text → List Text → List Text
normalize_from go seen [] = []
normalize_from go seen (value ∷ values) =
    let key = go.to_lower (trim_space value) in
    let skipped = is_empty (trim_space value) || exists (text_eq key) seen in
    let rest = normalize_from go (if skipped then seen else key ∷ seen) values in
    if skipped then rest else trim_space value ∷ rest

unfoldable pub normalize_strings : Go → List Text → List Text
unfolding normalize_from
normalize_strings go values = normalize_from go [] values

unfoldable pub normalize_address : Go → Address → Address
normalize_address go a = record a {
  country_code = go.to_upper (trim_space a.country_code);
  region = trim_space a.region;
  city = trim_space a.city;
  district = trim_space a.district;
  geohash = trim_space a.geohash;
}
