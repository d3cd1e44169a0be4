-- ===== src/Animal/Samples.antt =====
-- A profile for the tests of the model of backend/animal-service.
use capibarco.Base.{ℕ, true, false, List, [], some, none}
use capibarco.Base.Int.{pos}
use capibarco.Base.Text.{Text, lit}
use capibarco.Animal.Domain.{
  Species, Sex, Size, Status, OwnerType, Visibility, Address, Photo, Profile, Go,
}

-- Text in lower case already, and an absolute address.
abbrev pub go : Go
go = record {
  to_lower = λ s. s;
  to_upper = λ s. s;
  parse_request_uri = λ s. some (lit "https", lit "host");
}

abbrev pub photo : Text → Photo
photo id = record {
  id = id;
  url = lit "u";
  blurhash = [];
  width = pos 1;
  height = pos 1;
  content_type = lit "image/png";
  sort_order = pos 0;
  created_at = 3;
}

abbrev pub place : Address
place = record {
  country_code = lit "NO";
  region = [];
  city = lit "Oslo";
  district = [];
  latitude = none;
  longitude = none;
  geohash = [];
}

abbrev pub profile : Status → Visibility → ℕ → Text → List Photo → Profile
profile status visibility at by photos = record {
  id = lit "a1";
  owner_profile_id = lit "ann";
  owner_type = OwnerType.user;
  name = lit "Rex";
  species = Species.dog;
  breed = [];
  sex = Sex.male;
  size = Size.small;
  age_months = some (pos 4);
  description = lit "good";
  traits = [];
  medical_notes = [];
  vaccinated = true;
  sterilized = false;
  status = status;
  location = place;
  photos = photos;
  visibility = visibility;
  boosted = false;
  boost_expires_at = none;
  audit = record { created_at = at; updated_at = at; created_by = by; updated_by = by };
  donation_count = 0;
  interest_count = 0;
}
