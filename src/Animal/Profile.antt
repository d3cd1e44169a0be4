-- ===== src/Animal/Profile.antt =====
-- The operations of backend/animal-service/internal/domain/animal/model.go. A method on `*Profile`
-- returns the profile that it leaves; the test for a nil receiver is left out.
use capibarco.Base.{
  ℕ, ◌+◌, ◌%◌, ◌^◌, Bool, true, false, not, ◌||◌, Option, none, some, List, [], ◌∷◌, ◌++◌, ◌==◌,
  leb, if◌then◌else◌, exists, is_empty,
}
use capibarco.Base.Text.{Text, text_eq, trim_space, is_blank, lit}
use capibarco.Base.Result.{Result, ok, err, ◌>>=◌, ◌>>◌, fail_if}
use capibarco.Animal.Domain.{
  AnimalError, invalid_argument, invalid_state, not_found, conflict, Status, draft, available,
  archived, Visibility, private, public, Profile, Photo, Go, validate_base, validate_photo,
  normalize_strings, normalize_address,
}

abbrev pub is_draft : Status → Bool
is_draft draft = true
is_draft _ = false

abbrev pub is_archived : Status → Bool
is_archived archived = true
is_archived _ = false

abbrev pub is_no_status : Status → Bool
is_no_status Status.unspecified = true
is_no_status _ = false

abbrev pub is_no_visibility : Visibility → Bool
is_no_visibility Visibility.unspecified = true
is_no_visibility _ = false

abbrev pub is_private : Visibility → Bool
is_private private = true
is_private _ = false

unfoldable pub touch : Text → ℕ → Profile → Profile
touch actor_id now p = record p {
  audit = record p.audit { updated_at = now; updated_by = actor_id };
}

-- `if photo.CreatedAt.IsZero() { photo.CreatedAt = now }`
unfoldable pub stamp : ℕ → Photo → Photo
stamp now photo = record photo {
  created_at = if photo.created_at == 0 then now else photo.created_at;
}

-- The loop of `NewProfile` over the photos.
unfoldable pub check_photos : Go → ℕ → List Photo → Result AnimalError (List Photo)
unfolding validate_photo stamp
check_photos go now [] = ok []
check_photos go now (photo ∷ photos) = do
  validate_photo go photo
  rest ← check_photos go now photos
  ok (stamp now photo ∷ rest)

unfoldable pub normalize : Go → Profile → Profile
unfolding normalize_strings normalize_address
normalize go p = record p {
  name = trim_space p.name;
  owner_profile_id = trim_space p.owner_profile_id;
  breed = trim_space p.breed;
  description = trim_space p.description;
  traits = normalize_strings go p.traits;
  medical_notes = normalize_strings go p.medical_notes;
  location = normalize_address go p.location;
}

abbrev pub start_status : Status → Status
start_status s = if is_no_status s then draft else s

abbrev pub start_visibility : Visibility → Visibility
start_visibility v = if is_no_visibility v then private else v

-- `NewProfile` behind the normalisation.
unfoldable pub create : Go → Text → ℕ → Profile → Result AnimalError Profile
create go actor_id now p = do
  validate_base p
  fail_if (not (is_draft (start_status p.status))) invalid_state
  fail_if (not (is_private (start_visibility p.visibility))) invalid_state
  photos ← check_photos go now p.photos
  ok (record p {
    status = start_status p.status;
    visibility = start_visibility p.visibility;
    photos = photos;
    audit = record {
      created_at = now;
      updated_at = now;
      created_by = actor_id;
      updated_by = actor_id;
    };
  })

unfoldable pub new_profile : Go → Profile → Text → ℕ → Result AnimalError Profile
new_profile go profile actor_id now = create go actor_id now (normalize go profile)

-- The cases of the switch of `ApplyPatch`.
pub data MaskPath : Type 0 where
  name species breed sex size age_months description traits medical_notes : MaskPath
  vaccinated sterilized location : MaskPath

abbrev first_named : List (Text × MaskPath) → Text → Option MaskPath
first_named [] path = none
first_named ((s, m) ∷ rest) path = if text_eq path s then some m else first_named rest path

unfoldable pub mask_path : Text → Option MaskPath
mask_path = first_named (
    (lit "name", name)
    ∷ (lit "species", species)
    ∷ (lit "breed", breed)
    ∷ (lit "sex", sex)
    ∷ (lit "size", size)
    ∷ (lit "age_months", age_months)
    ∷ (lit "description", description)
    ∷ (lit "traits", traits)
    ∷ (lit "medical_notes", medical_notes)
    ∷ (lit "vaccinated", vaccinated)
    ∷ (lit "sterilized", sterilized)
    ∷ (lit "location", location)
    ∷ [])

unfoldable pub set_path : Go → Profile → MaskPath → Profile → Profile
unfolding normalize_strings normalize_address
set_path go patch name p = record p { name = trim_space patch.name }
set_path go patch species p = record p { species = patch.species }
set_path go patch breed p = record p { breed = trim_space patch.breed }
set_path go patch sex p = record p { sex = patch.sex }
set_path go patch size p = record p { size = patch.size }
set_path go patch age_months p = record p { age_months = patch.age_months }
set_path go patch description p = record p { description = trim_space patch.description }
set_path go patch traits p = record p { traits = normalize_strings go patch.traits }
set_path go patch medical_notes p = record p {
  medical_notes = normalize_strings go patch.medical_notes;
}
set_path go patch vaccinated p = record p { vaccinated = patch.vaccinated }
set_path go patch sterilized p = record p { sterilized = patch.sterilized }
set_path go patch location p = record p { location = normalize_address go patch.location }

-- The loop over the mask: the profile as it leaves it, and false where it met an unsupported path.
unfoldable pub apply_mask : Go → Profile → List Text → Profile → Profile × Bool
unfolding mask_path set_path
apply_mask go patch [] p = (p, true)
apply_mask go patch (raw_path ∷ mask) p = elim (mask_path (trim_space raw_path)) [
  | none ↦ (p, false)
  | some path ↦ apply_mask go patch mask (set_path go patch path p)
]

-- The profile in memory is changed also where the call fails.
unfoldable pub apply_patch :
    Go → Profile → List Text → Text → ℕ → Profile → Profile × Option AnimalError
unfolding apply_mask validate_base touch
apply_patch go patch update_mask actor_id now p =
    let masked = apply_mask go patch update_mask p in
    if is_empty update_mask
    then (p, some invalid_argument)
    else if not masked.1
    then (masked.0, some invalid_argument)
    else elim (validate_base masked.0) [
      | err e ↦ (masked.0, some e)
      | ok _ ↦ (touch actor_id now masked.0, none)
    ]

unfoldable pub publish : Text → ℕ → Profile → Result AnimalError Profile
unfolding touch
publish actor_id now p = do
  fail_if (not (is_draft p.status)) invalid_state
  fail_if (is_blank p.description) invalid_state
  fail_if (is_blank p.location.city) invalid_state
  fail_if (is_empty p.photos) invalid_state
  ok (touch actor_id now (record p { status = available; visibility = public }))

unfoldable pub archive : Text → Text → ℕ → Profile → Result AnimalError Profile
unfolding touch
archive reason actor_id now p = do
  fail_if (is_blank reason) invalid_argument
  fail_if (is_archived p.status) invalid_state
  ok (touch actor_id now (record p { status = archived; visibility = private }))

unfoldable pub add_photo : Go → Photo → Text → ℕ → Profile → Result AnimalError Profile
unfolding validate_photo stamp touch
add_photo go photo actor_id now p = do
  validate_photo go photo
  fail_if (exists (λ existing. text_eq existing.id photo.id) p.photos) conflict
  ok (touch actor_id now (record p { photos = p.photos ++ (stamp now photo ∷ []) }))

-- `slices.Delete` of the entry that `slices.IndexFunc` finds.
abbrev pub delete_first : Text → List Photo → List Photo
delete_first photo_id [] = []
delete_first photo_id (photo ∷ photos) =
    if text_eq photo.id photo_id then photos else photo ∷ delete_first photo_id photos

unfoldable pub remove_photo : Text → Text → ℕ → Profile → Result AnimalError Profile
unfolding touch
remove_photo raw_id actor_id now p =
    let photo_id = trim_space raw_id in
    do
      fail_if (is_empty photo_id) invalid_argument
      fail_if (not (exists (λ photo. text_eq photo.id photo_id) p.photos)) not_found
      ok (touch actor_id now (record p { photos = delete_first photo_id p.photos }))

unfoldable pub mark_boosted : ℕ → Text → ℕ → Profile → Result AnimalError Profile
unfolding touch
mark_boosted expires_at actor_id now p = do
  fail_if (expires_at == 0 || leb expires_at now) invalid_argument
  ok (touch actor_id now (record p { boosted = true; boost_expires_at = some expires_at }))

unfoldable pub increment_donation_count : Text → ℕ → Profile → Profile
unfolding touch
increment_donation_count actor_id now p =
    touch actor_id now (record p { donation_count = (p.donation_count + 1) % 2 ^ 64 })

unfoldable pub increment_interest_count : Text → ℕ → Profile → Profile
unfolding touch
increment_interest_count actor_id now p =
    touch actor_id now (record p { interest_count = (p.interest_count + 1) % 2 ^ 64 })
