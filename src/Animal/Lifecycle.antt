-- ===== src/Animal/Lifecycle.antt =====
-- The life of an animal profile: what any sequence of the calls of
-- backend/animal-service/internal/domain/animal/model.go can make of it.
pub mod Frames
use capibarco.Base.{
  ℕ, ◌≡◌, refl, inl, inr, ◌∙◌, ap, sym, Bool, true, false, not, ◌||◌, ◌&&◌, Option, none, some,
  List, [], ◌∷◌, ◌++◌, arith, leb, ◌==◌, if◌then◌else◌, is_empty, exists,
}
use mathlib.Core.Path.{subst}
use capibarco.Base.Text.{Text, text_eq, is_blank, trim_space}
use capibarco.Base.Result.{Result, ok, err, is_ok, fail_if, ◌>>=◌, Result-cases}
use capibarco.Animal.Domain.{
  AnimalError, Status, draft, available, archived, Visibility, private, public, Profile, Photo, Go,
  validate_base, validate_photo,
}
use capibarco.Animal.Profile.{
  is_draft, is_archived, touch, stamp, check_photos, normalize, new_profile, MaskPath, mask_path,
  set_path, apply_mask, apply_patch, publish, archive, add_photo, delete_first, remove_photo,
  mark_boosted, increment_donation_count, increment_interest_count,
}
use capibarco.Animal.Lifecycle.Frames.{Fixed, apply_patch-Fixed}
use MaskPath.{
  name, species, breed, sex, size, age_months, description, traits, medical_notes, vaccinated,
  sterilized, location,
}

-- A call, with its arguments, its actor and its time.
pub data Command : Type 0 where
  patch : Profile → List Text → Text → ℕ → Command
  publish_it : Text → ℕ → Command
  archive_it : Text → Text → ℕ → Command
  add : Photo → Text → ℕ → Command
  remove : Text → Text → ℕ → Command
  boost : ℕ → Text → ℕ → Command
  donation : Text → ℕ → Command
  interest : Text → ℕ → Command

-- The application stores what a call leaves if it succeeded, and nothing otherwise.
abbrev pub stored : Profile → Result AnimalError Profile → Profile
stored p (ok p') = p'
stored p (err e) = p

abbrev pub stored_patch : Profile → Profile × Option AnimalError → Profile
stored_patch p (p', none) = p'
stored_patch p (p', some e) = p

unfoldable pub apply : Go → Command → Profile → Profile
unfolding apply_patch publish archive add_photo remove_photo mark_boosted increment_donation_count
    increment_interest_count
apply go (patch with_fields mask actor now) p =
    stored_patch p (apply_patch go with_fields mask actor now p)
apply go (publish_it actor now) p = stored p (publish actor now p)
apply go (archive_it reason actor now) p = stored p (archive reason actor now p)
apply go (add photo actor now) p = stored p (add_photo go photo actor now p)
apply go (remove photo_id actor now) p = stored p (remove_photo photo_id actor now p)
apply go (boost expires_at actor now) p = stored p (mark_boosted expires_at actor now p)
apply go (donation actor now) p = increment_donation_count actor now p
apply go (interest actor now) p = increment_interest_count actor now p

unfoldable pub run_commands : Go → Profile → List Command → Profile
unfolding apply
run_commands go p [] = p
run_commands go p (c ∷ cs) = run_commands go (apply go c p) cs

-- A profile is a private draft, or available to the public, or archived and private.
abbrev pub is_coherent : Status → Visibility → Bool
is_coherent draft private = true
is_coherent available public = true
is_coherent archived private = true
is_coherent _ _ = false

abbrev pub are_valid : Go → List Photo → Bool
are_valid go [] = true
are_valid go (photo ∷ photos) = is_ok (validate_photo go photo) && are_valid go photos

-- The base fields are valid, the state is coherent and each photo is valid.
abbrev pub IsWellFormed : Go → Profile → Type 0
IsWellFormed go p =
    (is_ok (validate_base p) ≡ true)
    × (is_coherent p.status p.visibility ≡ true)
    × (are_valid go p.photos ≡ true)

module _ (go : Go) where
  stamp-is_ok :
      (now : ℕ) (photo : Photo)
      → is_ok (validate_photo go (stamp now photo)) ≡ is_ok (validate_photo go photo)
  unfolding stamp validate_photo
  stamp-is_ok now photo = refl

  pub check_photos-are_valid :
      (now : ℕ) (ps : List Photo) {qs : List Photo}
      → check_photos go now ps ≡ ok qs
      → are_valid go qs ≡ true
  unfolding check_photos
  check_photos-are_valid now [] h = ground arith
  check_photos-are_valid now (p ∷ ps) {qs} h = elim (Result-cases (check_photos go now ps)) [
    | inl (rest, e) ↦ ground (arith, stamp-is_ok now p, check_photos-are_valid now ps e)
    | inr (e, k) ↦ ground arith
  ]

  are_valid-append :
      (ps : List Photo) (p : Photo)
      → are_valid go ps ≡ true
      → is_ok (validate_photo go p) ≡ true
      → are_valid go (ps ++ (p ∷ [])) ≡ true
  are_valid-append [] p h k = ground arith
  are_valid-append (q ∷ ps) p h k = ground (arith, are_valid-append ps p)

  are_valid-delete_first :
      (i : Text) (ps : List Photo)
      → are_valid go ps ≡ true
      → are_valid go (delete_first i ps) ≡ true
  are_valid-delete_first i [] h = refl
  are_valid-delete_first i (q ∷ ps) h = ground (arith, are_valid-delete_first i ps)

  coherent-of :
      {s t : Status} {v u : Visibility}
      → s ≡ t
      → v ≡ u
      → is_coherent t u ≡ true
      → is_coherent s v ≡ true
  coherent-of e f h = rw (e, f) h

  patch-IsWellFormed :
      (p : Profile) (r : Profile × Option AnimalError)
      → IsWellFormed go p
      → ((q : Profile) → r ≡ (q, none) → Fixed p q × (is_ok (validate_base q) ≡ true))
      → IsWellFormed go (stored_patch p r)
  patch-IsWellFormed p (q, none) w h =
      let (f, v) = h q refl in (v, coherent-of f.0 f.1 w.1, ap (are_valid go) f.2 ∙ w.2)
  patch-IsWellFormed p (q, some e) w h = w

  pub stored-IsWellFormed :
      (p : Profile) (r : Result AnimalError Profile)
      → IsWellFormed go p
      → ((q : Profile) → r ≡ ok q → IsWellFormed go q)
      → IsWellFormed go (stored p r)
  stored-IsWellFormed p (ok q) w h = h q refl
  stored-IsWellFormed p (err e) w h = w

  pub published :
      (actor : Text) (now : ℕ) (p : Profile) {q : Profile}
      → publish actor now p ≡ ok q
      → touch actor now (record p { status = available; visibility = public }) ≡ q
  unfolding publish
  published actor now p h = ground arith

  pub hidden :
      (reason actor : Text) (now : ℕ) (p : Profile) {q : Profile}
      → archive reason actor now p ≡ ok q
      → touch actor now (record p { status = archived; visibility = private }) ≡ q
  unfolding archive
  hidden reason actor now p h = ground arith

  pub added :
      (photo : Photo) (actor : Text) (now : ℕ) (p : Profile) {q : Profile}
      → add_photo go photo actor now p ≡ ok q
      → (is_ok (validate_photo go photo) ≡ true)
        × (touch actor now (record p { photos = p.photos ++ (stamp now photo ∷ []) }) ≡ q)
  unfolding add_photo
  added photo actor now p h = ground arith

  pub removed :
      (i actor : Text) (now : ℕ) (p : Profile) {q : Profile}
      → remove_photo i actor now p ≡ ok q
      → touch actor now (record p { photos = delete_first (trim_space i) p.photos }) ≡ q
  unfolding remove_photo
  removed i actor now p h = ground arith

  pub boosted-of :
      (at : ℕ) (actor : Text) (now : ℕ) (p : Profile) {q : Profile}
      → mark_boosted at actor now p ≡ ok q
      → touch actor now (record p { boosted = true; boost_expires_at = some at }) ≡ q
  unfolding mark_boosted
  boosted-of at actor now p h = ground arith

  pub apply-IsWellFormed :
      (c : Command) (p : Profile) → IsWellFormed go p → IsWellFormed go (apply go c p)
  unfolding apply increment_donation_count increment_interest_count touch validate_base
  apply-IsWellFormed (patch q mask actor now) p w =
      patch-IsWellFormed p _ w (λ r. apply_patch-Fixed go q mask actor now p)
  apply-IsWellFormed (publish_it actor now) p w =
      stored-IsWellFormed p _ w
        (λ q e. subst (IsWellFormed go) (published actor now p e) (w.0, refl, w.2))
  apply-IsWellFormed (archive_it reason actor now) p w =
      stored-IsWellFormed p _ w
        (λ q e. subst (IsWellFormed go) (hidden reason actor now p e) (w.0, refl, w.2))
  apply-IsWellFormed (add photo actor now) p w = stored-IsWellFormed p _ w (λ q e.
      let (v, f) = added photo actor now p e in
      subst (IsWellFormed go) f
        (w.0, w.1, are_valid-append p.photos (stamp now photo) w.2 (stamp-is_ok now photo ∙ v)))
  apply-IsWellFormed (remove i actor now) p w = stored-IsWellFormed p _ w (λ q e.
      subst (IsWellFormed go) (removed i actor now p e)
        (w.0, w.1, are_valid-delete_first (trim_space i) p.photos w.2))
  apply-IsWellFormed (boost at actor now) p w =
      stored-IsWellFormed p _ w (λ q e. subst (IsWellFormed go) (boosted-of at actor now p e) w)
  apply-IsWellFormed (donation actor now) p w = w
  apply-IsWellFormed (interest actor now) p w = w

  pub run_commands-keeps :
      (cs : List Command) (p : Profile) → IsWellFormed go p → IsWellFormed go (run_commands go p cs)
  unfolding run_commands
  run_commands-keeps [] p w = w
  run_commands-keeps (c ∷ cs) p w = run_commands-keeps cs (apply go c p) (apply-IsWellFormed c p w)
