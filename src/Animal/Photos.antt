-- ===== src/Animal/Photos.antt =====
-- `AddPhoto` and `RemovePhoto` of backend/animal-service/internal/domain/animal/model.go together.
use mathlib.Core.Path.{subst}
use capibarco.Base.{ℕ, ◌≡◌, ◌∙◌, ap, Bool, true, false, List, [], ◌∷◌, ◌++◌, arith, exists}
use capibarco.Base.Text.{Text, text_eq, text_eq_refl, trim_space, is_blank}
use capibarco.Base.Result.{ok, err}
use capibarco.Animal.Domain.{not_found, Profile, Photo, Go, validate_photo}
use capibarco.Animal.Profile.{touch, stamp, add_photo, remove_photo, delete_first}

abbrev pub has_photo : Text → List Photo → Bool
has_photo i = exists (λ photo. text_eq photo.id i)

delete_first-append :
    (i : Text) (ps : List Photo) (p : Photo)
    → has_photo i ps ≡ false
    → text_eq p.id i ≡ true
    → delete_first i (ps ++ (p ∷ [])) ≡ ps
delete_first-append i [] p h k = ground arith
delete_first-append i (q ∷ ps) p h k = ground (arith, delete_first-append i ps p)

has_photo-append :
    (i : Text) (ps : List Photo) (p : Photo)
    → text_eq p.id i ≡ true
    → has_photo i (ps ++ (p ∷ [])) ≡ true
has_photo-append i [] p k = ground arith
has_photo-append i (q ∷ ps) p k = ground (arith, has_photo-append i ps p)

has_photo-append_other :
    (i : Text) (ps : List Photo) (p : Photo)
    → has_photo i ps ≡ false
    → text_eq p.id i ≡ false
    → has_photo i (ps ++ (p ∷ [])) ≡ false
has_photo-append_other i [] p h k = ground arith
has_photo-append_other i (q ∷ ps) p h k = ground (arith, has_photo-append_other i ps p)

module _ (go : Go) (photo : Photo) (actor : Text) (now : ℕ) (p : Profile) where
  pub add_photo-record :
      {q : Profile}
      → add_photo go photo actor now p ≡ ok q
      → (has_photo photo.id p.photos ≡ false)
        × (is_blank photo.id ≡ false)
        × (touch actor now (record p { photos = p.photos ++ (stamp now photo ∷ []) }) ≡ q)
  unfolding add_photo validate_photo
  add_photo-record h = ground arith

-- What `RemovePhoto` returns, by the trimmed identifier.
remove_photo-found :
    (i actor : Text) (now : ℕ) (p : Profile)
    → is_blank i ≡ false
    → has_photo (trim_space i) p.photos ≡ true
    → remove_photo i actor now p
      ≡ ok (touch actor now (record p { photos = delete_first (trim_space i) p.photos }))
unfolding remove_photo is_blank
remove_photo-found i actor now p b h = ground arith

remove_photo-missing :
    (i actor : Text) (now : ℕ) (p : Profile)
    → is_blank i ≡ false
    → has_photo (trim_space i) p.photos ≡ false
    → remove_photo i actor now p ≡ err not_found
unfolding remove_photo is_blank
remove_photo-missing i actor now p b h = ground arith

-- A photo that was added can be removed by its identifier, if this has no space around it, and the
-- photos are then those from before.
pub remove_photo-add_photo :
    (go : Go) (photo : Photo) (actor : Text) (now later : ℕ) (p : Profile) {q : Profile}
    → add_photo go photo actor now p ≡ ok q
    → trim_space photo.id ≡ photo.id
    → remove_photo photo.id actor later q ≡ ok (touch actor later p)
unfolding touch stamp
remove_photo-add_photo go photo actor now later p {q} h t =
    let (absent, b, e) = add_photo-record go photo actor now p h in
    let i = trim_space photo.id in
    let ps = p.photos ++ (stamp now photo ∷ []) in
    let same : text_eq photo.id i ≡ true = rw t (text_eq_refl photo.id) in
    subst (λ r. remove_photo photo.id actor later r ≡ ok (touch actor later p)) e
      (remove_photo-found photo.id actor later (touch actor now (record p { photos = ps })) b
          (has_photo-append i p.photos (stamp now photo) same)
        ∙ ap (λ qs. ok (touch actor later (record p { photos = qs })))
            (delete_first-append i p.photos (stamp now photo) (rw t absent) same))

-- A photo whose identifier has a space around it cannot be removed by that identifier, where no other
-- photo bears the trimmed one: `AddPhoto` stores the identifier as it came, and `RemovePhoto` trims it.
pub remove_photo-untrimmed :
    (go : Go) (photo : Photo) (actor : Text) (now later : ℕ) (p : Profile) {q : Profile}
    → add_photo go photo actor now p ≡ ok q
    → text_eq photo.id (trim_space photo.id) ≡ false
    → has_photo (trim_space photo.id) p.photos ≡ false
    → remove_photo photo.id actor later q ≡ err not_found
unfolding touch stamp
remove_photo-untrimmed go photo actor now later p {q} h t n =
    let (absent, b, e) = add_photo-record go photo actor now p h in
    subst (λ r. remove_photo photo.id actor later r ≡ err not_found) e
      (remove_photo-missing photo.id actor later
        (touch actor now (record p { photos = p.photos ++ (stamp now photo ∷ []) })) b
        (has_photo-append_other (trim_space photo.id) p.photos (stamp now photo) n t))
