-- ===== src/Animal/Lifecycle/Frames.antt =====
-- What each call of backend/animal-service/internal/domain/animal/model.go leaves alone.
use capibarco.Base.{
  ℕ, ◌≡◌, refl, inl, inr, ◌∙◌, true, false, none, some, List, [], ◌∷◌, arith, Option-cases,
}
use capibarco.Base.Text.{Text, trim_space}
use capibarco.Base.Result.{is_ok}
use capibarco.Animal.Domain.{Profile, Go, validate_base}
use capibarco.Animal.Profile.{touch, MaskPath, mask_path, set_path, apply_mask, apply_patch}
use MaskPath.{
  name, species, breed, sex, size, age_months, description, traits, medical_notes, vaccinated,
  sterilized, location,
}

-- The fields that a patch cannot reach.
abbrev pub Fixed : Profile → Profile → Type 0
Fixed p q = (q.status ≡ p.status) × (q.visibility ≡ p.visibility) × (q.photos ≡ p.photos)

module _ (go : Go) (patch : Profile) where
  set_path-Fixed : (m : MaskPath) (p : Profile) → Fixed p (set_path go patch m p)
  unfolding set_path
  set_path-Fixed name p = (refl, refl, refl)
  set_path-Fixed species p = (refl, refl, refl)
  set_path-Fixed breed p = (refl, refl, refl)
  set_path-Fixed sex p = (refl, refl, refl)
  set_path-Fixed size p = (refl, refl, refl)
  set_path-Fixed age_months p = (refl, refl, refl)
  set_path-Fixed description p = (refl, refl, refl)
  set_path-Fixed traits p = (refl, refl, refl)
  set_path-Fixed medical_notes p = (refl, refl, refl)
  set_path-Fixed vaccinated p = (refl, refl, refl)
  set_path-Fixed sterilized p = (refl, refl, refl)
  set_path-Fixed location p = (refl, refl, refl)

  apply_mask-stop :
      (raw : Text) (mask : List Text) (p : Profile)
      → mask_path (trim_space raw) ≡ none
      → apply_mask go patch (raw ∷ mask) p ≡ (p, false)
  unfolding apply_mask
  apply_mask-stop raw mask p e = rw (apply_mask, e) refl

  apply_mask-go :
      (raw : Text) (mask : List Text) (p : Profile) {m : MaskPath}
      → mask_path (trim_space raw) ≡ some m
      → apply_mask go patch (raw ∷ mask) p ≡ apply_mask go patch mask (set_path go patch m p)
  unfolding apply_mask
  apply_mask-go raw mask p e = rw (apply_mask, e) refl

  pub apply_mask-Fixed : (mask : List Text) (p : Profile) → Fixed p (apply_mask go patch mask p).0
  unfolding apply_mask
  apply_mask-Fixed [] p = (refl, refl, refl)
  apply_mask-Fixed (raw ∷ mask) p = elim (Option-cases (mask_path (trim_space raw))) [
    | inl n ↦ rw (apply_mask-stop raw mask p n) (refl, refl, refl)
    | inr (m, e) ↦
        let IH = apply_mask-Fixed mask (set_path go patch m p) in
        let F = set_path-Fixed m p in
        rw (apply_mask-go raw mask p e) (IH.0 ∙ F.0, IH.1 ∙ F.1, IH.2 ∙ F.2)
  ]

  patched :
      (mask : List Text) (actor : Text) (now : ℕ) (p : Profile) {q : Profile}
      → apply_patch go patch mask actor now p ≡ (q, none)
      → (q ≡ touch actor now (apply_mask go patch mask p).0)
        × (is_ok (validate_base (apply_mask go patch mask p).0) ≡ true)
  unfolding apply_patch
  patched mask actor now p h = ground arith

  -- A patch that succeeds leaves a valid profile with its state and its photos.
  pub apply_patch-Fixed :
      (mask : List Text) (actor : Text) (now : ℕ) (p : Profile) {q : Profile}
      → apply_patch go patch mask actor now p ≡ (q, none)
      → Fixed p q × (is_ok (validate_base q) ≡ true)
  unfolding touch validate_base
  apply_patch-Fixed mask actor now p h =
      let (e, v) = patched mask actor now p h in
      let F = apply_mask-Fixed mask p in rw e ((F.0, F.1, F.2), v)
