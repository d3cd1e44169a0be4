-- ===== src/Animal/Refinement.antt =====
-- Who may change a profile of backend/animal-service, and that a call of the service does to the stored
-- profile what the aggregate's operation does.
use capibarco.Base.{ℕ, ◌≡◌, ◌∙◌, Option, none, some, List}
use capibarco.Base.Text.{Text}
use capibarco.Base.Result.{Result, ok, err, ok-inj}
use capibarco.Base.Action.Returns.{Returns, Returns-bind, Returns-weaken, Returns-pure}
use capibarco.Animal.Domain.{AnimalError, Profile, Photo}
use capibarco.Animal.Lifecycle.{
  Command, patch, publish_it, archive_it, add, remove, apply, stored, stored_patch,
}
use capibarco.Animal.Outside.{Env, World, Animals}
use capibarco.Animal.Service.{
  patched, update_animal, publish_animal, archive_animal, add_animal_photo, remove_animal_photo,
}
use capibarco.Animal.Owner.{
  IsOwnersChange, Returns-change_owned, Returns-announce, Returns-register, later,
}

-- A call of an owner.
pub data OwnerCall : Type 0 where
  update_call : Profile → List Text → OwnerCall
  publish_call : OwnerCall
  archive_call : Text → OwnerCall
  add_photo_call : Text → Photo → OwnerCall
  remove_photo_call : Text → OwnerCall

unfoldable pub serve_owner : Env → Text → Text → OwnerCall → Animals Profile
serve_owner env actor_id animal_id (update_call with_fields mask) =
    update_animal env actor_id animal_id with_fields mask
serve_owner env actor_id animal_id publish_call = publish_animal env actor_id animal_id
serve_owner env actor_id animal_id (archive_call reason) =
    archive_animal env actor_id animal_id reason
serve_owner env actor_id animal_id (add_photo_call key photo) =
    add_animal_photo env actor_id animal_id key photo
serve_owner env actor_id animal_id (remove_photo_call photo_id) =
    remove_animal_photo env actor_id animal_id photo_id

-- The operation of the aggregate behind a call.
unfoldable pub command_of : Text → OwnerCall → ℕ → Command
command_of actor_id (update_call with_fields mask) at = patch with_fields mask actor_id at
command_of actor_id publish_call at = publish_it actor_id at
command_of actor_id (archive_call reason) at = archive_it reason actor_id at
command_of actor_id (add_photo_call key photo) at = add photo actor_id at
command_of actor_id (remove_photo_call photo_id) at = remove photo_id actor_id at

patched-apply :
    (p : Profile) (r : Profile × Option AnimalError) {q : Profile}
    → patched r ≡ ok q
    → stored_patch p r ≡ q
patched-apply p (x, none) h = ok-inj h
patched-apply p (x, some e) h = absurd cc

stored-apply :
    (p : Profile) (r : Result AnimalError Profile) {q : Profile} → r ≡ ok q → stored p r ≡ q
stored-apply p (ok x) h = ok-inj h
stored-apply p (err e) h = absurd cc

Returns-serve_owner :
    (env : Env) (actor_id animal_id : Text) (c : OwnerCall) (w : World)
    → Returns
        (serve_owner env actor_id animal_id c)
        w
        (λ q w₁. IsOwnersChange env actor_id animal_id (command_of actor_id c) w w₁ q)
unfolding serve_owner command_of apply update_animal publish_animal archive_animal add_animal_photo
    remove_animal_photo
Returns-serve_owner env actor_id animal_id (update_call f m) w = Returns-bind _ _ w (
    Returns-weaken
      (Returns-change_owned env animal_id actor_id _ (λ at. patch f m actor_id at) w
        (λ at p q e. patched-apply p _ e))
      λ both w₁ change. Returns-bind _ _ w₁ (
        Returns-weaken (Returns-announce env _ _ _ w₁)
          λ u w₂ same. Returns-pure _ _ (later change same)))
Returns-serve_owner env actor_id animal_id publish_call w = Returns-bind _ _ w (
    Returns-weaken
      (Returns-change_owned env animal_id actor_id _ (λ at. publish_it actor_id at) w
        (λ at p q e. stored-apply p _ e))
      λ both w₁ change. Returns-bind _ _ w₁ (
        Returns-weaken (Returns-announce env _ _ _ w₁) λ u w₂ same. Returns-bind _ _ w₂ (
          Returns-weaken (Returns-announce env _ _ _ w₂)
            λ v w₃ same₂. Returns-pure _ _ (later change (same₂ ∙ same)))))
Returns-serve_owner env actor_id animal_id (archive_call reason) w = Returns-bind _ _ w (
    Returns-weaken
      (Returns-change_owned env animal_id actor_id _ (λ at. archive_it reason actor_id at) w
        (λ at p q e. stored-apply p _ e))
      λ both w₁ change. Returns-bind _ _ w₁ (
        Returns-weaken (Returns-announce env _ _ _ w₁) λ u w₂ same. Returns-bind _ _ w₂ (
          Returns-weaken (Returns-announce env _ _ _ w₂)
            λ v w₃ same₂. Returns-pure _ _ (later change (same₂ ∙ same)))))
Returns-serve_owner env actor_id animal_id (add_photo_call key photo) w = Returns-bind _ _ w (
    Returns-weaken
      (Returns-change_owned env animal_id actor_id _ (λ at. add photo actor_id at) w
        (λ at p q e. stored-apply p _ e))
      λ both w₁ change. Returns-bind _ _ w₁ (
        Returns-weaken (Returns-register env key both.1.id w₁) λ u w₂ same. Returns-bind _ _ w₂ (
          Returns-weaken (Returns-announce env _ _ _ w₂)
            λ v w₃ same₂. Returns-pure _ _ (later change (same₂ ∙ same)))))
Returns-serve_owner env actor_id animal_id (remove_photo_call i) w = Returns-bind _ _ w (
    Returns-weaken
      (Returns-change_owned env animal_id actor_id _ (λ at. remove i actor_id at) w
        (λ at p q e. stored-apply p _ e))
      λ both w₁ change. Returns-bind _ _ w₁ (
        Returns-weaken (Returns-announce env _ _ _ w₁)
          λ u w₂ same. Returns-pure _ _ (later change same)))

-- Where a call of an owner succeeds, the stored profile with the identifier is the actor's, what is
-- returned is this profile after the aggregate's operation, and the row is replaced by it.
pub serve_owner-refines :
    (env : Env) (actor_id animal_id : Text) (c : OwnerCall) (w : World) {q : Profile}
    → (serve_owner env actor_id animal_id c w).0 ≡ ok q
    → IsOwnersChange env actor_id animal_id
        (command_of actor_id c)
        w
        (serve_owner env actor_id animal_id c w).1
        q
serve_owner-refines env actor_id animal_id c w h =
    (Returns-serve_owner env actor_id animal_id c w).at _ h
