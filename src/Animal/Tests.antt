-- ===== src/Animal/Tests.antt =====
-- The theorems on animal profiles, at a concrete profile.
use capibarco.Base.{◌≡◌, refl, true, List, [], ◌∷◌}
use capibarco.Base.Text.{Text, lit, text_eq, trim_space, is_blank}
use capibarco.Base.Result.{ok, err}
use capibarco.Animal.Domain.{
  not_found, Status, Visibility, Photo, Profile, normalize_strings, normalize_from,
  normalize_address, validate_base, validate_photo,
}
use capibarco.Animal.Profile.{
  new_profile, create, normalize, check_photos, stamp, touch, add_photo, remove_photo,
}
use capibarco.Animal.Lifecycle.{
  Command, publish_it, archive_it, add, boost, run_commands, IsWellFormed,
}
use capibarco.Animal.Reachable.{run_commands-IsWellFormed, run_commands-IsHidden, IsHidden}
use capibarco.Animal.Photos.{remove_photo-add_photo, remove_photo-untrimmed}
use capibarco.Animal.Labels.{are_clean, are_distinct, has_key, normalize_strings_lem}
use capibarco.Animal.Samples.{go, photo, profile}

abbrev seed : Profile
seed = profile Status.unspecified Visibility.unspecified 0 [] (photo (lit "p1") ∷ [])

abbrev fresh : Profile
fresh = profile Status.draft Visibility.private 5 (lit "ann") (photo (lit "p1") ∷ [])

abbrev commands : List Command
commands =
    publish_it (lit "ann") 6
    ∷ add (photo (lit "p2")) (lit "ann") 7
    ∷ boost 99 (lit "ann") 8
    ∷ archive_it (lit "adopted") (lit "ann") 9
    ∷ []

run_commands-IsWellFormed_example : IsWellFormed go (run_commands go fresh commands)
unfolding new_profile create normalize check_photos stamp validate_base validate_photo
    normalize_strings normalize_from normalize_address trim_space is_blank text_eq
run_commands-IsWellFormed_example =
    run_commands-IsWellFormed go seed (lit "ann") 5 commands {p = fresh} refl

run_commands-IsHidden_example :
    IsHidden
      (run_commands go (profile Status.archived Visibility.private 5 (lit "ann") []) commands)
run_commands-IsHidden_example =
    run_commands-IsHidden go commands (profile Status.archived Visibility.private 5 (lit "ann") [])
      (refl, refl)

normalize_strings_lem_example :
    (are_clean go (normalize_strings go (lit " calm " ∷ lit "calm" ∷ [] ∷ [])) ≡ true)
    × (are_distinct go [] (normalize_strings go (lit " calm " ∷ lit "calm" ∷ [] ∷ [])) ≡ true)
    × ((k : Text)
        → has_key go k (normalize_strings go (lit " calm " ∷ lit "calm" ∷ [] ∷ []))
          ≡ has_key go k (lit " calm " ∷ lit "calm" ∷ [] ∷ []))
normalize_strings_lem_example = normalize_strings_lem go (lit " calm " ∷ lit "calm" ∷ [] ∷ [])

abbrev with_photos : Text → List Photo → Profile
with_photos by photos = touch by 7 (profile Status.draft Visibility.private 5 (lit "ann") photos)

remove_photo-add_photo_example :
    remove_photo
      (lit "p2")
      (lit "ann")
      8
      (touch (lit "ann") 7 (record fresh { photos = photo (lit "p1") ∷ photo (lit "p2") ∷ [] }))
    ≡ ok (touch (lit "ann") 8 fresh)
unfolding add_photo validate_photo stamp touch trim_space is_blank text_eq
remove_photo-add_photo_example =
    remove_photo-add_photo go (photo (lit "p2")) (lit "ann") 7 8 fresh
      {q = touch (lit "ann") 7 (record fresh { photos = photo (lit "p1") ∷ photo (lit "p2") ∷ [] })}
      refl refl

remove_photo-untrimmed_example :
    remove_photo
      (lit " p2")
      (lit "ann")
      8
      (touch (lit "ann") 7 (record fresh { photos = photo (lit "p1") ∷ photo (lit " p2") ∷ [] }))
    ≡ err not_found
unfolding add_photo validate_photo stamp touch trim_space is_blank text_eq
remove_photo-untrimmed_example =
    remove_photo-untrimmed go (photo (lit " p2")) (lit "ann") 7 8 fresh
      {q = touch (lit "ann") 7
        (record fresh { photos = photo (lit "p1") ∷ photo (lit " p2") ∷ [] })}
      refl refl refl
