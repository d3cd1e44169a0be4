-- ===== src/Feed/Visibility.antt =====
-- Who can be on a page of `GetFeed` of backend/feed-service/internal/feed/service.go.
use capibarco.Base.{
  ℕ, zero, suc, ◌≤◌, ◌≡◌, refl, ap, Bool, false, not, ◌&&◌, ◌||◌, Option, none, some, List, [], ◌∷◌,
  arith, ◌==◌, take, drop, keep, is_empty,
}
use capibarco.Base.Text.{Text, text_eq}
use capibarco.Base.Result.{Result, ok, bind-ok, ok-inj}
use capibarco.Feed.Types.{
  Candidate, AnimalFilter, status_available, visibility_public, visibility_unlisted,
  surface_owner_profile,
}
use capibarco.Feed.Ranking.{rank_candidates}
use capibarco.Feed.Ranking.Count.{count, count-rank_candidates}
use capibarco.Feed.Serving.{
  Codec, FeedError, FeedRequest, actor_id, passes, filter_candidates, visible_on_surface, is_member,
  excluded_animal_ids, paginate, page_bounds, effective_animal_filter, select_feed,
}

-- What a viewer may be shown, whatever the order in which the code tests it.
unfoldable pub may_see : Text → ℕ → List Text → List Text → Candidate → Bool
may_see actor surface excluded seen c = elim c.animal [
  | none ↦ false
  | some animal ↦
      animal.status == status_available
      && ((animal.visibility == visibility_public
            || (animal.visibility == visibility_unlisted && surface == surface_owner_profile))
          && (not (is_member animal.animal_id seen || is_member animal.animal_id excluded)
              && (not (c.owner_hidden || c.owner_blocked)
                  && (is_empty actor || not (text_eq animal.owner_profile_id actor)))))
]

passes-may_see :
    (actor : Text) (surface : ℕ) (excluded seen : List Text) (c : Candidate)
    → passes actor surface excluded seen c ≡ may_see actor surface excluded seen c
unfolding passes may_see visible_on_surface
passes-may_see actor surface excluded seen c = ground arith

-- The candidates of a list that do not pass a test.
count-keep-not :
    (p q : Candidate → Bool) (cs : List Candidate)
    → ((c : Candidate) → p c ≡ q c)
    → count (λ c. not (q c)) (keep p cs) ≡ 0
count-keep-not p q [] h = refl
count-keep-not p q (c ∷ cs) h = ground (arith, h c, count-keep-not p q cs h)

count-take : (p : Candidate → Bool) (n : ℕ) (cs : List Candidate) → count p (take n cs) ≤ count p cs
count-take p zero cs = omega arith
count-take p (suc n) [] = omega arith
count-take p (suc n) (c ∷ cs) = ground (arith, count-take p n cs)

count-drop : (p : Candidate → Bool) (n : ℕ) (cs : List Candidate) → count p (drop n cs) ≤ count p cs
count-drop p zero cs = omega arith
count-drop p (suc n) [] = omega arith
count-drop p (suc n) (c ∷ cs) = ground (arith, count-drop p n cs)

count-paginate :
    (p : Candidate → Bool) (codec : Codec) (cs : List Candidate) (offset n : ℕ)
    → count p (paginate codec cs offset n).0 ≤ count p cs
unfolding paginate
count-paginate p codec cs offset n =
    ground (arith, count-take p n (drop offset cs), count-drop p offset cs)

-- Where a page is served: nobody is on it whom the viewer may not see (the animal must be
-- available, public or, on an owner's profile, unlisted, neither seen nor excluded, not the viewer's
-- own, and its owner neither hidden nor blocked), whatever the store listed.
pub select_feed-may_see :
    (codec : Codec) (higher : Candidate → Candidate → Bool) (policy : ℕ) (req : FeedRequest)
    (allowed : Result FeedError Bool) (list_candidates : Option AnimalFilter → List Candidate)
    (seen : List Text) {window : List Candidate} {token : Text}
    → select_feed codec higher policy req allowed list_candidates seen ≡ ok (window, token)
    → count
        (λ c.
          not
            (may_see (actor_id req.principal) req.surface (excluded_animal_ids req.filter) seen c))
        window
      ≡ 0
unfolding select_feed filter_candidates
select_feed-may_see codec higher policy req allowed list_candidates seen {window} {token} h =
    let (b, e₁, h₁) = bind-ok (page_bounds codec req.page_size req.page_token) _ h in
    let (f, e₂, h₂) = bind-ok (effective_animal_filter req.filter allowed) _ h₁ in
    let bad : Candidate → Bool = λ c.
      not (may_see (actor_id req.principal) req.surface (excluded_animal_ids req.filter) seen c) in
    let chosen =
      keep (passes (actor_id req.principal) req.surface (excluded_animal_ids req.filter) seen)
        (list_candidates f.1) in
    omega (
      arith,
      ap (λ o. count bad o.0) (ok-inj h₂),
      count-paginate bad codec (rank_candidates higher chosen policy) b.1 b.0,
      count-rank_candidates higher bad chosen policy,
      count-keep-not _ _ (list_candidates f.1) (
          passes-may_see (actor_id req.principal) req.surface (excluded_animal_ids req.filter)
            seen),
    )
