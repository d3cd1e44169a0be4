-- ===== src/Animal/Owner.antt =====
-- The steps that the calls of an owner share in backend/animal-service/internal/app/animal/service.go.
use mathlib.Core.Path.{subst}
use capibarco.Base.{
  ℕ, ◌≡◌, refl, ap, ◌∙◌, Bool, true, false, Option, none, some, List, arith, exists, if◌then◌else◌,
}
use capibarco.Base.Text.{Text, text_eq, trim_space}
use capibarco.Base.Table.{find, update}
use capibarco.Base.Result.{Result, ok, err, ok-inj}
use capibarco.Base.Action.Keeps.{Keeps, keeps_rules}
use capibarco.Base.Action.Ports.{met-kept, met-answered}
use capibarco.Base.Action.Returns.{
  Returns, Returns-bind, Returns-weaken, Returns-guard, Returns-lift, Returns-pure, Keeps-Returns,
}
use capibarco.Animal.Domain.{AnimalError, not_found, Profile}
use capibarco.Animal.Lifecycle.{Command, apply}
use capibarco.Animal.Outside.{
  ServiceError, domain, outside, Event, Env, World, Animals, after, draw, request, has_id,
  or_not_found, get_row, update_row, register_idempotency, publish_event,
}
use capibarco.Animal.Service.{
  of_domain, now, new_id, get, get_owned, new_event, change_owned, announce,
}

-- What a call of an owner requires and leaves: the stored profile `before` is the actor's, the result
-- is `before` after the command, and the row is replaced by it.
pub record IsOwnersChange (env : Env) (actor_id animal_id : Text) (command : ℕ → Command)
    (w w₁ : World) (q : Profile) : Type 0 where
  pub before : Profile
  pub at : ℕ
  pub found : find (has_id animal_id) w.animals ≡ some before
  pub owned : text_eq before.owner_profile_id (trim_space actor_id) ≡ true
  pub applied : apply env.go (command at) before ≡ q
  pub replaced : w₁.animals ≡ update (has_id q.id) (λ old. q) w.animals

module _ {A : Type 0} {Post : A → World → Type 0} (env : Env) where
  Returns-draw : (f : ℕ → A) (w : World) → Post (f w.tick) (after w) → Returns (draw f) w Post
  unfolding draw
  Returns-draw f w h = record { at = λ a e. subst (λ x. Post x (after w)) (ok-inj e) h }

  Returns-request :
      (m : Animals A) (w : World) → Returns m (after w) Post → Returns (request env m) w Post
  unfolding request
  Returns-request m w km = record {
    at = λ a e. met-answered outside Post (env.fate w.tick) (m (after w)) (after w) a e km.at;
  }

-- What an update gives, whether or not the row is there.
abbrev outcome : Bool → Profile → World → World → Result ServiceError Profile × World
outcome there q w w₁ = if there then (ok q, w₁) else (err (domain not_found), w)

found-ok : {A : Type 0} (o : Option A) {a : A} → or_not_found o ≡ ok a → o ≡ some a
found-ok none h = absurd cc
found-ok (some b) h = cc

update-ok :
    (there : Bool) (q : Profile) (w w₁ : World) (Post : Profile → World → Type 0) {a : Profile}
    → (outcome there q w w₁).0 ≡ ok a
    → Post q w₁
    → Post a (outcome there q w w₁).1
update-ok true q w w₁ Post e h = subst (λ x. Post x w₁) (ok-inj e) h
update-ok false q w w₁ Post e h = absurd cc

Returns-get :
    (env : Env) (id : Text) (w : World) {Post : Profile → World → Type 0}
    → ((p : Profile) (w₁ : World)
        → find (has_id id) w.animals ≡ some p
        → w₁.animals ≡ w.animals
        → Post p w₁)
    → Returns (get env id) w Post
unfolding get get_row
Returns-get env id w given = Returns-bind _ _ w (
    Returns-guard _ _ w λ b.
      Returns-request env _ _
        (record { at = λ p e. given p (after w) (found-ok (find (has_id id) w.animals) e) refl }))

Returns-get_owned :
    (env : Env) (animal_id actor_id : Text) (w : World) {Post : Profile → World → Type 0}
    → ((p : Profile) (w₁ : World)
        → find (has_id animal_id) w.animals ≡ some p
        → text_eq p.owner_profile_id (trim_space actor_id) ≡ true
        → w₁.animals ≡ w.animals
        → Post p w₁)
    → Returns (get_owned env animal_id actor_id) w Post
unfolding get_owned
Returns-get_owned env animal_id actor_id w given = Returns-bind _ _ w (
    Returns-guard _ _ w λ b. Returns-bind _ _ w (
      Returns-get env animal_id w λ p w₁ found same.
        Returns-bind _ _ w₁
          (Returns-guard _ _ w₁ λ owner. Returns-pure p w₁ (given p w₁ found (ground arith) same))))

Returns-update_row :
    (q : Profile) (w : World) {Post : Profile → World → Type 0}
    → Post q (record w { animals = update (has_id q.id) (λ old. q) w.animals })
    → Returns (update_row q) w Post
unfolding update_row
Returns-update_row q w {Post} h = record {
  at = λ a e. update-ok (exists (has_id q.id) w.animals) q w _ Post e h;
}

of_domain-ok : {A : Type 0} (r : Result AnimalError A) {a : A} → of_domain r ≡ ok a → r ≡ ok a
of_domain-ok (ok b) h = cc
of_domain-ok (err e) h = absurd cc

pub Returns-change_owned :
    (env : Env) (animal_id actor_id : Text) (change : ℕ → Profile → Result AnimalError Profile)
    (command : ℕ → Command) (w : World)
    → ((at : ℕ) (p q : Profile) → change at p ≡ ok q → apply env.go (command at) p ≡ q)
    → Returns
        (change_owned env animal_id actor_id change)
        w
        (λ (both : Profile × Profile) w₁. IsOwnersChange env actor_id animal_id command w w₁ both.1)
unfolding change_owned now
Returns-change_owned env animal_id actor_id change command w same = Returns-bind _ _ w (
    Returns-get_owned env animal_id actor_id w λ p w₁ found owned kept. Returns-bind _ _ w₁ (
      Returns-draw env env.clock w₁ (
        Returns-bind _ _ _ (
          Returns-lift _ _ λ q changed. Returns-bind _ _ _ (
            Returns-request env _ _ (
              Returns-update_row q _ (
                Returns-pure _ _ (record {
                  before = p;
                  at = env.clock w₁.tick;
                  found = found;
                  owned = owned;
                  applied =
                      same (env.clock w₁.tick) p q
                        (of_domain-ok (change (env.clock w₁.tick) p) changed);
                  replaced = ap (update (has_id q.id) (λ old. q)) kept;
                }))))))))

-- The table of animals is the given one.
record Same (animals : List Profile) (w : World) : Type 0 where
  eq : w.animals ≡ animals

module _ {animals : List Profile} where
  Keeps-draw : {A : Type 0} (f : ℕ → A) → Keeps (Same animals) (draw f)
  unfolding draw
  Keeps-draw f = record { at = λ w h. record { eq = h.eq } }

  Keeps-request :
      (env : Env) {A : Type 0} (m : Animals A)
      → Keeps (Same animals) m
      → Keeps (Same animals) (request env m)
  unfolding request
  Keeps-request env m km = record {
    at = λ w h.
        let h₁ : Same animals (after w) = record { eq = h.eq } in
        met-kept outside (Same animals) (env.fate w.tick) (m (after w)) (after w)
          (km.at (after w) h₁) h₁;
  }

  Keeps-publish_event : (e : Event) → Keeps (Same animals) (publish_event e)
  unfolding publish_event
  Keeps-publish_event e = record { at = λ w h. record { eq = h.eq } }

  Keeps-register : (key id : Text) → Keeps (Same animals) (register_idempotency key id)
  unfolding register_idempotency
  Keeps-register key id = record { at = λ w h. record { eq = ground (arith, h.eq) } }

  ruleset port_rules = (keeps_rules, Keeps-draw, Keeps-request, Keeps-publish_event, Keeps-register)

  Keeps-announce :
      (env : Env) (t : Text) (p : Profile) (f : Event → Event)
      → Keeps (Same animals) (announce env t p f)
  unfolding announce new_event new_id now
  Keeps-announce env t p f = search port_rules depth 10

pub Returns-announce :
    (env : Env) (t : Text) (p : Profile) (f : Event → Event) (w : World)
    → Returns (announce env t p f) w (λ u w₁. w₁.animals ≡ w.animals)
Returns-announce env t p f w =
    Returns-weaken
      (Keeps-Returns {P = Same w.animals} (Keeps-announce env t p f) (record { eq = refl }))
      λ u w₁ h. h.eq

pub Returns-register :
    (env : Env) (key id : Text) (w : World)
    → Returns (request env (register_idempotency key id)) w (λ u w₁. w₁.animals ≡ w.animals)
Returns-register env key id w =
    Returns-weaken
      (Keeps-Returns {P = Same w.animals} (Keeps-request env _ (Keeps-register key id))
        (record { eq = refl }))
      λ u w₁ h. h.eq

pub later :
    {env : Env} {actor_id animal_id : Text} {command : ℕ → Command} {w w₁ w₂ : World} {q : Profile}
    → IsOwnersChange env actor_id animal_id command w w₁ q
    → w₂.animals ≡ w₁.animals
    → IsOwnersChange env actor_id animal_id command w w₂ q
later c same = record {
  before = c.before;
  at = c.at;
  found = c.found;
  owned = c.owned;
  applied = c.applied;
  replaced = same ∙ c.replaced;
}
