-- ===== src/Notify/Tests.antt =====
-- The theorems of the model of backend/notification-service, at concrete calls.
use capibarco.Base.{
  ℕ, ◌≡◌, ◌⊎◌, ◌≤◌, refl, true, false, ◌&&◌, Option, none, some, [], ◌∷◌, arith, exists, length,
  if◌then◌else◌,
}
use capibarco.Base.Text.{Text, lit, text_eq, is_blank, trim_space, trim_left, trim_right, is_space}
use capibarco.Base.Table.{find}
use capibarco.Base.Result.{ok, err}
use capibarco.Base.Action.Ports.{answered}
use capibarco.Notify.Domain.{
  Notification, Preference, default_preference, chat_message, outside, push, in_app, pending,
}
use capibarco.Notify.Channels.{
  apply_preference, apply_preference_lem, has_channel, may_use, in_quiet_hours, is_distinct,
}
use capibarco.Notify.Wording.{summarize_text, summarize_text_bounds}
use capibarco.Notify.Outside.{Env, World, after}
use capibarco.Notify.Store.{has_key}
use capibarco.Notify.Service.{validate_notification, create_notification}
use capibarco.Notify.Handlers.{BoostMessage}
use capibarco.Notify.Once.{requests_for}
use capibarco.Notify.Replay.{create_call, boost_call, run, requested_once, create_replays}

abbrev evening : Preference
evening = record (default_preference (lit "p")) {
  quiet_hours_enabled = true;
  quiet_hours_start = lit "22:00";
  quiet_hours_end = lit "07:00";
}

abbrev parse : Text → Option ℕ
parse s = if text_eq s (lit "22:00") then some 1320 else some 420

apply_preference_lem_example :
    (has_channel push (apply_preference parse evening (push ∷ in_app ∷ push ∷ []) 1400) ≡ (
      true
      && (has_channel push (push ∷ in_app ∷ push ∷ [])
          && may_use evening (in_quiet_hours parse evening 1400) push)))
    × (is_distinct (apply_preference parse evening (push ∷ in_app ∷ push ∷ []) 1400) ≡ true)
apply_preference_lem_example =
    apply_preference_lem parse evening (push ∷ in_app ∷ push ∷ []) 1400 push

summarize_text_bounds_example : length (summarize_text (lit " hello ") (lit "none")) ≤ 120
summarize_text_bounds_example = summarize_text_bounds (lit " hello ") (lit "none") (omega arith)

abbrev note : Notification
note = record {
  id = lit "n1";
  recipient_profile_id = lit "p";
  kind = chat_message;
  channels = push ∷ [];
  title = lit "title";
  body = lit "body";
  fields = [];
  status = pending;
  read_at = none;
  created_at = 1;
  idempotency_key = lit "k";
}

abbrev test_env : Env
test_env = record {
  fate = λ n. answered;
  clock = λ n. n;
  fresh = λ n. n ∷ [];
  minute_of_day = λ n. n;
  parse_clock = parse;
  topic_prefix = [];
}

-- The notification is stored and was not delivered.
abbrev start : World
start = record {
  tick = 0;
  devices = [];
  notifications = note ∷ [];
  preferences = [];
  published = [];
  streams = [];
}

there : exists (has_key (lit "p") (lit "k")) start.notifications ≡ true
unfolding text_eq is_blank trim_space trim_left trim_right is_space
there = refl

abbrev boost : BoostMessage
boost = record { boost_id = lit "b"; animal_id = lit "a"; owner_profile_id = lit "p" }

requested_once_example :
    (exists
        (has_key (lit "p") (lit "k"))
        (run test_env
          (create_call note ∷ boost_call (some (lit "k", [])) (some boost) ∷ [])
          start).notifications
      ≡ true)
    × (requests_for
          (lit "p")
          (lit "k")
          (run test_env
            (create_call note ∷ boost_call (some (lit "k", [])) (some boost) ∷ [])
            start).published
        ≡ requests_for (lit "p") (lit "k") [])
requested_once_example =
    requested_once test_env (create_call note ∷ boost_call (some (lit "k", [])) (some boost) ∷ [])
      (lit "p") (lit "k") start there

valid : validate_notification note ≡ ok tt
unfolding validate_notification is_blank trim_space trim_left trim_right is_space
valid = refl

keyed : is_blank note.idempotency_key ≡ false
unfolding is_blank trim_space trim_left trim_right is_space
keyed = refl

abbrev boosted : World
boosted = run test_env (boost_call (some (lit "k", [])) (some boost) ∷ []) start

create_replays_example :
    ((create_notification test_env note boosted).1 ≡ after boosted)
    × (existing : Notification) × (find (has_key (lit "p") (lit "k")) boosted.notifications
        ≡ some existing)
    × (((create_notification test_env note boosted).0 ≡ ok existing)
        ⊎ ((create_notification test_env note boosted).0 ≡ err outside))
create_replays_example =
    create_replays test_env (boost_call (some (lit "k", [])) (some boost) ∷ []) note start valid
      keyed there
