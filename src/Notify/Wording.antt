-- ===== src/Notify/Wording.antt =====
-- backend/notification-service/internal/app/notification/service.go: the texts of a notification, its
-- recipients, key and topic.
use capibarco.Base.{
  ℕ, ◌≡◌, ◌≤◌, ◌+◌, refl, inl, inr, Bool, true, false, not, ◌&&◌, ◌||◌, Bool-cases, Option, none,
  some, List, [], ◌∷◌, ◌++◌, arith, leb, ◌==◌, leb→le, if◌then◌else◌, length, take, length-append,
  length-take, is_empty,
}
use capibarco.Base.Text.{Text, lit, text_eq, trim_space, is_blank, trim_space_idem, text_eq_refl}

-- A text of more than `limit` characters keeps the first `kept` and gets the dots.
abbrev pub shorten : ℕ → ℕ → Text → Text → Text
shorten limit kept dots text = if leb (length text) limit then text else take kept text ++ dots

unfoldable pub summarize_text : Text → Text → Text
summarize_text text fallback =
    let trimmed = trim_space text in
    if is_empty trimmed then fallback else shorten 120 117 (lit "...") trimmed

shorten-length :
    (limit kept : ℕ) (dots text : Text)
    → kept + length dots ≤ limit
    → length (shorten limit kept dots text) ≤ limit
shorten-length limit kept dots text fits = elim (Bool-cases (leb (length text) limit)) [
  | inl e ↦ rw e (leb→le (length text) limit e)
  | inr e ↦
      rw e
        (omega (arith, length-append (take kept text) dots, length-take kept text (ground arith)))
]

shorten-whole :
    (limit kept : ℕ) (dots text : Text) → length text ≤ limit → shorten limit kept dots text ≡ text
shorten-whole limit kept dots text short = ground arith

-- A summary has at most 120 characters, as long as the fallback has.
pub summarize_text_bounds :
    (text fallback : Text) → length fallback ≤ 120 → length (summarize_text text fallback) ≤ 120
unfolding summarize_text
summarize_text_bounds text fallback short = elim (Bool-cases (is_empty (trim_space text))) [
  | inl e ↦ rw e short
  | inr e ↦ rw e (shorten-length 120 117 (lit "...") (trim_space text) (omega arith))
]

-- The summary of a text that is not blank and has at most 120 characters is the trimmed text.
pub summarize_text_whole :
    (text fallback : Text)
    → is_blank text ≡ false
    → length (trim_space text) ≤ 120
    → summarize_text text fallback ≡ trim_space text
unfolding summarize_text is_blank
summarize_text_whole text fallback given short =
    rw given (shorten-whole 120 117 (lit "...") (trim_space text) short)

-- `strings.Split(s, ",")`, one character at a time.
abbrev pub add_to_first : ℕ → List Text → List Text
add_to_first c [] = (c ∷ []) ∷ []
add_to_first c (part ∷ parts) = (c ∷ part) ∷ parts

unfoldable pub split_commas : Text → List Text
split_commas [] = [] ∷ []
split_commas (c ∷ s) =
    let rest = split_commas s in if c == 0x2c then [] ∷ rest else add_to_first c rest

-- The loop over the parts.
abbrev pub trimmed_parts : List Text → List Text
trimmed_parts [] = []
trimmed_parts (part ∷ parts) =
    let rest = trimmed_parts parts in
    if is_empty (trim_space part) then rest else trim_space part ∷ rest

-- A missing key of a Go map reads as the empty string.
abbrev pub value_at : Text → List (Text × Text) → Text
value_at key [] = []
value_at key ((k, v) ∷ rest) = if text_eq k key then v else value_at key rest

unfoldable pub recipients_of : Text → Text → List Text
recipients_of recipient recipients =
    if not (is_blank recipient)
    then trim_space recipient ∷ []
    else if not (is_blank recipients)
    then trimmed_parts (split_commas (trim_space recipients))
    else []

-- `recipientsFromMessage`, of the metadata of the message
unfoldable pub recipients_from_message : List (Text × Text) → List Text
unfolding recipients_of
recipients_from_message meta =
    recipients_of (value_at (lit "recipient_profile_id") meta)
      (value_at (lit "recipient_profile_ids") meta)

-- Every text is trimmed and not empty.
unfoldable pub all_clean : List Text → Bool
all_clean [] = true
all_clean (s ∷ rest) = not (is_blank s) && (text_eq (trim_space s) s && all_clean rest)

trimmed_parts-all_clean : (parts : List Text) → all_clean (trimmed_parts parts) ≡ true
unfolding all_clean is_blank
trimmed_parts-all_clean [] = refl
trimmed_parts-all_clean (p ∷ parts) =
    ground (arith, trimmed_parts-all_clean parts, trim_space_idem p, text_eq_refl (trim_space p))

-- Every recipient read from the metadata of a message is trimmed and not empty.
pub recipients_clean : (meta : List (Text × Text)) → all_clean (recipients_from_message meta) ≡ true
unfolding recipients_from_message all_clean is_blank
recipients_clean meta =
    let one = value_at (lit "recipient_profile_id") meta in
    let many = value_at (lit "recipient_profile_ids") meta in
    ground (
      arith,
      trimmed_parts-all_clean (split_commas (trim_space many)),
      trim_space_idem one,
      text_eq_refl (trim_space one),
    )

abbrev has_prefix : Text → Text → Option Text
has_prefix [] s = some s
has_prefix (c ∷ p) [] = none
has_prefix (c ∷ p) (d ∷ s) = if c == d then has_prefix p s else none

-- `strings.TrimPrefix`
unfoldable pub trim_prefix : Text → Text → Text
trim_prefix p s = elim (has_prefix p s) [ none ↦ s | some rest ↦ rest ]

unfoldable pub topic_name : Text → Text → Text
topic_name prefix topic =
    if is_blank prefix || text_eq prefix (lit "notification")
    then topic
    else prefix ++ (lit "." ++ trim_prefix (lit "notification.") topic)

-- `envelopeKey`, of the key and the event id of an envelope, if there is one; the last is what
-- `uuid.NewString` returns.
abbrev pub envelope_key : Option (Text × Text) → Text → Text
envelope_key none drawn = drawn
envelope_key (some (key, event_id)) drawn =
    if not (is_blank key)
    then trim_space key
    else if not (is_blank event_id)
    then trim_space event_id
    else drawn
