-- ===== src/Notify/Channels.antt =====
-- backend/notification-service/internal/app/notification/service.go: the channels that a recipient's
-- preferences leave. `parse_clock` is `time.Parse("15:04", …)` as minutes of the day.
use capibarco.Base.{
  ℕ, ◌≡◌, ◌≢◌, refl, inl, inr, Bool, true, false, not, ◌&&◌, ◌||◌, Bool-cases, Option, some, List,
  [], ◌∷◌, arith, ltb, leb, ◌==◌, if◌then◌else◌,
}
use capibarco.Base.Text.{Text}
use capibarco.Notify.Domain.{Channel, unspecified, push, in_app, email, Preference}

-- The comparison of the window with the minute of the day.
abbrev pub in_window : ℕ → ℕ → ℕ → Bool
in_window start_minutes end_minutes current =
    if start_minutes == end_minutes
    then false
    else if ltb start_minutes end_minutes
    then leb start_minutes current && ltb current end_minutes
    else leb start_minutes current || ltb current end_minutes

abbrev window_of : Option ℕ → Option ℕ → ℕ → Bool
window_of (some start_minutes) (some end_minutes) current =
    in_window start_minutes end_minutes current
window_of _ _ current = false

unfoldable pub in_quiet_hours : (Text → Option ℕ) → Preference → ℕ → Bool
in_quiet_hours parse_clock pref current =
    if not pref.quiet_hours_enabled
    then false
    else window_of (parse_clock pref.quiet_hours_start) (parse_clock pref.quiet_hours_end) current

-- The branches of the switch.
abbrev pub allows : Preference → Bool → Channel → Bool
allows pref quiet push = pref.push_enabled && not quiet
allows pref quiet email = pref.email_enabled && not quiet
allows pref quiet in_app = pref.in_app_enabled
allows pref quiet unspecified = false

abbrev pub same_channel : Channel → Channel → Bool
same_channel push push = true
same_channel in_app in_app = true
same_channel email email = true
same_channel unspecified unspecified = true
same_channel _ _ = false

abbrev pub has_channel : Channel → List Channel → Bool
has_channel c [] = false
has_channel c (d ∷ ds) = same_channel c d || has_channel c ds

-- The loop of `dedupeChannels`, with what `seen` holds.
abbrev dedupe : List Channel → List Channel → List Channel
dedupe seen [] = []
dedupe seen (c ∷ cs) =
    let rest = dedupe (c ∷ seen) cs in
    let skipped = dedupe seen cs in if has_channel c seen then skipped else c ∷ rest

unfoldable pub dedupe_channels : List Channel → List Channel
dedupe_channels values = dedupe [] values

abbrev allowed : Preference → Bool → List Channel → List Channel
allowed pref quiet [] = []
allowed pref quiet (c ∷ cs) =
    let rest = allowed pref quiet cs in if allows pref quiet c then c ∷ rest else rest

unfoldable pub apply_preference : (Text → Option ℕ) → Preference → List Channel → ℕ → List Channel
unfolding dedupe_channels in_quiet_hours
apply_preference parse_clock pref channels current =
    if pref.muted
    then []
    else dedupe_channels (allowed pref (in_quiet_hours parse_clock pref current) channels)

-- Whether the recipient has the channel switched on.
abbrev is_enabled : Preference → Channel → Bool
is_enabled pref push = pref.push_enabled
is_enabled pref in_app = pref.in_app_enabled
is_enabled pref email = pref.email_enabled
is_enabled pref unspecified = false

-- The rule for a channel: it is switched on, and the hours are not quiet, unless it is in-app.
abbrev pub may_use : Preference → Bool → Channel → Bool
may_use pref quiet c = is_enabled pref c && (same_channel c in_app || not quiet)

allows-may_use :
    (pref : Preference) (quiet : Bool) (c : Channel) → allows pref quiet c ≡ may_use pref quiet c
allows-may_use pref quiet push = refl
allows-may_use pref quiet email = refl
allows-may_use pref quiet in_app = ground arith
allows-may_use pref quiet unspecified = refl

same_channel_eq : (c d : Channel) → same_channel c d ≡ true → c ≡ d
same_channel_eq push push h = refl
same_channel_eq in_app in_app h = refl
same_channel_eq email email h = refl
same_channel_eq unspecified unspecified h = refl
same_channel_eq push in_app h = absurd cc
same_channel_eq push email h = absurd cc
same_channel_eq push unspecified h = absurd cc
same_channel_eq in_app push h = absurd cc
same_channel_eq in_app email h = absurd cc
same_channel_eq in_app unspecified h = absurd cc
same_channel_eq email push h = absurd cc
same_channel_eq email in_app h = absurd cc
same_channel_eq email unspecified h = absurd cc
same_channel_eq unspecified push h = absurd cc
same_channel_eq unspecified in_app h = absurd cc
same_channel_eq unspecified email h = absurd cc

has_channel-allowed :
    (pref : Preference) (quiet : Bool) (c : Channel) (cs : List Channel)
    → has_channel c (allowed pref quiet cs) ≡ (has_channel c cs && allows pref quiet c)
has_channel-allowed pref quiet c [] = refl
has_channel-allowed pref quiet c (d ∷ cs) = elim (Bool-cases (same_channel c d)) [
  | inl e ↦
      let same = same_channel_eq c d e in ground (arith, has_channel-allowed pref quiet c cs, same)
  | inr e ↦ ground (arith, has_channel-allowed pref quiet c cs)
]

has_channel-dedupe :
    (c : Channel) (seen cs : List Channel)
    → has_channel c (dedupe seen cs) ≡ (has_channel c cs && not (has_channel c seen))
has_channel-dedupe c seen [] = refl
has_channel-dedupe c seen (d ∷ cs) = elim (Bool-cases (same_channel c d)) [
  | inl e ↦
      let same = same_channel_eq c d e in
      ground (arith, has_channel-dedupe c (d ∷ seen) cs, has_channel-dedupe c seen cs, same)
  | inr e ↦ ground (arith, has_channel-dedupe c (d ∷ seen) cs, has_channel-dedupe c seen cs)
]

-- No channel stands twice.
unfoldable pub is_distinct : List Channel → Bool
is_distinct [] = true
is_distinct (c ∷ cs) = not (has_channel c cs) && is_distinct cs

same_channel_refl : (c : Channel) → same_channel c c ≡ true
same_channel_refl push = refl
same_channel_refl in_app = refl
same_channel_refl email = refl
same_channel_refl unspecified = refl

dedupe-is_distinct : (seen cs : List Channel) → is_distinct (dedupe seen cs) ≡ true
unfolding is_distinct
dedupe-is_distinct seen [] = refl
dedupe-is_distinct seen (c ∷ cs) = ground (
  arith,
  dedupe-is_distinct seen cs,
  dedupe-is_distinct (c ∷ seen) cs,
  has_channel-dedupe c (c ∷ seen) cs,
  same_channel_refl c,
)

-- The channels left are the requested ones that the preferences allow, each once: none for a muted
-- recipient, push and email only where they are enabled and outside the quiet hours, in-app where it
-- is enabled, even in the quiet hours.
pub apply_preference_lem :
    (parse_clock : Text → Option ℕ) (pref : Preference) (channels : List Channel) (current : ℕ)
    (c : Channel)
    → (has_channel c (apply_preference parse_clock pref channels current) ≡ (
        not pref.muted
        && (has_channel c channels && may_use pref (in_quiet_hours parse_clock pref current) c)))
      × (is_distinct (apply_preference parse_clock pref channels current) ≡ true)
unfolding apply_preference is_distinct
apply_preference_lem parse_clock pref channels current c = ground (
  arith,
  has_channel-dedupe c [] (allowed pref (in_quiet_hours parse_clock pref current) channels),
  has_channel-allowed pref (in_quiet_hours parse_clock pref current) c channels,
  dedupe-is_distinct [] (allowed pref (in_quiet_hours parse_clock pref current) channels),
)

-- Two windows with their ends exchanged split the day: with different ends, a minute is in the quiet
-- hours from `s` to `e` where it is not in those from `e` to `s`, whichever of them runs over midnight.
pub in_window_swap : (s e current : ℕ) → s ≢ e → in_window s e current ≡ not (in_window e s current)
in_window_swap s e current different = ground arith
