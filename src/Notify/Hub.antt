-- ===== src/Notify/Hub.antt =====
-- The streamHub of backend/notification-service/internal/app/notification/service.go: one buffered
-- channel for each subscriber. A channel is named by a number, and its buffer holds what was sent and
-- not yet received.
use capibarco.Base.{ℕ, Bool, not, List, [], ◌∷◌, ◌++◌, ltb, ◌==◌, if◌then◌else◌, length, keep}
use capibarco.Base.Text.{Text, text_eq}
use capibarco.Base.Table.{update}
use capibarco.Notify.Domain.{Notification}

pub record Subscription : Type 0 where
  pub recipient : Text
  pub channel : ℕ
  pub buffer : List Notification

-- `make(chan domain.Notification, 8)`
abbrev pub capacity : ℕ
capacity = 8

unfoldable pub subscribe : Text → ℕ → List Subscription → List Subscription
subscribe recipient channel subs =
    subs ++ (record { recipient = recipient; channel = channel; buffer = [] } ∷ [])

abbrev is_channel : ℕ → Subscription → Bool
is_channel channel s = s.channel == channel

unfoldable pub cancel : ℕ → List Subscription → List Subscription
cancel channel subs = keep (λ s. not (is_channel channel s)) subs

-- `select { case ch <- n: default: }`
abbrev pub offer : Notification → Subscription → Subscription
offer n s = if ltb (length s.buffer) capacity then record s { buffer = s.buffer ++ (n ∷ []) } else s

unfoldable pub broadcast : Text → Notification → List Subscription → List Subscription
broadcast recipient n subs = update (λ s. text_eq s.recipient recipient) (offer n) subs
