-- ===== src/Alert/Delivery.antt =====
-- Debounced delivery: `FanOut` of internal/alert/sender.go, `shouldFire` and `markFired` of
-- internal/alert/evaluate.go, and the body that the three loops over rules share.
pub mod Debounce
use gghstats.Base.{
  ℕ, Bool, true, false, not, ◌==◌, if◌then◌else◌, List, [], ◌∷◌, ◌++◌, Option, none, some, any,
}
use gghstats.Base.Text.{Text, lit, text_eq}
use gghstats.Base.Results.{Result, ok, err}
use gghstats.Store.{Db, Date, Stamp, on_day, fired, failures}
use gghstats.Store.Debounce.{alert_debounce_get, alert_debounce_set}
use gghstats.Alert.{Payload}

-- A destination: its type, and the error of a delivery, `none` for nil.
pub record Sender : Type 0 where
  pub type : Text
  pub send : Payload → Option Text

-- One call of `Send`, by the sender's type, with its payload and whether it succeeded.
pub record Delivery : Type 0 where
  pub sender : Text
  pub payload : Payload
  pub delivered : Bool

-- The database, and the deliveries so far, the earliest first.
pub record World : Type 0 where
  pub db : Db
  pub sent : List Delivery

abbrev pub delivery_of : Payload → Sender → Delivery
delivery_of p s = record {
  sender = s.type;
  payload = p;
  delivered = elim (s.send p) [ none ↦ true | some e ↦ false ];
}

-- The loop of `FanOut`: every sender is called, and the errors are collected.
unfoldable pub send_all : Payload → List Sender → List Delivery
send_all p [] = []
send_all p (s ∷ ss) = delivery_of p s ∷ send_all p ss

unfoldable pub all_delivered : List Delivery → Bool
all_delivered [] = true
all_delivered (d ∷ ds) = if d.delivered then all_delivered ds else false

-- The deliveries, and whether the result is nil.
unfoldable pub fan_out : List Sender → Payload → List Delivery × Bool
fan_out senders p = elim senders [
  | [] ↦ ([], false)
  | s ∷ ss ↦ (send_all p (s ∷ ss), all_delivered (send_all p (s ∷ ss)))
]

unfoldable pub stamp_is_day : Date → Option Stamp → Bool
stamp_is_day today none = false
stamp_is_day today (some (on_day d)) = d == today
stamp_is_day today (some fired) = false
stamp_is_day today (some (failures n)) = false

unfoldable pub should_fire : Db → Text → Text → Date → Bool
should_fire db key mode today =
    if text_eq mode (lit "every_sync")
    then true
    else if text_eq mode (lit "once")
    then elim (alert_debounce_get db key) [ none ↦ true | some s ↦ false ]
    else not (stamp_is_day today (alert_debounce_get db key))

unfoldable pub mark_fired : Db → Text → Text → Date → Db
mark_fired db key mode today =
    if text_eq mode (lit "every_sync")
    then db
    else if text_eq mode (lit "once")
    then alert_debounce_set db key fired
    else alert_debounce_set db key (on_day today)

-- `shouldFire`, `FanOut`, `markFired`, for one payload under one key.
unfoldable pub fire_payload : List Sender → Text → Text → Date → Payload → World → World
fire_payload senders key mode today p w =
    if should_fire w.db key mode today
    then record {
      db = if (fan_out senders p).1 then mark_fired w.db key mode today else w.db;
      sent = w.sent ++ (fan_out senders p).0;
    }
    else w
