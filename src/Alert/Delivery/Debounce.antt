-- ===== src/Alert/Delivery/Debounce.antt =====
-- How often a key is delivered, in each debounce mode.
use gghstats.Base.{
  suc, true, false, List, [], ◌∷◌, ◌++◌, none, some, ◌≡◌, ◌≢◌, refl, arith, length, inl, inr,
  Bool-cases, Option-cases, ap,
}
use gghstats.Base.Text.{Text, lit, text_eq, text_eq_iff}
use gghstats.Store.{Date, Stamp, on_day, fired}
use gghstats.Store.Debounce.{alert_debounce_get, get-set_self, get-set_other}
use gghstats.Alert.{Payload}
use gghstats.Alert.Delivery.{
  Sender, World, send_all, fan_out, stamp_is_day, should_fire, mark_fired, fire_payload,
}

-- A later attempt under the same key: its senders, its day and its payload.
pub record Attempt : Type 0 where
  pub senders : List Sender
  pub today : Date
  pub payload : Payload

abbrev pub attempts : Text → Text → List Attempt → World → World
attempts key mode [] w = w
attempts key mode (a ∷ as') w =
    attempts key mode as' (fire_payload a.senders key mode a.today a.payload w)

abbrev pub once : Text
once = lit "once"

abbrev pub every_sync : Text
every_sync = lit "every_sync"

once_facts : (text_eq once every_sync ≡ false) × (text_eq once once ≡ true)
unfolding text_eq
once_facts = (refl, refl)

pub fire_stamped :
    (key : Text) (s : Stamp) (a : Attempt) (w : World)
    → alert_debounce_get w.db key ≡ some s
    → fire_payload a.senders key once a.today a.payload w ≡ w
unfolding fire_payload should_fire
fire_stamped key s a w h = ground (arith, once_facts)

pub fire_unstamped :
    (key : Text) (a : Attempt) (w : World)
    → alert_debounce_get w.db key ≡ none
    → (fire_payload a.senders key once a.today a.payload w).sent
      ≡ w.sent ++ (fan_out a.senders a.payload).0
unfolding fire_payload should_fire
fire_unstamped key a w h = ground (arith, once_facts)

attempts_stamped :
    (key : Text) (s : Stamp) (as' : List Attempt) (w : World)
    → alert_debounce_get w.db key ≡ some s
    → attempts key once as' w ≡ w
attempts_stamped key s [] w h = refl
attempts_stamped key s (a ∷ as') w h =
    rw (fire_stamped key s a w h) (attempts_stamped key s as' w h)

-- After a delivered attempt in mode `once` the key has a stamp.
pub fired_stamp :
    (senders : List Sender) (key : Text) (today : Date) (p : Payload) (w : World)
    → (fan_out senders p).1 ≡ true
    → (s : Stamp) × (alert_debounce_get (fire_payload senders key once today p w).db key ≡ some s)
unfolding fire_payload should_fire mark_fired
fired_stamp senders key today p w delivered = elim (Option-cases (alert_debounce_get w.db key)) [
  | inl n ↦ (fired, ground (arith, once_facts, get-set_self w.db key fired))
  | inr (s, e) ↦ (s, ground (arith, once_facts))
]

-- In mode `once`, after an attempt at which every sender delivers, no attempt under the same key
-- calls a sender or changes the database, whatever its senders, its day and its payload.
pub fire_payload-once :
    (senders : List Sender) (key : Text) (today : Date) (p : Payload) (w : World)
    (later : List Attempt)
    → (fan_out senders p).1 ≡ true
    → attempts key once later (fire_payload senders key once today p w)
      ≡ fire_payload senders key once today p w
fire_payload-once senders key today p w later delivered =
    let (s, e) = fired_stamp senders key today p w delivered in
    attempts_stamped key s later (fire_payload senders key once today p w) e

-- The other modes: a name that is neither `once` nor `every_sync`, such as `once_per_utc_day`.
abbrev pub IsDaily : Text → Type 0
IsDaily mode = (mode ≢ once) × (mode ≢ every_sync)

daily_facts :
    (mode : Text) → IsDaily mode → (text_eq mode every_sync ≡ false) × (text_eq mode once ≡ false)
daily_facts mode h = ground (arith, text_eq_iff mode once, text_eq_iff mode every_sync)

daily_stamp :
    (senders : List Sender) (key mode : Text) (today : Date) (p : Payload) (w : World)
    → IsDaily mode
    → (fan_out senders p).1 ≡ true
    → stamp_is_day today (alert_debounce_get (fire_payload senders key mode today p w).db key)
      ≡ true
unfolding fire_payload should_fire mark_fired stamp_is_day
daily_stamp senders key mode today p w h delivered =
    let f = daily_facts mode h in
    elim (Bool-cases (stamp_is_day today (alert_debounce_get w.db key))) [
      | inl e ↦ ground arith
      | inr e ↦ ground (arith, get-set_self w.db key (on_day today))
    ]

-- In a daily mode, after an attempt at which every sender delivers, another attempt under the same
-- key on the same day calls no sender and changes nothing, and one on any other day calls every
-- sender that it is given.
pub fire_payload-daily :
    (senders senders' : List Sender) (key mode : Text) (today other : Date) (p p' : Payload)
    (w : World)
    → IsDaily mode
    → (fan_out senders p).1 ≡ true
    → should_fire w.db key mode today ≡ true
    → other ≢ today
    → let w' = fire_payload senders key mode today p w in
      (fire_payload senders' key mode today p' w' ≡ w')
      × ((fire_payload senders' key mode other p' w').sent ≡ w'.sent ++ (fan_out senders' p').0)
unfolding fire_payload should_fire mark_fired stamp_is_day
fire_payload-daily senders senders' key mode today other p p' w h delivered fires n =
    let f = daily_facts mode h in
    let g = get-set_self w.db key (on_day today) in (ground arith, ground arith)

send_all-length : (p : Payload) (ss : List Sender) → length (send_all p ss) ≡ length ss
unfolding send_all
send_all-length p [] = refl
send_all-length p (s ∷ ss) = ap suc (send_all-length p ss)

-- When the rule fires and some sender fails, every sender is called all the same, also those that
-- deliver, nothing is stamped, and the next attempt under the same key and mode on that day calls
-- every sender again.
pub fire_payload-failed :
    (s : Sender) (ss senders' : List Sender) (key mode : Text) (today : Date) (p p' : Payload)
    (w : World)
    → (fan_out (s ∷ ss) p).1 ≡ false
    → should_fire w.db key mode today ≡ true
    → let w' = fire_payload (s ∷ ss) key mode today p w in
      (w'.sent ≡ w.sent ++ send_all p (s ∷ ss))
      × (length (send_all p (s ∷ ss)) ≡ length (s ∷ ss))
      × (w'.db ≡ w.db)
      × ((fire_payload senders' key mode today p' w').sent ≡ w'.sent ++ (fan_out senders' p').0)
unfolding fire_payload fan_out
fire_payload-failed s ss senders' key mode today p p' w failed_one fires =
    (ground arith, send_all-length p (s ∷ ss), ground arith, ground arith)

-- A key's attempts leave the stamp of every other key.
pub fire_payload-other_key :
    (senders : List Sender) (key other mode : Text) (today : Date) (p : Payload) (w : World)
    → key ≢ other
    → alert_debounce_get (fire_payload senders key mode today p w).db other
      ≡ alert_debounce_get w.db other
unfolding fire_payload mark_fired
fire_payload-other_key senders key other mode today p w h =
    ground
      (arith, get-set_other w.db key other fired h, get-set_other w.db key other (on_day today) h)
