-- ===== src/Alert/Milestones/Rungs.antt =====
-- Which rungs of a ladder are delivered, and how often.
use gghstats.Base.{
  ℕ, Bool, true, false, if◌then◌else◌, List, [], ◌∷◌, ◌++◌, append_assoc, append-nil, any, ◌==◌,
  Option, none, some, ◌≡◌, ◌≢◌, refl, sym, ap, ◌∙◌, arith, Bool-cases, Option-cases, inl, inr, All,
}
use gghstats.Store.{Db, Stamp, day_of}
use gghstats.Store.Debounce.{alert_debounce_get}
use gghstats.Alert.{RuleSpec, Payload}
use gghstats.Alert.Rules.{milestone_identity_key}
use gghstats.Alert.Rules.Keys.{milestone_identity_key-injective}
use gghstats.Alert.Delivery.{Delivery, World, fire_payload, fan_out}
use gghstats.Alert.Delivery.Debounce.{
  Attempt, once, fire_stamped, fired_stamp, fire_payload-other_key, fire_unstamped,
}
use gghstats.Alert.Traffic.{EvalConfig}
use gghstats.Alert.Milestones.{milestone_payload, fire_rungs}

module _ {F : Type 0} (cfg : EvalConfig F) (r : RuleSpec F) where
  abbrev pub Delivers : Type 0
  Delivers = (p : Payload) → (fan_out cfg.senders p).1 ≡ true

  abbrev pub stamp_of : Db → ℕ → Option Stamp
  stamp_of db t = alert_debounce_get db (milestone_identity_key r t)

  abbrev pub fire_rung : ℕ → World → World
  fire_rung t w =
      fire_payload cfg.senders (milestone_identity_key r t) once (day_of cfg.now)
        (milestone_payload cfg r t) w

  unfoldable pub rung_deliveries : Option Stamp → ℕ → List Delivery
  rung_deliveries none t = (fan_out cfg.senders (milestone_payload cfg r t)).0
  rung_deliveries (some s) t = []

  -- The deliveries of the rungs that have no stamp, in their order.
  unfoldable pub due_deliveries : Db → List ℕ → List Delivery
  due_deliveries db [] = []
  due_deliveries db (t ∷ ts) = rung_deliveries (stamp_of db t) t ++ due_deliveries db ts

  abbrev pub once_each : List ℕ → Bool
  once_each [] = true
  once_each (t ∷ ts) = if any (λ n. n == t) ts then false else once_each ts

  fire_rung-other : (t n : ℕ) (w : World) → t ≢ n → stamp_of (fire_rung t w).db n ≡ stamp_of w.db n
  fire_rung-other t n w h =
      fire_payload-other_key cfg.senders (milestone_identity_key r t) (milestone_identity_key r n)
        once (day_of cfg.now) (milestone_payload cfg r t) w
        (λ e. h (milestone_identity_key-injective r t n e))

  due-other :
      (t : ℕ) (ts : List ℕ) (w : World)
      → any (λ n. n == t) ts ≡ false
      → due_deliveries (fire_rung t w).db ts ≡ due_deliveries w.db ts
  unfolding due_deliveries
  due-other t [] w h = refl
  due-other t (n ∷ ts) w h =
      let d : t ≢ n = ground arith in
      ap (λ o. rung_deliveries o n ++ due_deliveries (fire_rung t w).db ts)
        (fire_rung-other t n w d)
      ∙ ap (λ l. rung_deliveries (stamp_of w.db n) n ++ l) (due-other t ts w (ground arith))

  fire_rung-sent :
      (t : ℕ) (w : World) → (fire_rung t w).sent ≡ w.sent ++ rung_deliveries (stamp_of w.db t) t
  unfolding rung_deliveries
  fire_rung-sent t w =
      let a : Attempt = record {
        senders = cfg.senders;
        today = day_of cfg.now;
        payload = milestone_payload cfg r t;
      } in
      let key = milestone_identity_key r t in
      elim (Option-cases (stamp_of w.db t)) [
        | inl e ↦ ground (arith, e, fire_unstamped key a w e)
        | inr (s, e) ↦ ground (arith, e, fire_stamped key s a w e, append-nil w.sent)
      ]

  -- The rungs that are reached, each one listed once, are delivered in their order: to every sender
  -- exactly once when the rung has no stamp, and to none when it has one.
  pub fire_rungs-due :
      (ts : List ℕ) (w : World)
      → once_each ts ≡ true
      → (fire_rungs cfg r ts w).sent ≡ w.sent ++ due_deliveries w.db ts
  unfolding fire_rungs due_deliveries
  fire_rungs-due [] w o = sym (append-nil w.sent)
  fire_rungs-due (t ∷ ts) w o =
      fire_rungs-due ts (fire_rung t w) (ground arith)
      ∙ ap (λ l. l ++ due_deliveries (fire_rung t w).db ts) (fire_rung-sent t w)
      ∙ ap (λ l. (w.sent ++ rung_deliveries (stamp_of w.db t) t) ++ l)
          (due-other t ts w (ground arith))
      ∙ append_assoc w.sent (rung_deliveries (stamp_of w.db t) t) (due_deliveries w.db ts)

  abbrev pub IsStamped : Db → ℕ → Type 0
  IsStamped db t = (s : Stamp) × (stamp_of db t ≡ some s)

  fire_rung-keeps : (t n : ℕ) (w : World) → IsStamped w.db n → IsStamped (fire_rung t w).db n
  fire_rung-keeps t n w (s, e) = elim (Bool-cases (t == n)) [
    | inl q ↦
        let a : Attempt = record {
          senders = cfg.senders;
          today = day_of cfg.now;
          payload = milestone_payload cfg r t;
        } in
        let same : t ≡ n = ground arith in
        (s, rw (fire_stamped (milestone_identity_key r t) s a w (rw same e)) e)
    | inr q ↦ let d : t ≢ n = ground arith in (s, fire_rung-other t n w d ∙ e)
  ]

  rungs-keep :
      (ts : List ℕ) (n : ℕ) (w : World) → IsStamped w.db n → IsStamped (fire_rungs cfg r ts w).db n
  unfolding fire_rungs
  rungs-keep [] n w h = h
  rungs-keep (t ∷ ts) n w h = rungs-keep ts n (fire_rung t w) (fire_rung-keeps t n w h)

  rungs-IsStamped :
      (ts : List ℕ) (w : World) → Delivers → All (IsStamped (fire_rungs cfg r ts w).db) ts
  unfolding fire_rungs
  rungs-IsStamped [] w h = tt
  rungs-IsStamped (t ∷ ts) w h = (
    rungs-keep ts t (fire_rung t w) (
        fired_stamp cfg.senders (milestone_identity_key r t) (day_of cfg.now)
          (milestone_payload cfg r t) w (h (milestone_payload cfg r t))),
    rungs-IsStamped ts (fire_rung t w) h,
  )

  rungs-silent :
      (later : EvalConfig F) (ts : List ℕ) (w : World)
      → All (IsStamped w.db) ts
      → fire_rungs later r ts w ≡ w
  unfolding fire_rungs
  rungs-silent later [] w h = refl
  rungs-silent later (t ∷ ts) w ((s, e), h) =
      let a : Attempt = record {
        senders = later.senders;
        today = day_of later.now;
        payload = milestone_payload later r t;
      } in
      let q = fire_stamped (milestone_identity_key r t) s a w e in rw q (rungs-silent later ts w h)

  -- When every sender delivers, a later run over the same rungs calls no sender and changes
  -- nothing, whatever its senders and its day.
  pub fire_rungs-again :
      (ts : List ℕ) (later : EvalConfig F) (w : World)
      → Delivers
      → fire_rungs later r ts (fire_rungs cfg r ts w) ≡ fire_rungs cfg r ts w
  fire_rungs-again ts later w h =
      rungs-silent later ts (fire_rungs cfg r ts w) (rungs-IsStamped ts w h)
