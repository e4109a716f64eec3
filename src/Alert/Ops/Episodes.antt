-- ===== src/Alert/Ops/Episodes.antt =====
-- What the start of a run of the ops rules does to the stamps.
use gghstats.Base.{
  ℕ, suc, Bool, true, false, if◌then◌else◌, List, [], ◌∷◌, ◌++◌, none, some, ◌≡◌, ◌≢◌, refl, arith,
  Bool-cases, inl, inr, In, count, count-append, ◌≤◌, ◌==◌, ap, ◌∙◌,
}
use gghstats.Base.Text.{Text, text_eq, text_eq_iff}
use gghstats.Store.{Db, Date, failures}
use gghstats.Store.Debounce.{
  alert_debounce_get, alert_debounce_delete, get-set_self, get-delete_self, get-delete_other,
}
use gghstats.Alert.{FloatOps, RuleSpec}
use gghstats.Alert.Rules.{debounce_mode, identity_key}
use gghstats.Alert.Delivery.{should_fire, stamp_is_day}
use gghstats.Alert.Traffic.{EvalConfig}
use gghstats.Alert.Ops.{
  SyncSnapshot, consecutive_key, stamp_count, update_consecutive_failures,
  clear_upstream_stale_debounce, is_stale_rule, before_rules,
}

abbrev bar : ℕ → Bool
bar c = c == b'|'

more_bars : (s t : Text) → suc (count bar t) ≤ count bar (s ++ (b'|' ∷ t))
more_bars s t = let e = count-append bar s (b'|' ∷ t) in ground arith

-- A rule's key has six bars or more, the counter's key two.
pub identity_key-counter :
    {F : Type 0} (ops : FloatOps F) (r : RuleSpec F) (s : Text)
    → identity_key ops r s ≢ consecutive_key
unfolding identity_key
identity_key-counter {F} ops r s e =
    let t6 = debounce_mode r in
    let t5 = ops.format_g r.value ++ (b'|' ∷ t6) in
    let t4 = r.op ++ (b'|' ∷ t5) in
    let t3 = r.window ++ (b'|' ∷ t4) in
    let t2 = r.metric ++ (b'|' ∷ t3) in
    let t1 = s ++ (b'|' ∷ t2) in
    let two : count bar (r.kind ++ (b'|' ∷ t1)) ≡ 2 = ap (count bar) e in
    let b1 = more_bars r.kind t1 in
    let b2 = more_bars s t2 in let b3 = more_bars r.metric t3 in absurd (omega arith)

delete_none :
    (db : Db) (key other : Text)
    → alert_debounce_get db key ≡ none
    → alert_debounce_get (alert_debounce_delete db other) key ≡ none
delete_none db key other h = elim (Bool-cases (text_eq other key)) [
  | inl e ↦
      let same : other ≡ key = ground (arith, text_eq_iff other key) in
      rw same (get-delete_self db key)
  | inr e ↦
      let n : other ≢ key = ground (arith, text_eq_iff other key) in
      get-delete_other db other key n ∙ h
]

module _ {F : Type 0} (ops : FloatOps F) where
  clear_none :
      (rs : List (RuleSpec F)) (db : Db) (key : Text)
      → alert_debounce_get db key ≡ none
      → alert_debounce_get (clear_upstream_stale_debounce ops rs db) key ≡ none
  unfolding clear_upstream_stale_debounce
  clear_none [] db key h = h
  clear_none (r ∷ rs) db key h =
      clear_none rs
        (if is_stale_rule r then alert_debounce_delete db (identity_key ops r r.event) else db) key
        (ground (arith, delete_none db key (identity_key ops r r.event)))

  clear_counter :
      (rs : List (RuleSpec F)) (db : Db)
      → alert_debounce_get (clear_upstream_stale_debounce ops rs db) consecutive_key
        ≡ alert_debounce_get db consecutive_key
  unfolding clear_upstream_stale_debounce
  clear_counter [] db = refl
  clear_counter (r ∷ rs) db =
      clear_counter rs
        (if is_stale_rule r then alert_debounce_delete db (identity_key ops r r.event) else db)
      ∙ ground (
        arith,
        get-delete_other db (identity_key ops r r.event) consecutive_key
            (identity_key-counter ops r r.event),
      )

  clear_rule :
      (rs : List (RuleSpec F)) (r : RuleSpec F) (db : Db)
      → In r rs
      → is_stale_rule r ≡ true
      → alert_debounce_get (clear_upstream_stale_debounce ops rs db) (identity_key ops r r.event)
        ≡ none
  unfolding clear_upstream_stale_debounce
  clear_rule [] r db i h = elim i [ ]
  clear_rule (x ∷ rs) r db (inl e) h =
      let hx : is_stale_rule x ≡ true = rw e h in
      let k : identity_key ops x x.event ≡ identity_key ops r r.event =
        ap (λ (y : RuleSpec F). identity_key ops y y.event) e in
      clear_none rs
        (if is_stale_rule x then alert_debounce_delete db (identity_key ops x x.event) else db)
        (identity_key ops r r.event) (rw (hx, k) (get-delete_self db (identity_key ops r r.event)))
  clear_rule (x ∷ rs) r db (inr i) h =
      clear_rule rs r
        (if is_stale_rule x then alert_debounce_delete db (identity_key ops x x.event) else db) i h

  -- Before the rules of a sync whose fleet is not stuck, every `upstream_stale` rule has lost its
  -- stamp, so that its next alert may fire whatever its mode and the day.
  pub before_rules-episode :
      (cfg : EvalConfig F) (snap : SyncSnapshot) (db : Db) (r : RuleSpec F) (mode : Text)
      (today : Date)
      → In r cfg.rules
      → is_stale_rule r ≡ true
      → snap.upstream_stale ≡ false
      → should_fire (before_rules ops cfg snap db) (identity_key ops r r.event) mode today ≡ true
  unfolding before_rules should_fire stamp_is_day
  before_rules-episode cfg snap db r mode today i h n =
      let c = clear_rule cfg.rules r (update_consecutive_failures db snap.success).1 i h in
      ground (arith, c)

  -- The counter that the rules of a sync see, and that the next sync starts from, is 0 after a
  -- successful sync and one more than before after a failed one.
  pub before_rules-counter :
      (cfg : EvalConfig F) (snap : SyncSnapshot) (db : Db)
      → let n = (update_consecutive_failures db snap.success).0 in
        (n
          ≡ (if snap.success then 0 else suc (stamp_count (alert_debounce_get db consecutive_key))))
        × (alert_debounce_get (before_rules ops cfg snap db) consecutive_key ≡ some (failures n))
  unfolding before_rules update_consecutive_failures
  before_rules-counter cfg snap db =
      let c = clear_counter cfg.rules (update_consecutive_failures db snap.success).1 in
      let n = suc (stamp_count (alert_debounce_get db consecutive_key)) in
      let g0 = get-set_self db consecutive_key (failures 0) in
      let g1 = get-set_self db consecutive_key (failures n) in
      (ground arith, ground (arith, c, g0, g1))
