-- ===== src/Store/Debounce.antt =====
-- The stamps of the alert rules, internal/store/store.go. A key without a row reads as the empty
-- text, which is `none`.
use gghstats.Base.{Bool, true, false, Option, none, some, ◌≡◌, ◌≢◌, arith}
use gghstats.Base.Text.{Text, text_eq, text_eq_iff, text_eq_refl}
use gghstats.Store.{Db, DebounceRow, Stamp}
use gghstats.Store.Table.{
  find_row, upsert, delete_where, find_row-upsert_self, find_row-upsert_other, find_row-delete_self,
  find_row-delete_other,
}

abbrev pub of_key : Text → DebounceRow → Bool
of_key key r = text_eq r.rule_key key

abbrev pub set_stamp : Stamp → DebounceRow → DebounceRow
set_stamp stamp r = record r { stamp = stamp }

abbrev pub debounce_row : Text → Stamp → DebounceRow
debounce_row key stamp = record { rule_key = key; stamp = stamp }

unfoldable pub alert_debounce_get : Db → Text → Option Stamp
alert_debounce_get db key = elim (find_row (of_key key) db.debounce) [
  | none ↦ none
  | some r ↦ some r.stamp
]

unfoldable pub alert_debounce_set : Db → Text → Stamp → Db
alert_debounce_set db key stamp = record db {
  debounce = upsert (of_key key) (set_stamp stamp) (debounce_row key stamp) db.debounce;
}

unfoldable pub alert_debounce_delete : Db → Text → Db
alert_debounce_delete db key = record db { debounce = delete_where (of_key key) db.debounce }

pub get-set_self :
    (db : Db) (key : Text) (stamp : Stamp)
    → alert_debounce_get (alert_debounce_set db key stamp) key ≡ some stamp
unfolding alert_debounce_get alert_debounce_set
get-set_self db key stamp =
    let e =
      find_row-upsert_self (of_key key) (set_stamp stamp) (debounce_row key stamp)
        (text_eq_refl key) (λ r h. h) db.debounce in
    ground arith

other_key :
    (key other : Text) (r : DebounceRow)
    → key ≢ other
    → of_key key r ≡ true
    → of_key other r ≡ false
other_key key other r h e = ground (arith, text_eq_iff r.rule_key key, text_eq_iff r.rule_key other)

pub get-set_other :
    (db : Db) (key other : Text) (stamp : Stamp)
    → key ≢ other
    → alert_debounce_get (alert_debounce_set db key stamp) other ≡ alert_debounce_get db other
unfolding alert_debounce_get alert_debounce_set
get-set_other db key other stamp h =
    let e =
      find_row-upsert_other (of_key other) (of_key key) (set_stamp stamp) (debounce_row key stamp)
        (other_key key other (debounce_row key stamp) h (text_eq_refl key))
        (λ r m. other_key key other r h m) (λ r m. other_key key other (set_stamp stamp r) h m)
        db.debounce in
    ground arith

pub get-delete_self :
    (db : Db) (key : Text) → alert_debounce_get (alert_debounce_delete db key) key ≡ none
unfolding alert_debounce_get alert_debounce_delete
get-delete_self db key = let e = find_row-delete_self (of_key key) db.debounce in ground arith

pub get-delete_other :
    (db : Db) (key other : Text)
    → key ≢ other
    → alert_debounce_get (alert_debounce_delete db key) other ≡ alert_debounce_get db other
unfolding alert_debounce_get alert_debounce_delete
get-delete_other db key other h =
    let e =
      find_row-delete_other (of_key other) (of_key key) (λ r m. other_key key other r h m)
        db.debounce in
    ground arith
