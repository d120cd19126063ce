-- ===== src/Store/Records.antt =====
-- internal/store/ledger.sql.go and audit_events.sql.go: the two append-only tables, with the CHECK
-- and the foreign keys of the migrations 000006 and 000013.
use echopay.Common.{
  ℕ, String, Bool, true, ◌&&◌, Option, none, some, List, ◌∷◌, find?, select, is_some, sort_by,
  sort_desc_by, take, drop, ltb, ◌==◌, if◌then◌else◌,
}
use echopay.Store.Models.{LedgerEntry, Side, AuditEvent, Meta}
use echopay.World.{World, ok, err, failure}
use echopay.Action.{Action, query}
use echopay.Store.Query.{select_many}

-- payment_id and user_id exist, amount_kobo > 0
unfoldable pub insert_ledger_entry : ℕ → ℕ → Side → ℕ → String → Action LedgerEntry
insert_ledger_entry payment user side amount reference = query λ t id w.
    let row : LedgerEntry = record {
      payment_id = payment;
      user_id = user;
      side = side;
      amount_kobo = amount;
      reference = reference;
      created_at = t;
    } in
    if is_some (find? (λ p. p.id == payment) w.payments)
      && is_some (find? (λ u. u.id == user) w.users)
      && ltb 0 amount
    then (ok row, record w { ledger_entries = row ∷ w.ledger_entries })
    else (err (failure "constraint violated"), w)

-- WHERE payment_id = $1 ORDER BY created_at ASC
unfoldable pub list_payment_ledger : ℕ → Action (List LedgerEntry)
list_payment_ledger payment =
    select_many (λ w. w.ledger_entries)
      (λ _ rows. sort_by (λ e. e.created_at) (select (λ e. e.payment_id == payment) rows))

abbrev is_absent_or_known : Option ℕ → World → Bool
is_absent_or_known none w = true
is_absent_or_known (some id) w = is_some (find? (λ u. u.id == id) w.users)

pub record InsertAuditEventParams : Type 0 where
  pub user_id : ℕ
  pub actor_user_id : Option ℕ
  pub action : String
  pub target_type : Option String
  pub target_id : Option String
  pub metadata : List (String × Meta)

-- user_id exists, and actor_user_id too where there is one
abbrev pub accepts_event : InsertAuditEventParams → World → Bool
accepts_event a w =
    is_some (find? (λ u. u.id == a.user_id) w.users) && is_absent_or_known a.actor_user_id w

unfoldable pub insert_audit_event : InsertAuditEventParams → Action AuditEvent
insert_audit_event a = query λ t id w.
    let row : AuditEvent = record {
      user_id = a.user_id;
      actor_user_id = a.actor_user_id;
      action = a.action;
      target_type = a.target_type;
      target_id = a.target_id;
      created_at = t;
      metadata = a.metadata;
    } in
    if accepts_event a w
    then (ok row, record w { audit_events = row ∷ w.audit_events })
    else (err (failure "constraint violated"), w)

-- WHERE user_id = $1 ORDER BY created_at DESC, id DESC LIMIT $2 OFFSET $3; the newest row, whose id
-- is the largest, stands first
unfoldable pub list_user_audit_events : ℕ → ℕ → ℕ → Action (List AuditEvent)
list_user_audit_events user limit offset =
    select_many (λ w. w.audit_events)
      (λ _ rows.
        take limit
          (drop offset (sort_desc_by (λ e. e.created_at) (select (λ e. e.user_id == user) rows))))
