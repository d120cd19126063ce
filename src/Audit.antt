-- ===== src/Audit.antt =====
-- internal/audit/service.go: `Record` writes an event and swallows the failure. The IP and the user
-- agent are left out: no modelled caller sets them.
pub mod Handler
use echopay.Common.{
  ℕ, ℤ, pos_part, is_positive, leb, ◌&&◌, Bool, String, Option, none, some, List, ◌==◌, str_eq,
  if◌then◌else◌,
}
use echopay.Store.Models.{Meta, AuditEvent}
use echopay.Store.Records.{insert_audit_event, list_user_audit_events}
use echopay.Action.{Action, ignore}

pub record Event : Type 0 where
  pub user_id : ℕ
  pub actor_id : ℕ
  pub action : String
  pub target_typ : String
  pub target_id : String
  pub metadata : List (String × Meta)

abbrev non_empty : String → Option String
non_empty s = if str_eq s "" then none else some s

-- `Record`; `uuid.Nil` is 0
unfoldable pub record_event : Event → Action (Unit {0})
record_event e = ignore (
    insert_audit_event (record {
      user_id = e.user_id;
      actor_user_id = if e.actor_id == 0 then none else some e.actor_id;
      action = e.action;
      target_type = non_empty e.target_typ;
      target_id = non_empty e.target_id;
      metadata = e.metadata;
    }))

-- `List`: a limit of none or of more than 100 is 50, a negative offset is 0
unfoldable pub list_events : ℕ → ℤ → ℤ → Action (List AuditEvent)
list_events user limit offset =
    list_user_audit_events user
      (if is_positive limit && leb (pos_part limit) 100 then pos_part limit else 50)
      (pos_part offset)
