-- ===== src/Conserves.antt =====
-- What a relation between worlds has to allow so that every service steps by it: one field for each
-- kind of write. The services are walked once, in the children, for every such relation.
pub mod Queries
pub mod Entries
pub mod Payments
pub mod Webhook
pub mod Jobs
use echopay.Common.{
  ℕ, ◌≡◌, Bool, true, none, some, inl, inr, Option-cases, arith, ◌&&◌, List, ◌∷◌, find?, is_some,
  update_where, ltb, ◌==◌,
}
use echopay.Store.Models.{User, Token, Payment, LedgerEntry, Side, AuditEvent, PendingLimitChange}
use echopay.Store.Terms.{SameTerms, PaymentsKept}
use echopay.Store.Payments.{CreatePaymentParams, has_id, accepts, new_payment}
use echopay.World.{World}
use echopay.Action.Steps.{Frame, Sends}

-- the CHECK and the foreign keys of a ledger entry
abbrev pub admits : LedgerEntry → World → Bool
admits e w =
    is_some (find? (λ p. p.id == e.payment_id) w.payments)
    && is_some (find? (λ u. u.id == e.user_id) w.users)
    && ltb 0 e.amount_kobo

-- whose entry it is: the sender is debited and the receiver credited
abbrev pub party : Side → Payment → ℕ
party Side.debit p = p.sender_user_id
party Side.credit p = p.receiver_user_id

-- a payment stands behind the entry: it has its id and its amount, and the user is its party
pub record Backed (e : LedgerEntry) (ps : List Payment) : Type 0 where
  pub row : Payment
  pub found_at : find? (has_id e.payment_id) ps ≡ some row
  pub amount : e.amount_kobo ≡ row.amount_kobo
  pub user : e.user_id ≡ party e.side row

pub record Conserves (R : World → World → Type 0) : Type 0 where
  pub frame : Frame R
  pub sends : Sends R
  pub keeps : (w w' : World) → R w w' → PaymentsKept w.payments w'.payments
  pub payments_change :
      (w : World) (test : Payment → Bool) (change : Payment → Payment)
      → ((p : Payment) → SameTerms p (change p))
      → R w (record w { payments = update_where test change w.payments })
  pub payment_enters :
      (w : World) (t id : ℕ) (a : CreatePaymentParams)
      → accepts id a w ≡ true
      → R w (record w { payments = new_payment t id a ∷ w.payments })
  pub entry_enters :
      (w : World) (e : LedgerEntry)
      → Backed e w.payments
      → admits e w ≡ true
      → R w (record w { ledger_entries = e ∷ w.ledger_entries })
  pub event_enters :
      (w : World) (e : AuditEvent) → R w (record w { audit_events = e ∷ w.audit_events })
  -- the tables that hold no money, the timers, the pushes and the turns may change freely
  pub elsewhere :
      (w w' : World)
      → w.payments ≡ w'.payments
      → w.ledger_entries ≡ w'.ledger_entries
      → w.audit_events ≡ w'.audit_events
      → w.exchanges ≡ w'.exchanges
      → R w w'

-- an accepted row has a fresh id
pub fresh_id :
    (id : ℕ) (a : CreatePaymentParams) (w : World)
    → accepts id a w ≡ true
    → find? (has_id id) w.payments ≡ none
fresh_id id a w h = elim (Option-cases (find? (has_id id) w.payments)) [
  | inl e ↦ e
  | inr (p, e) ↦ ground arith
]
