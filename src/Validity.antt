-- ===== src/Validity.antt =====
-- The invariant of the database: payments have distinct ids and distinct idempotency keys and
-- positive amounts, and behind every ledger entry stands the payment that it is about.
pub mod Rows
pub mod Runs
use echopay.Common.{ℕ, ◌≡◌, ◌<◌, Bool, false, String, List, [], ◌∷◌, ◌==◌, str_eq}
use echopay.Store.Models.{Payment, LedgerEntry}
use echopay.World.{World}
use echopay.Conserves.{Backed}

-- no payment of the table has this id
abbrev pub IdFree : ℕ → List Payment → Type 0
IdFree id [] = Unit
IdFree id (p ∷ ps) = ((p.id == id) ≡ false) × IdFree id ps

-- no payment of the table has this idempotency key
abbrev pub KeyFree : String → List Payment → Type 0
KeyFree key [] = Unit
KeyFree key (p ∷ ps) = (str_eq p.idempotency_key key ≡ false) × KeyFree key ps

abbrev pub IsTable : List Payment → Type 0
IsTable [] = Unit
IsTable (p ∷ ps) = IdFree p.id ps × KeyFree p.idempotency_key ps × (0 < p.amount_kobo) × IsTable ps

-- every entry has a positive amount and is backed
abbrev pub IsLedger : List LedgerEntry → List Payment → Type 0
IsLedger [] ps = Unit
IsLedger (e ∷ es) ps = (0 < e.amount_kobo) × Backed e ps × IsLedger es ps

pub record IsValid (w : World) : Type 0 where
  pub table : IsTable w.payments
  pub ledger : IsLedger w.ledger_entries w.payments
