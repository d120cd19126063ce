-- ===== src/Ledger.antt =====
-- internal/ledger/service.go: the two entries of a settled payment. The metadata of an entry is left
-- out: no caller sets it.
pub mod Pair
use echopay.Common.{ℕ, String}
use echopay.Store.Models.{LedgerEntry, Side, debit, credit}
use echopay.Store.Records.{insert_ledger_entry}
use echopay.Action.{Action, pure, ◌>>=◌, ◌>>◌, within}

pub record Entry : Type 0 where
  pub payment_id : ℕ
  pub user_id : ℕ
  pub side : Side
  pub amount_kobo : ℕ
  pub reference : String

-- `Record`
unfoldable pub record_entry : Entry → Action LedgerEntry
record_entry e = insert_ledger_entry e.payment_id e.user_id e.side e.amount_kobo e.reference

unfoldable pub record_payment_pair : ℕ → ℕ → ℕ → ℕ → String → Action (Unit {0})
record_payment_pair payment sender receiver amount ref = do
  within "record debit" (
      record_entry (record {
        payment_id = payment;
        user_id = sender;
        side = debit;
        amount_kobo = amount;
        reference = ref;
      }))
  within "record credit" (
      record_entry (record {
        payment_id = payment;
        user_id = receiver;
        side = credit;
        amount_kobo = amount;
        reference = ref;
      }))
  pure tt
