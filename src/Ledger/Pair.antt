-- ===== src/Ledger/Pair.antt =====
-- A payment's pair of entries: money in equals money out.
use echopay.Common.{
  ℕ, suc, ◌+◌, ◌≡◌, String, List, [], ◌∷◌, ◌==◌, arith, if◌then◌else◌, Option-cases, inl, inr,
}
use echopay.Store.Models.{LedgerEntry, Side, debit, credit}
use echopay.Store.Records.{insert_ledger_entry}
use echopay.World.{Env, World, ok}
use echopay.Action.{pure, raise, query, ◌>>=◌, handle, within}
use echopay.Ledger.{record_entry, record_payment_pair}

abbrev pub on_side : Side → Side → ℕ → ℕ
on_side debit debit n = n
on_side credit credit n = n
on_side debit credit n = 0
on_side credit debit n = 0

-- the sum of the entries of a payment on one side
abbrev pub side_total : Side → ℕ → List LedgerEntry → ℕ
side_total s payment [] = 0
side_total s payment (e ∷ es) =
    (if e.payment_id == payment then on_side s e.side e.amount_kobo else 0)
    + side_total s payment es

-- A pair that is recorded adds its amount to the debits and to the credits of its payment and
-- changes neither total of another payment: a balanced ledger stays balanced.
pub record_payment_pair-balanced :
    (payment sender receiver amount : ℕ) (ref : String) (env : Env) (w : World) (other : ℕ)
    (s : Side)
    → (record_payment_pair payment sender receiver amount ref env w).0 ≡ ok tt
    → side_total s other
        (record_payment_pair payment sender receiver amount ref env w).1.ledger_entries
      ≡ (if payment == other then amount else 0) + side_total s other w.ledger_entries
unfolding record_payment_pair record_entry insert_ledger_entry query ◌>>=◌ handle within pure raise
record_payment_pair-balanced payment sender receiver amount ref env w other debit done =
    elim (Option-cases (env.database_fault w.turn)) [
      | inl quiet ↦ elim (Option-cases (env.database_fault (suc w.turn))) [
        | inl still ↦ ground arith
        | inr (text, fault) ↦ ground arith
      ]
      | inr (text, fault) ↦ ground arith
    ]
record_payment_pair-balanced payment sender receiver amount ref env w other credit done =
    elim (Option-cases (env.database_fault w.turn)) [
      | inl quiet ↦ elim (Option-cases (env.database_fault (suc w.turn))) [
        | inl still ↦ ground arith
        | inr (text, fault) ↦ ground arith
      ]
      | inr (text, fault) ↦ ground arith
    ]
