-- ===== src/Tests/Sweeps.antt =====
-- A payment whose transfer the reconciler finds to have landed.
use echopay.Common.{◌≡◌, refl, some, find?, [], ◌∷◌}
use echopay.Store.Models.{Payment, PaymentStatus, PaystackStatus}
use echopay.Store.Payments.{has_id}
use echopay.World.{World}
use echopay.Jobs.Reconciler.{reconcile_transfer}
use echopay.Jobs.Reconciler.Settles.{settled_row, reconcile_transfer-unrecorded}
use echopay.Tests.Data.{held_payment, empty_world, sunny}

-- a payment that is stuck between its transfer and its settlement
abbrev stuck_row : Payment
stuck_row = record held_payment { status = PaymentStatus.settling }

abbrev stuck_world : World
stuck_world = record empty_world { payments = stuck_row ∷ [] }

reconcile_transfer-unrecorded_example :
    let w' = (reconcile_transfer stuck_row sunny stuck_world).1 in
    (find? (has_id 10) w'.payments ≡ some (settled_row (sunny.time 1) stuck_row))
    × (w'.exchanges ≡ [])
    × (w'.ledger_entries ≡ [])
reconcile_transfer-unrecorded_example =
    reconcile_transfer-unrecorded stuck_row stuck_row
      (record { reference = "TXF_10"; status = PaystackStatus.success }) sunny stuck_world refl refl
      refl refl
