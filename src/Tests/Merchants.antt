-- ===== src/Tests/Merchants.antt =====
-- Trusted merchants, on a small database.
use Prim.Native.Nat.{min}
use echopay.Common.{ℕ, true, some, [], ◌∷◌, ◌≡◌, ◌≢◌, refl, pos, is_positive}
use echopay.Store.Models.{TrustedMerchant}
use echopay.Store.Trusted.{upsert_trusted_merchant}
use echopay.World.{World, ok}
use echopay.Action.{pure, raise, query, ◌>>=◌, require}
use echopay.Risk.Trusted.{upsert, effective_cap}
use echopay.Risk.Trusted.Upserted.{upsert-effective_cap}
use echopay.Tests.Data.{trusted, empty_world, sunny}

abbrev lowered : TrustedMerchant
lowered = record trusted {
  per_tx_cap_kobo = 40_000;
  label = some "kiosk";
  updated_at = sunny.time 0;
}

abbrev lowered_world : World
lowered_world = record empty_world { turn = 1; trusted_merchants = lowered ∷ [] }

cap_lowered : upsert 1 2 (pos 40_000) "kiosk" sunny empty_world ≡ (ok lowered, lowered_world)
unfolding upsert upsert_trusted_merchant require query ◌>>=◌ pure raise
cap_lowered = refl

upsert-effective_cap_example :
    (◌≢◌ {A = ℕ} 1 2)
    × (is_positive (pos 40_000) ≡ true)
    × (effective_cap 1 2 100_000 sunny lowered_world
        ≡ (ok (min 40_000 100_000), record lowered_world { turn = 2 }))
upsert-effective_cap_example =
    upsert-effective_cap 1 2 100_000 (pos 40_000) "kiosk" sunny sunny empty_world lowered_world
      lowered_world lowered cap_lowered refl refl
