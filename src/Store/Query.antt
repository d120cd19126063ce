-- ===== src/Store/Query.antt =====
-- The shapes of the queries: SELECT of one row (:one) or of many (:many), in a table of the world.
use echopay.Common.{ℕ, Bool, Option, none, some, List, find?}
use echopay.World.{World, Result, ok, err, no_rows}
use echopay.Action.{Action, query}

module _ {A : Type 0} where
  -- pgx reports a missing row as an error
  abbrev pub found : Option A → Result A
  found none = err no_rows
  found (some a) = ok a

  unfoldable pub select_one : (World → List A) → (A → Bool) → Action A
  select_one table test = query λ t u w. (found (find? test (table w)), w)

  unfoldable pub select_many : (World → List A) → (ℕ → List A → List A) → Action (List A)
  select_many table pick = query λ t u w. (ok (pick t (table w)), w)
