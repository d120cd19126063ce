-- ===== src/Store/Users.antt =====
-- internal/store/users.sql.go, mandates.sql.go and trusted_merchants.sql.go: the queries that the
-- payments rest on.
use mathlib.Core.Option
use echopay.Common.{
  ℕ, ◌+◌, ◌^◌, Bool, true, false, ◌&&◌, List, [], ◌∷◌, find?, select, ltb, ◌==◌, if◌then◌else◌,
}
use echopay.Store.Models.{User, Mandate, Payment, PaymentStatus}
use echopay.World.{ok, err, failure}
use echopay.Action.{Action, query}
use echopay.Store.Query.{found, select_one}

unfoldable pub get_user_by_id : ℕ → Action User
get_user_by_id id = select_one (λ w. w.users) (λ u. u.id == id)

unfoldable pub get_mandate_by_id : ℕ → Action Mandate
get_mandate_by_id id = select_one (λ w. w.mandates) (λ m. m.id == id)

-- status IN ('initiated', 'debiting', 'transferring', 'settled')
abbrev pub counts_as_sent : PaymentStatus → Bool
counts_as_sent PaymentStatus.initiated = true
counts_as_sent PaymentStatus.debiting = true
counts_as_sent PaymentStatus.transferring = true
counts_as_sent PaymentStatus.settled = true
counts_as_sent _ = false

-- nanoseconds
abbrev pub hours_24 : ℕ
hours_24 = 86_400_000_000_000

-- sender_user_id = $1 AND … AND created_at > NOW() - INTERVAL '24 hours'
abbrev pub is_sent_by : ℕ → ℕ → Payment → Bool
is_sent_by user t p =
    p.sender_user_id == user && counts_as_sent p.status && ltb t (p.created_at + hours_24)

abbrev pub sum_amounts : List Payment → ℕ
sum_amounts [] = 0
sum_amounts (p ∷ ps) = p.amount_kobo + sum_amounts ps

-- one more than the largest int64
abbrev pub int64_limit : ℕ
int64_limit = 2 ^ 63

-- the cast to BIGINT fails when the sum does not fit
unfoldable pub sum_user_sent_last_24h : ℕ → Action ℕ
sum_user_sent_last_24h user = query λ t u w.
    let total = sum_amounts (select (is_sent_by user t) w.payments) in
    (if ltb total int64_limit then ok total else err (failure "bigint out of range"), w)

unfoldable pub get_trusted_merchant_cap : ℕ → ℕ → Action ℕ
get_trusted_merchant_cap user merchant = query λ t u w. (
  found (
      Option.map (λ m. m.per_tx_cap_kobo)
        (find? (λ m. m.user_id == user && m.merchant_user_id == merchant) w.trusted_merchants)),
  w,
)
