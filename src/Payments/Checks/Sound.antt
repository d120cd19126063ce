-- ===== src/Payments/Checks/Sound.antt =====
-- What a payment that passes the limits satisfies, and what the daily sum leaves out.
use echopay.Common.{
  ℕ, suc, ◌+◌, ◌≤◌, ◌≡◌, false, ◌⊎◌, inl, inr, ◌∷◌, select, ltb, arith, Option-cases, Bool-cases,
}
use echopay.Store.Models.{User, Payment, PaymentStatus}
use echopay.Store.Users.{
  get_trusted_merchant_cap, sum_user_sent_last_24h, is_sent_by, sum_amounts, int64_limit,
}
use echopay.World.{Env, World, ok}
use echopay.Action.{pure, raise, query, ◌>>=◌, handle, within, require}
use echopay.Risk.Trusted.{effective_cap}
use echopay.Risk.Trusted.Cap.{effective_cap-le}
use echopay.Payments.Checks.{enforce_limits}

-- Where `enforceLimits` passes an amount, the amount is at most the sender's limit on one
-- transaction; and what the sender has sent in the last 24 hours, by the statuses that are counted,
-- is with this amount at most the daily limit, unless that total does not fit in an int64.
pub enforce_limits_sound :
    (sender : User) (receiver amount : ℕ) (env : Env) (w : World)
    → (enforce_limits sender receiver amount env w).0 ≡ ok tt
    → let sent = sum_amounts (select (is_sent_by sender.id (env.time (suc w.turn))) w.payments) in
      (amount ≤ sender.per_tx_limit_kobo)
      × ((sent + amount ≤ sender.per_day_limit_kobo) ⊎ (int64_limit ≤ sent + amount))
unfolding enforce_limits sum_user_sent_last_24h query ◌>>=◌ handle within require pure raise
enforce_limits_sound sender receiver amount env w passed =
    let (cap, capped, low) = effective_cap-le sender.id receiver sender.per_tx_limit_kobo env w in
    elim (Option-cases (env.database_fault (suc w.turn))) [
      | inl quiet ↦
          let sent =
            sum_amounts (select (is_sent_by sender.id (env.time (suc w.turn))) w.payments) in
          elim (Bool-cases (ltb (sent + amount) int64_limit)) [
            | inl fits ↦ (ground arith, inl (ground arith))
            | inr large ↦ (ground arith, inr (ground arith))
          ]
      | inr (text, fault) ↦ ground arith
    ]

-- A held payment in front of the table, such as the one that the sender has just made, does not
-- count: the limits answer as they do without it, whatever its amount and its sender.
pub enforce_limits-held_uncounted :
    (sender : User) (receiver amount : ℕ) (env : Env) (w : World) (p : Payment)
    → p.status ≡ PaymentStatus.held
    → (enforce_limits sender receiver amount env (record w { payments = p ∷ w.payments })).0
      ≡ (enforce_limits sender receiver amount env w).0
unfolding enforce_limits effective_cap get_trusted_merchant_cap sum_user_sent_last_24h query ◌>>=◌
    handle within require pure raise
enforce_limits-held_uncounted sender receiver amount env w p held =
    let t = env.time (suc w.turn) in
    let same : is_sent_by sender.id t p ≡ false = ground arith in
    let total : sum_amounts (select (is_sent_by sender.id t) (p ∷ w.payments))
        ≡ sum_amounts (select (is_sent_by sender.id t) w.payments) =
      ground arith in
    ground arith
