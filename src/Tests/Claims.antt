-- ===== src/Tests/Claims.antt =====
-- Claims of a token, and a raise of the limits, at runs where the hypotheses hold.
use echopay.Common.{
  ◌==◌, select, not, Holds, ℕ, suc, ◌+◌, ◌≤◌, ◌<◌, ◌≡◌, ◌≢◌, refl, none, some, pos, find?, arith,
  str_eq,
}
use echopay.Store.Models.{Token, TokenStatus, PendingLimitChange}
use echopay.Store.Query.{select_one}
use echopay.Store.Tokens.{claim_token, update_tokens, get_token_by_code}
use echopay.Store.Users.{get_user_by_id}
use echopay.World.{Error, ok, err}
use echopay.Risk.Limits.{scheduled, change_limits, set_limits}
use echopay.Risk.Limits.Cooldown.{Kept, set_limits-Kept}
use echopay.Store.Limits.{cancel_pending_limit_changes, create_pending_limit_change}
use echopay.Action.{now, query, pure, raise, ◌>>=◌, handle, within, require, rows_or}
use echopay.Tokens.{claim}
use echopay.Tokens.Once.{claim_token-once, claim_sound}
use echopay.Tests.Data.{alice, token, start, empty_world, sunny}

-- the token, claimed at this time
abbrev claimed_at : ℕ → Token
claimed_at t = record token {
  status = TokenStatus.claimed;
  claimed_by_user_id = some 1;
  claimed_at = some t;
  updated_at = t;
}

first_claim : (claim_token 7 1 sunny empty_world).0 ≡ ok (claimed_at start)
unfolding claim_token update_tokens query
first_claim = refl

claims_in_order : sunny.time 0 ≤ sunny.time (claim_token 7 1 sunny empty_world).1.turn
unfolding claim_token update_tokens query
claims_in_order = omega arith

claim_token-once_example :
    let w' = (claim_token 7 1 sunny empty_world).1 in
    (e : Error) × (claim_token 7 2 sunny w' ≡ (err e, record w' { turn = suc w'.turn }))
claim_token-once_example =
    claim_token-once 7 1 2 sunny sunny empty_world (claimed_at start) first_claim claims_in_order

service_claims : (claim "ABC" 1 sunny empty_world).0 ≡ ok (claimed_at (start + 1_000_000_000))
unfolding claim claim_token update_tokens get_token_by_code select_one query ◌>>=◌ handle rows_or
    require pure raise
service_claims = refl

claim_sound_example :
    let k = claimed_at (start + 1_000_000_000) in
    (tok : Token) × (find? (λ x. str_eq x.code "ABC") empty_world.tokens ≡ some tok)
    × (tok.issued_by_user_id ≢ 1)
    × (k.id ≡ tok.id)
    × (k.status ≡ TokenStatus.claimed)
    × (k.claimed_by_user_id ≡ some 1)
    × (sunny.time 1 < k.expires_at)
    × Holds k (claim "ABC" 1 sunny empty_world).1.tokens
    × (select (λ x. not (x.id == tok.id)) (claim "ABC" 1 sunny empty_world).1.tokens
        ≡ select (λ x. not (x.id == tok.id)) empty_world.tokens)
claim_sound_example =
    claim_sound "ABC" 1 sunny empty_world (claimed_at (start + 1_000_000_000)) service_claims

-- the day that a raise of limits waits
abbrev cooldown : ℕ
cooldown = 86_400_000_000_000

-- the change that is scheduled for Alice
abbrev raise_pending : PendingLimitChange
raise_pending = record {
  id = 103;
  user_id = 1;
  per_tx_limit_kobo = 200_000;
  per_day_limit_kobo = 600_000;
  applies_at = start + 2_000_000_000 + cooldown;
  applied_at = none;
  cancelled_at = none;
  created_at = start + 3_000_000_000;
}

raise_scheduled :
    (set_limits cooldown 1 (pos 200_000) (pos 600_000) sunny empty_world).0
    ≡ ok (scheduled alice raise_pending)
unfolding set_limits change_limits get_user_by_id select_one cancel_pending_limit_changes
    create_pending_limit_change now query ◌>>=◌ handle within require pure raise
raise_scheduled = refl

set_limits-Kept_example :
    Kept cooldown 1
      (pos 200_000)
      (pos 600_000)
      (sunny.time 2)
      empty_world
      (set_limits cooldown 1 (pos 200_000) (pos 600_000) sunny empty_world).1
      (scheduled alice raise_pending)
set_limits-Kept_example =
    set_limits-Kept cooldown 1 (pos 200_000) (pos 600_000) sunny empty_world
      (scheduled alice raise_pending) raise_scheduled
