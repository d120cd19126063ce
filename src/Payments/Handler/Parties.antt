-- ===== src/Payments/Handler/Parties.antt =====
-- Whom the pages of payments serve.
use echopay.Common.{
  ℕ, String, Option, some, Bytes, ◌≡◌, ap, subst, find?, ◌==◌, ==_eq, ◌⊎◌, inl, inr, Bool-cases,
}
use echopay.Store.Models.{Payment}
use echopay.Store.Payments.{get_payment_by_id, has_id}
use echopay.World.{Env, World, Result, ok}
use echopay.Action.Ends.{attempt_ends, bind_then, select_one-ends}
use echopay.Http.{Outcome, passed, refused, Context, next_of}
use echopay.Http.Answers.{refuse-ends, for_user-ends, with_id-ends, give-value}
use echopay.Http.Auth.{authenticate, behind_auth}
use echopay.Http.Auth.Admitted.{Admitted, authenticate-Admitted}
use echopay.Http.Auth.Quiet.{SamePayments, authenticate-SamePayments}
use echopay.Payments.Handler.{shown_to, get_page}

-- a payment that is shown is the caller's
shown_to-ends :
    (c : Context) (p q : Payment) (env : Env) (w w' : World)
    → shown_to c p env w ≡ (ok (passed q), w')
    → (p ≡ q) × ((p.sender_user_id ≡ c.user_id) ⊎ (p.receiver_user_id ≡ c.user_id))
shown_to-ends c p q env w w' done = elim (Bool-cases (p.sender_user_id == c.user_id)) [
  | inl sent ↦
      (give-value p q env w w' (rw sent at done), inl (==_eq p.sender_user_id c.user_id sent))
  | inr other ↦ elim (Bool-cases (p.receiver_user_id == c.user_id)) [
    | inl received ↦ (
      give-value p q env w w' (rw (other, received) at done),
      inr (==_eq p.receiver_user_id c.user_id received),
    )
    | inr stranger ↦
        absurd (refuse-ends 403 "not your payment" env w w' q (rw (other, stranger) at done))
  ]
]

-- A payment as the page shows it: the row of the id that was asked for, whose sender or receiver is
-- the user of the session.
pub record Shown (id : Option ℕ) (w : World) (c : Context) (p : Payment) : Type 0 where
  pub payment_id : ℕ
  pub asked : id ≡ some payment_id
  pub row : find? (has_id payment_id) w.payments ≡ some p
  pub party : (p.sender_user_id ≡ c.user_id) ⊎ (p.receiver_user_id ≡ c.user_id)

get_page-Shown :
    (parse_uuid : String → Option ℕ) (c : Context) (id : String) (env : Env) (w w' : World)
    (p : Payment)
    → get_page parse_uuid c id env w ≡ (ok (passed p), w')
    → Shown (parse_uuid id) w c p
unfolding get_page get_payment_by_id
get_page-Shown parse_uuid c id env w w' p done =
    let (payment, asked, d1) =
      with_id-ends "invalid payment id" (parse_uuid id) _ env w w' p
        (for_user-ends c _ env w w' p done) in
    attempt_ends _ _ _ env w w' (passed p) d1
      (λ e v failed. absurd (refuse-ends 404 "not found" env v w' p failed))
      λ q v read d2.
        let (same, party) = shown_to-ends c q p env v w' d2 in
        let (row, moved) = select_one-ends _ _ env w v q read in
        record {
          payment_id = payment;
          asked = asked;
          row = subst (λ x. find? (has_id payment) w.payments ≡ some x) same row;
          party =
              subst
                (λ (x : Payment). (x.sender_user_id ≡ c.user_id) ⊎ (x.receiver_user_id ≡ c.user_id))
                same party;
        }

-- The page of a payment behind the middleware shows a payment only to a request with a signed,
-- unexpired token of an active session, whose user is the payment's sender or receiver; what it shows
-- is the row of the id that was asked for.
pub get_page-Party :
    (parse_uuid : String → Option ℕ) (header : Bytes) (id : String) (env : Env) (w w' : World)
    (p : Payment)
    → behind_auth header (λ c. get_page parse_uuid c id) env w ≡ (ok (passed p), w')
    → (c : Context) × Admitted env header w c × Shown (parse_uuid id) w c p
unfolding behind_auth
get_page-Party parse_uuid header id env w w' p done =
    bind_then _ _ env w w' (passed p) done λ o v first d1. go o v first d1
  where
    go :
        (o : Outcome Context) (v : World)
        → authenticate header env w ≡ (ok o, v)
        → next_of (λ c. get_page parse_uuid c id) o env v ≡ (ok (passed p), w')
        → (c : Context) × Admitted env header w c × Shown (parse_uuid id) w c p
    go (refused status message) v first d1 = absurd (refuse-ends status message env v w' p d1)
    go (passed c) v first d1 =
        let kept : SamePayments w v =
          subst (SamePayments w) (ap (λ (x : Result (Outcome Context) × World). x.1) first)
            ((authenticate-SamePayments header).at env w) in
        let shown = get_page-Shown parse_uuid c id env v w' p d1 in
        (
          c,
          authenticate-Admitted header env w c
              (ap (λ (x : Result (Outcome Context) × World). x.0) first),
          record {
            payment_id = shown.payment_id;
            asked = shown.asked;
            row = subst (λ ps. find? (has_id shown.payment_id) ps ≡ some p) kept.payments shown.row;
            party = shown.party;
          },
        )
