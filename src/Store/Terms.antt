-- ===== src/Store/Terms.antt =====
-- The columns of a payment that no query writes once the row is there.
pub mod Rows
use echopay.Common.{ℕ, ◌≡◌, some, List, find?, arith}
use echopay.Store.Models.{Payment}
use echopay.Store.Payments.{has_id}

-- what was agreed when the payment was created
pub record SameTerms (p q : Payment) : Type 0 where
  pub id : q.id ≡ p.id
  pub token_id : q.token_id ≡ p.token_id
  pub sender : q.sender_user_id ≡ p.sender_user_id
  pub receiver : q.receiver_user_id ≡ p.receiver_user_id
  pub mandate : q.sender_mandate_id ≡ p.sender_mandate_id
  pub amount : q.amount_kobo ≡ p.amount_kobo
  pub key : q.idempotency_key ≡ p.idempotency_key
  pub created : q.created_at ≡ p.created_at
  pub refunds : q.refunds_payment_id ≡ p.refunds_payment_id

-- a row with the terms of `p` is found at the id of `p`
pub record HasTerms (ps : List Payment) (id : ℕ) (p : Payment) : Type 0 where
  pub row : Payment
  pub found_at : find? (has_id id) ps ≡ some row
  pub same : SameTerms p row

-- every payment found before is found after, with its terms
abbrev pub PaymentsKept : List Payment → List Payment → Type 0
PaymentsKept ps qs = (id : ℕ) (p : Payment) → find? (has_id id) ps ≡ some p → HasTerms qs id p

pub SameTerms-refl : (p : Payment) → SameTerms p p
SameTerms-refl p = ground arith

pub SameTerms-trans : {p q r : Payment} → SameTerms p q → SameTerms q r → SameTerms p r
SameTerms-trans h k = ground arith

pub PaymentsKept-refl : (ps : List Payment) → PaymentsKept ps ps
PaymentsKept-refl ps id p h = record { row = p; found_at = h; same = SameTerms-refl p }

pub PaymentsKept-trans :
    (ps qs rs : List Payment) → PaymentsKept ps qs → PaymentsKept qs rs → PaymentsKept ps rs
PaymentsKept-trans ps qs rs h k id p e =
    let q = h id p e in
    let r = k id q.row q.found_at in
    record { row = r.row; found_at = r.found_at; same = SameTerms-trans q.same r.same }
