-- ===== src/Payments/Undo/Guards.antt =====
-- The guards of `Undo`: what is refused, and what is sent.
use echopay.Common.{
  ℕ, suc, Bool-cases, true, false, ◌<◌, ◌≤◌, ◌≢◌, ◌⊎◌, inl, inr, ◌≡◌, refl, ap, ◌∙◌, String, not,
  Option, none, some, ◌∷◌, find?, ◌==◌, arith, if◌then◌else◌,
}
use echopay.Store.Models.{Payment, PaymentStatus, same_status, is_blank}
use echopay.Store.Query.{select_one}
use echopay.Store.Payments.{has_id, get_payment_by_id, mark_payment_refunded, update_payments}
use echopay.Paystack.{RefundRequest}
use echopay.World.{
  Env, World, Error, refunded, not_sender, undo_window_closed, undo_unavailable, ok, err, Result,
}
use echopay.Action.{
  pure, raise, now, query, send, ◌>>=◌, handle, within, rows_or, require, Action, continue,
}
use echopay.Action.Steps.{Frame, Steps, Steps-query, steps_rules, within-world}
use echopay.Quiet.{IsQuiet, quiet_rules}
use echopay.Payments.Types.{UndoRequest}
use echopay.Payments.Legs.{deref}
use echopay.Payments.Undo.{refund_charge, window_open, complete_undo, issue_undo, undo}

-- The rule of the undo window, as the caller is told it: the sender alone, while the payment is held,
-- up to the moment at which the hold expires, and for a charge that can be named.
abbrev pub verdict : UndoRequest → Payment → ℕ → Option Error
verdict req p t =
    if not (p.sender_user_id == req.caller_id)
    then some not_sender
    else if not (same_status p.status PaymentStatus.held)
    then some undo_unavailable
    else if not (window_open p.hold_expires_at t)
    then some undo_window_closed
    else if is_blank p.charge_reference
    then some undo_unavailable
    else none

-- Why an undo of a payment at a time is refused, in the order in which it is looked for: another caller
-- than the sender; a payment that is not held; a hold without an end, or one that ended before; and a
-- charge that has no reference.
pub data Forbidden (req : UndoRequest) (p : Payment) (t : ℕ) : Error → Type 0 where
  by_other : p.sender_user_id ≢ req.caller_id → Forbidden req p t not_sender
  not_held :
      p.sender_user_id ≡ req.caller_id
      → p.status ≢ PaymentStatus.held
      → Forbidden req p t undo_unavailable
  no_end :
      p.sender_user_id ≡ req.caller_id
      → p.status ≡ PaymentStatus.held
      → p.hold_expires_at ≡ none
      → Forbidden req p t undo_window_closed
  ended :
      (expires : ℕ)
      → p.sender_user_id ≡ req.caller_id
      → p.status ≡ PaymentStatus.held
      → p.hold_expires_at ≡ some expires
      → expires < t
      → Forbidden req p t undo_window_closed
  uncharged :
      (expires : ℕ)
      → p.sender_user_id ≡ req.caller_id
      → p.status ≡ PaymentStatus.held
      → p.hold_expires_at ≡ some expires
      → t ≤ expires
      → (p.charge_reference ≡ none) ⊎ (p.charge_reference ≡ some "")
      → Forbidden req p t undo_unavailable

held_status : (s : PaymentStatus) → same_status s PaymentStatus.held ≡ true → s ≡ PaymentStatus.held
held_status s h = ground arith

other_status :
    (s : PaymentStatus) → s ≢ PaymentStatus.held → same_status s PaymentStatus.held ≡ false
other_status s h = elim (Bool-cases (same_status s PaymentStatus.held)) [
  | inl same ↦ absurd (h (held_status s same))
  | inr differs ↦ differs
]

blank_reference : (r : Option String) → (r ≡ none) ⊎ (r ≡ some "") → is_blank r ≡ true
blank_reference r (inl h) = rw h refl
blank_reference r (inr h) = rw h refl

verdict-Forbidden :
    (req : UndoRequest) (p : Payment) (t : ℕ) (e : Error)
    → Forbidden req p t e
    → verdict req p t ≡ some e
verdict-Forbidden req p t e (by_other other) = ground arith
verdict-Forbidden req p t e (not_held own other) = ground (arith, other_status p.status other)
verdict-Forbidden req p t e (no_end own held endless) = ground arith
verdict-Forbidden req p t e (ended x own held until over) = ground arith
verdict-Forbidden req p t e (uncharged x own held until early blank) =
    ground (arith, blank_reference p.charge_reference blank)

verdict-refused :
    (req : UndoRequest) (env : Env) (w : World) (p : Payment) (e : Error)
    → env.database_fault w.turn ≡ none
    → find? (has_id req.payment_id) w.payments ≡ some p
    → verdict req p (env.time (suc w.turn)) ≡ some e
    → (n : ℕ) × (undo req env w ≡ (err e, record w { turn = n }))
unfolding undo get_payment_by_id select_one query now ◌>>=◌ handle within require pure raise
verdict-refused req env w p e quiet known refused = ((undo req env w).1.turn, ground arith)

-- Where the database does not fail and the payment is found, an undo fails and changes nothing but the
-- count of turns, and so refunds nothing: for another caller than the sender, with ErrNotSender; for a
-- payment that is not held, with ErrUndoUnavailable; for a hold that has no end or has ended before the
-- clock is read, with ErrUndoWindowClosed; and for a charge without a reference, with
-- ErrUndoUnavailable.
pub undo-refused :
    (req : UndoRequest) (env : Env) (w : World) (p : Payment) (e : Error)
    → env.database_fault w.turn ≡ none
    → find? (has_id req.payment_id) w.payments ≡ some p
    → Forbidden req p (env.time (suc w.turn)) e
    → (n : ℕ) × (undo req env w ≡ (err e, record w { turn = n }))
undo-refused req env w p e quiet known refused =
    verdict-refused req env w p e quiet known (verdict-Forbidden req p _ e refused)

-- the request for a full refund of the charge
abbrev pub full_refund : Payment → RefundRequest
full_refund p = record {
  transaction = deref p.charge_reference "";
  amount = p.amount_kobo;
  merchant_note = "undo within window";
  customer_note = "EchoPay NG payment undone";
}

-- no request is sent
record SameLog (w w' : World) : Type 0 where
  same : w'.exchanges ≡ w.exchanges

SameLog-frame : Frame SameLog
SameLog-frame = record {
  stays = λ w. record { same = refl };
  goes_on = λ a b c h k. record { same = k.same ∙ h.same };
  ticks = λ w n. record { same = refl };
}

mark_payment_refunded-SameLog :
    (id : ℕ) (r s : Option String) → Steps SameLog (mark_payment_refunded id r s)
unfolding mark_payment_refunded update_payments
mark_payment_refunded-SameLog id r s = Steps-query SameLog-frame _ (λ t u w. record { same = refl })

pub complete_undo-IsQuiet : (id : ℕ) (p : Payment) → Steps IsQuiet (complete_undo id p)
unfolding complete_undo
complete_undo-IsQuiet id p = search quiet_rules depth 12

complete_undo-SameLog : (id : ℕ) (p : Payment) → Steps SameLog (complete_undo id p)
complete_undo-SameLog id p = record {
  at = λ env w. record { same = ((complete_undo-IsQuiet id p).at env w).exchanges };
}

after_refund-SameLog :
    (id : ℕ) (p : Payment) (e : Error) (s : String) (r : Option String) (t : Option String)
    → Steps SameLog (rows_or e s (mark_payment_refunded p.id r t) >>= complete_undo id)
after_refund-SameLog id p e s r t =
    search (SameLog-frame, steps_rules, mark_payment_refunded-SameLog, complete_undo-SameLog)

bind-SameLog :
    {A B : Type 0} (m : Action A) (f : A → Action B) (env : Env) (w : World)
    → ((a : A) → Steps SameLog (f a))
    → ((m >>= f) env w).1.exchanges ≡ (m env w).1.exchanges
unfolding ◌>>=◌
bind-SameLog {A} m f env w h = go (m env w).0
  where
    go : (r : Result A) → (continue r f env (m env w).1).1.exchanges ≡ (m env w).1.exchanges
    go (ok a) = ((h a).at env (m env w).1).same
    go (err e) = refl

issue_undo-exchanges :
    (id : ℕ) (p : Payment) (env : Env) (w : World)
    → (issue_undo id p env w).1.exchanges
      ≡ refunded (full_refund p) (env.refund_charge w.turn (full_refund p)) ∷ w.exchanges
unfolding issue_undo refund_charge send
issue_undo-exchanges id p env w =
    bind-SameLog (within "paystack refund" (refund_charge (full_refund p))) _ env w
      (λ refund. after_refund-SameLog id p _ _ _ _)
    ∙ ap (λ v. v.exchanges) (within-world "paystack refund" (refund_charge (full_refund p)) env w)

undo-allowed :
    (req : UndoRequest) (env : Env) (w : World) (p : Payment)
    → env.database_fault w.turn ≡ none
    → find? (has_id req.payment_id) w.payments ≡ some p
    → verdict req p (env.time (suc w.turn)) ≡ none
    → undo req env w ≡ issue_undo req.payment_id p env (record w { turn = suc (suc w.turn) })
unfolding undo get_payment_by_id select_one query now ◌>>=◌ handle within require pure raise
undo-allowed req env w p quiet known allowed = ground arith

-- A call that the rule allows sends one request to Paystack, the refund of the whole amount of the
-- charge.
pub undo-sends :
    (req : UndoRequest) (env : Env) (w : World) (p : Payment)
    → env.database_fault w.turn ≡ none
    → find? (has_id req.payment_id) w.payments ≡ some p
    → verdict req p (env.time (suc w.turn)) ≡ none
    → (undo req env w).1.exchanges
      ≡ refunded (full_refund p) (env.refund_charge (suc (suc w.turn)) (full_refund p))
        ∷ w.exchanges
undo-sends req env w p quiet known allowed =
    rw (undo-allowed req env w p quiet known allowed)
      (issue_undo-exchanges req.payment_id p env (record w { turn = suc (suc w.turn) }))
