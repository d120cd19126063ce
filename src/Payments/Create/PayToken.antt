-- ===== src/Payments/Create/PayToken.antt =====
-- internal/payments/service.go: what Create has done once the token is claimed.
use echopay.Common.{
  ◌≤◌, ◌≡◌, sym, ap, ◌∙◌, Bool, true, false, Option, some, find?, ◌==◌, pos_part, is_positive,
  if◌then◌else◌,
}
use echopay.Store.Models.{Payment, User, Mandate, Token}
use echopay.Store.Payments.{has_id}
use echopay.World.{Env, World, ok}
use echopay.Action.Ends.{bind_then, within-ends, require-ends}
use echopay.Quiet.{get_user_by_id-IsQuiet, enforce_limits-IsQuiet}
use echopay.Payments.Types.{CreateRequest}
use echopay.Payments.Checks.{has_bank_details}
use echopay.Payments.Checks.Sound.{enforce_limits_sound}
use echopay.Payments.Create.Parts.{create_payment-ends, or_fail_token-ends}
use echopay.Payments.Create.{pay_token}
use echopay.Payments.Orchestrate.{orchestrate}
use echopay.Payments.Orchestrate.Settled.{Settlement, orchestrate-Settlement}
use echopay.Payments.Hold.{orchestrate_held}
use echopay.Payments.Hold.Held.{Held, orchestrate_held-Held}
use echopay.Payments.Hold.Released.{ends_unmoved, get_user_by_id-ends}

-- with an undo window the payment is held, without one it is settled
abbrev pub Paid :
    Bool
    → (env : Env) (req : CreateRequest) (p : Payment) (sender receiver : User) (m : Mandate) → World
    → Payment
    → World
    → Type 0
Paid true env req p sender receiver m v q w' = Held env p sender m (pos_part req.undo_window) v q w'
Paid false env req p sender receiver m v q w' = Settlement env p sender receiver m v q w'

Paid-ends :
    (b : Bool) (env : Env) (req : CreateRequest) (p : Payment) (sender receiver : User)
    (m : Mandate) (tok : Option Token) (v w' : World) (q : Payment)
    → find? (has_id p.id) v.payments ≡ some p
    → (if b
          then orchestrate_held p sender receiver m tok (pos_part req.undo_window)
          else orchestrate p sender receiver m tok)
        env v
      ≡ (ok q, w')
    → Paid b env req p sender receiver m v q w'
Paid-ends true env req p sender receiver m tok v w' q known done =
    orchestrate_held-Held p sender receiver m tok (pos_part req.undo_window) env v w' q known done
Paid-ends false env req p sender receiver m tok v w' q known done =
    orchestrate-Settlement p sender receiver m tok env v w' q known done

pub pay_token-ends :
    (req : CreateRequest) (sender : User) (m : Mandate) (tok : Token) (env : Env) (w w' : World)
    (q : Payment)
    → pay_token req sender m tok env w ≡ (ok q, w')
    → (receiver : User) × (p : Payment) × (v : World) × (find?
          (λ u. u.id == tok.issued_by_user_id)
          w.users
        ≡ some receiver)
      × (has_bank_details receiver ≡ true)
      × (tok.amount_kobo ≤ sender.per_tx_limit_kobo)
      × (p.amount_kobo ≡ tok.amount_kobo)
      × (p.idempotency_key ≡ req.idempotency_key)
      × (p.sender_user_id ≡ req.sender_user_id)
      × (p.receiver_user_id ≡ tok.issued_by_user_id)
      × (p.token_id ≡ some tok.id)
      × (v.exchanges ≡ w.exchanges)
      × (v.ledger_entries ≡ w.ledger_entries)
      × Paid (is_positive req.undo_window) env req p sender receiver m v q w'
unfolding pay_token
pay_token-ends req sender m tok env w w' q done =
    bind_then _ _ env w w' q done λ receiver w1 first d1.
      bind_then _ _ env w1 w' q d1 λ _ w2 second d2. bind_then _ _ env w2 w' q d2 λ _ w3 third d3.
        bind_then _ _ env w3 w' q d3 λ p w4 fourth d4.
          let (bank, same) = require-ends _ _ env w1 w2 (or_fail_token-ends _ _ env w1 w2 second) in
          let limits = or_fail_token-ends _ _ env w2 w3 third in
          let (low, _) =
            enforce_limits_sound sender receiver.id tok.amount_kobo env w2 (ap (λ x. x.0) limits) in
          let loaded =
            ends_unmoved _ env w w1 receiver (get_user_by_id-IsQuiet _)
              (within-ends _ _ env w w1 receiver first) in
          let checked =
            ends_unmoved _ env w2 w3 tt (enforce_limits-IsQuiet sender receiver.id tok.amount_kobo)
              limits in
          let (row, found, xs, es) =
            create_payment-ends _ env w3 w4 p (within-ends _ _ env w3 w4 p fourth) in
          (
            receiver,
            p,
            w4,
            get_user_by_id-ends tok.issued_by_user_id env w w1 receiver
                (within-ends _ _ env w w1 receiver first),
            bank,
            low,
            ap (λ x. x.amount_kobo) row,
            ap (λ x. x.idempotency_key) row,
            ap (λ x. x.sender_user_id) row,
            ap (λ x. x.receiver_user_id) row,
            ap (λ x. x.token_id) row,
            xs ∙ checked.exchanges ∙ ap (λ v. v.exchanges) (sym same) ∙ loaded.exchanges,
            es ∙ checked.ledger ∙ ap (λ v. v.ledger_entries) (sym same) ∙ loaded.ledger,
            Paid-ends (is_positive req.undo_window) env req p sender receiver m (some tok) w4 w' q
                found d4,
          )
