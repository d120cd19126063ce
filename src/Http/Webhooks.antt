-- ===== src/Http/Webhooks.antt =====
-- internal/http/webhooks.go, with the signature of internal/paystack/webhook.go. `mac` is the hex text
-- of an HMAC-SHA512, `unmarshal` what encoding/json reads of a body.
pub mod Signed
use echopay.Common.{
  Bool, true, false, not, ◌||◌, ◌&&◌, Option, none, some, Bytes, is_empty, if◌then◌else◌,
}
use echopay.World.{Result, ok, err, failure, error_text}
use echopay.Action.{Action, ◌>>◌, ignore}
use echopay.Auth.Jwt.{same_bytes}
use echopay.Http.{Outcome, refuse, give}
use echopay.Payments.Webhook.{WebhookEvent, handle_webhook_event}

pub record WebhookHandler : Type 0 where
  pub webhook_key : Bytes
  pub dev_mode : Bool

module _ (mac : Bytes → Bytes → Bytes) where
  -- VerifyWebhookSignature
  unfoldable pub verify_webhook_signature : Bytes → Bytes → Bytes → Bool
  verify_webhook_signature secret signature body =
      not (is_empty secret || is_empty signature) && same_bytes (mac secret body) signature

module _ (unmarshal : Bytes → Result WebhookEvent) where
  -- ParseWebhookEvent
  unfoldable pub parse_webhook_event : Bytes → Result WebhookEvent
  parse_webhook_event body = if is_empty body then err (failure "empty body") else unmarshal body

-- an error of the handler is only logged, so that Paystack does not send the event again
abbrev pub handled : Result WebhookEvent → Action (Outcome (Unit {0}))
handled (err e) = refuse 400 (error_text e)
handled (ok event) = ignore (handle_webhook_event event) >> give tt

module _ (mac : Bytes → Bytes → Bytes) (unmarshal : Bytes → Result WebhookEvent) where
  abbrev pub received : WebhookHandler → Bytes → Option Bytes → Action (Outcome (Unit {0}))
  received h signature none = refuse 400 "could not read body"
  received h signature (some body) =
      if is_empty h.webhook_key
      then (if h.dev_mode
          then handled (parse_webhook_event unmarshal body)
          else refuse 500 "webhook key not configured")
      else (if verify_webhook_signature mac h.webhook_key signature body
          then handled (parse_webhook_event unmarshal body)
          else refuse 401 "bad signature")

  -- `paystack`; the body is what io.ReadAll read
  unfoldable pub paystack_page : WebhookHandler → Bytes → Option Bytes → Action (Outcome (Unit {0}))
  paystack_page h signature body = received h signature body
