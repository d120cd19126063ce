-- ===== src/Tests/Hooks.antt =====
-- A signed webhook of Paystack, and one that is not.
use echopay.Common.{Option, false, some, [], ◌∷◌, ◌++◌, Bytes, refl, ◌⊎◌}
use echopay.World.{Result, ok}
use echopay.Store.Models.{PaystackStatus}
use echopay.Payments.Webhook.{WebhookEvent, transfer_failed}
use echopay.Http.Webhooks.{WebhookHandler, paystack_page}
use echopay.Http.Webhooks.Signed.{Genuine, RunsHandler, Refuses, paystack_page-Taken}
use echopay.Tests.Data.{settled_world, sunny}

-- a signature that shows what it signs
abbrev mac : Bytes → Bytes → Bytes
mac key body = key ++ body

abbrev unmarshal : Bytes → Result WebhookEvent
unmarshal body =
    ok (transfer_failed (ok (record { reference = "TXF_10"; status = PaystackStatus.failed })))

abbrev production : WebhookHandler
production = record { webhook_key = b'k' ∷ []; dev_mode = false }

paystack_page-Taken_example :
    let signature : Bytes = b'k' ∷ b'{' ∷ [] in
    let body : Option Bytes = some (b'{' ∷ []) in
    ((event : WebhookEvent) × Genuine mac unmarshal production signature body event
      × RunsHandler event
          (paystack_page mac unmarshal production signature body)
          sunny
          settled_world)
    ⊎ (((event : WebhookEvent) → ¬ (Genuine mac unmarshal production signature body event))
        × Refuses (paystack_page mac unmarshal production signature body) sunny settled_world)
paystack_page-Taken_example =
    paystack_page-Taken mac unmarshal production (b'k' ∷ b'{' ∷ []) (some (b'{' ∷ [])) sunny
      settled_world refl
