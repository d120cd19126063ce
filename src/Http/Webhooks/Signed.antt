-- ===== src/Http/Webhooks/Signed.antt =====
-- Which webhooks are handled, and what becomes of the others.
use echopay.Common.{
  ℕ, String, true, false, Option, none, some, [], ◌∷◌, Bytes, is_empty, ◌≡◌, ◌≢◌, refl, sym, ap,
  ◌∙◌, ◌==◌, ==_eq, ==_refl, arith, ◌⊎◌, inl, inr, Bool-cases,
}
use echopay.World.{Env, World, Error, Result, ok, err, failure}
use echopay.Action.{Action, pure, ignore, ◌>>=◌}
use echopay.Auth.Jwt.{same_bytes}
use echopay.Http.{Outcome, passed, refused, refuse, give}
use echopay.Payments.Webhook.{WebhookEvent, handle_webhook_event}
use echopay.Http.Webhooks.{
  WebhookHandler, verify_webhook_signature, parse_webhook_event, handled, paystack_page,
}

same_bytes-equal : (s t : Bytes) → same_bytes s t ≡ true → s ≡ t
same_bytes-equal [] [] h = refl
same_bytes-equal [] (y ∷ t) h = cc
same_bytes-equal (x ∷ s) [] h = cc
same_bytes-equal (x ∷ s) (y ∷ t) h =
    ground (arith, ==_eq x y, same_bytes-equal s t, Bool-cases (x == y))

same_bytes-same : (s : Bytes) → same_bytes s s ≡ true
same_bytes-same [] = refl
same_bytes-same (x ∷ s) = rw (==_refl x) (same_bytes-same s)

-- A webhook that is Paystack's: its body was read and is not empty, its signature is there and is that
-- of the body under the key that is configured, and the body is the JSON of the event.
pub record Genuine (mac : Bytes → Bytes → Bytes) (unmarshal : Bytes → Result WebhookEvent)
    (h : WebhookHandler) (signature : Bytes) (body : Option Bytes) (event : WebhookEvent)
    : Type 0 where
  pub text : Bytes
  pub read : body ≡ some text
  pub written : text ≢ []
  pub keyed : h.webhook_key ≢ []
  pub shown : signature ≢ []
  pub signed : signature ≡ mac h.webhook_key text
  pub parsed : unmarshal text ≡ ok event

-- A page that has run the handler of the event and answered 200, whatever the handler returned.
abbrev pub RunsHandler : WebhookEvent → Action (Outcome (Unit {0})) → Env → World → Type 0
RunsHandler event page env w = page env w ≡ (ok (passed tt), (handle_webhook_event event env w).1)

-- A page that has answered with an error and done nothing.
abbrev pub Refuses : Action (Outcome (Unit {0})) → Env → World → Type 0
Refuses page env w =
    (status : ℕ) × (message : String) × (page env w ≡ (ok (refused status message), w))

not_empty : (b : Bytes) → is_empty b ≡ false → b ≢ []
not_empty [] h e = cc
not_empty (x ∷ b) h e = cc

empty : (b : Bytes) → is_empty b ≡ true → b ≡ []
empty [] h = refl
empty (x ∷ b) h = cc

filled : (b : Bytes) → b ≢ [] → is_empty b ≡ false
filled [] h = ground (arith, h refl)
filled (x ∷ b) h = refl

no_body : (text : Bytes) → ¬ (◌≡◌ {A = Option Bytes} none (some text))
no_body text e = cc

result_cases : {A : Type 0} (r : Result A) → ((a : A) × (r ≡ ok a)) ⊎ ((e : Error) × (r ≡ err e))
result_cases (ok a) = inl (a, refl)
result_cases (err e) = inr (e, refl)

not_both : {A : Type 0} (r : Result A) (a : A) (e : Error) → r ≡ err e → ¬ (r ≡ ok a)
not_both r a e h k = cc

handled-runs :
    (event : WebhookEvent) (env : Env) (w : World) → RunsHandler event (handled (ok event)) env w
unfolding give pure ignore ◌>>=◌
handled-runs event env w = refl

handled-Refuses : (e : Error) (env : Env) (w : World) → Refuses (handled (err e)) env w
unfolding refuse pure
handled-Refuses e env w = (400, _, refl)

refuse-Refuses :
    (status : ℕ) (message : String) (env : Env) (w : World) → Refuses (refuse status message) env w
unfolding refuse pure
refuse-Refuses status message env w = (status, message, refl)

module _ (mac : Bytes → Bytes → Bytes) (unmarshal : Bytes → Result WebhookEvent) where
  -- the body of a genuine webhook is what was read
  same_text :
      (h : WebhookHandler) (signature text : Bytes) (event : WebhookEvent)
      (g : Genuine mac unmarshal h signature (some text) event)
      → g.text ≡ text
  same_text h signature text event g = let read = g.read in ground arith

  signed-verifies :
      (h : WebhookHandler) (signature text : Bytes) (event : WebhookEvent)
      → Genuine mac unmarshal h signature (some text) event
      → verify_webhook_signature mac h.webhook_key signature text ≡ true
  unfolding verify_webhook_signature
  signed-verifies h signature text event g =
      let same : signature ≡ mac h.webhook_key text =
        g.signed ∙ ap (mac h.webhook_key) (same_text h signature text event g) in
      rw
        (
          filled h.webhook_key g.keyed,
          filled signature g.shown,
          sym same,
          same_bytes-same signature,
        )
        refl

  verified-signed :
      (h : WebhookHandler) (signature text : Bytes)
      → verify_webhook_signature mac h.webhook_key signature text ≡ true
      → (signature ≢ []) × (signature ≡ mac h.webhook_key text)
  unfolding verify_webhook_signature
  verified-signed h signature text signed = elim (Bool-cases (is_empty signature)) [
    | inl blank ↦ ground arith
    | inr shown ↦ (
      not_empty signature shown,
      sym (same_bytes-equal (mac h.webhook_key text) signature (ground arith)),
    )
  ]

  taken :
      (h : WebhookHandler) (signature text : Bytes) (env : Env) (w : World)
      → is_empty h.webhook_key ≡ false
      → verify_webhook_signature mac h.webhook_key signature text ≡ true
      → ((event : WebhookEvent) × Genuine mac unmarshal h signature (some text) event
          × RunsHandler event (handled (parse_webhook_event unmarshal text)) env w)
        ⊎ (((event : WebhookEvent) → ¬ (Genuine mac unmarshal h signature (some text) event))
            × Refuses (handled (parse_webhook_event unmarshal text)) env w)
  unfolding parse_webhook_event
  taken h signature text env w keyed signed = elim (Bool-cases (is_empty text)) [
    | inl blank ↦ inr (
      λ event g. g.written (same_text h signature text event g ∙ empty text blank),
      rw blank (handled-Refuses (failure "empty body") env w),
    )
    | inr written ↦ elim (result_cases (unmarshal text)) [
      | inl (event, parsed) ↦
          let (shown, same) = verified-signed h signature text signed in
          inl (
            event,
            record {
              text = text;
              read = refl;
              written = not_empty text written;
              keyed = not_empty h.webhook_key keyed;
              shown = shown;
              signed = same;
              parsed = parsed;
            },
            rw (written, parsed) (handled-runs event env w),
          )
      | inr (e, garbled) ↦ inr (
        λ event g.
            not_both (unmarshal text) event e garbled
              (ap unmarshal (sym (same_text h signature text event g)) ∙ g.parsed),
        rw (written, garbled) (handled-Refuses e env w),
      )
    ]
  ]

  -- Outside dev mode a webhook that is genuine runs the handler of its event, and any other is refused
  -- and changes nothing.
  pub paystack_page-Taken :
      (h : WebhookHandler) (signature : Bytes) (body : Option Bytes) (env : Env) (w : World)
      → h.dev_mode ≡ false
      → ((event : WebhookEvent) × Genuine mac unmarshal h signature body event
          × RunsHandler event (paystack_page mac unmarshal h signature body) env w)
        ⊎ (((event : WebhookEvent) → ¬ (Genuine mac unmarshal h signature body event))
            × Refuses (paystack_page mac unmarshal h signature body) env w)
  unfolding paystack_page
  paystack_page-Taken h signature none env w production =
      inr (λ event g. no_body g.text g.read, refuse-Refuses 400 _ env w)
  paystack_page-Taken h signature (some text) env w production =
      elim (Bool-cases (is_empty h.webhook_key)) [
        | inl blank ↦ inr (
          λ event g. g.keyed (empty h.webhook_key blank),
          rw (blank, production) (refuse-Refuses 500 _ env w),
        )
        | inr keyed ↦
            elim (Bool-cases (verify_webhook_signature mac h.webhook_key signature text)) [
              | inl signed ↦ rw (keyed, signed) (taken h signature text env w keyed signed)
              | inr forged ↦ inr (
                λ event g. ground (arith, signed-verifies h signature text event g),
                rw (keyed, forged) (refuse-Refuses 401 _ env w),
              )
            ]
      ]
