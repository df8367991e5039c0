-- ===== src/Payment/Signature.antt =====
-- `verifyWebhookSignature`, src/providers/razorpay/razorpayProvider.ts, and `handleWebhook`,
-- src/features/payment/paymentServices.ts. The keyed hash, the decoding of hexadecimal text and
-- the parser of JSON are parameters.
use labour_baba_backend.Base.{
  if◌then◌else◌, or_else, Text, text_eq, trim, is_blank, Result, ok, err, ℕ, Bool, not, ◌&&◌,
  Option, none, some, [],
}
use labour_baba_backend.Payment.Status.{
  PaymentError, webhook_secret_not_configured, webhook_missing_signature, webhook_invalid_signature,
  webhook_invalid_body,
}
use labour_baba_backend.Payment.Table.{PayDb}
use labour_baba_backend.Payment.Webhook.{Draws, Message, WebhookEvent, handle_event}

module _ (hmac : Text → Text → Text)  -- of a secret and a body, in hexadecimal
    (bytes : Text → Text)  -- `Buffer.from(s, 'hex')`
    (parse : Text → Option WebhookEvent) where
  -- `timingSafeEqual` on buffers of one length that is not 0
  abbrev pub same_bytes : Text → Text → Bool
  same_bytes a b = not (is_blank a) && text_eq a b

  unfoldable pub verify_webhook_signature : Text → Text → Text → Bool
  verify_webhook_signature body signature secret =
      not (is_blank (trim secret))
      && (not (is_blank (trim signature))
          && (not (is_blank body)
              && same_bytes (bytes (hmac (trim secret) body)) (bytes (trim signature))))

  -- `handleWebhook`: the secret is the configured one, the signature the request's
  unfoldable pub handle_webhook :
      ℕ → Draws → Option Text → Text → Option Text → PayDb → Result PaymentError Message × PayDb
  handle_webhook now d secret body signature db =
      if is_blank (trim (or_else secret []))
      then (err webhook_secret_not_configured, db)
      else if is_blank (trim (or_else signature []))
      then (err webhook_missing_signature, db)
      else if not
          (verify_webhook_signature body (trim (or_else signature [])) (trim (or_else secret [])))
      then (err webhook_invalid_signature, db)
      else elim (parse body) [
        | none ↦ (err webhook_invalid_body, db)
        | some e ↦ let (m, db') = handle_event now d e db in (ok m, db')
      ]
