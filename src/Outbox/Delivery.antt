-- ===== src/Outbox/Delivery.antt =====
-- Where an export may go.
use clean.Base.{
  ℕ, ◌≤◌, ◌<◌, ◌≡◌, refl, ap, ◌∙◌, Option, none, some, ◌or_else◌, arith, Option-cases, inl, inr,
  Bool-cases, leb, ltb, ◌&&◌,
}
use mathlib.Core.Option.{some-injective}
use clean.Outbox.{
  sent, export, answered, raises, Posted, refused, missing_url, Settings, World, Event, Body, Fault,
  deliver_outbox_event, deliver_payload, deliver_export, deliver_webhook, post_result, export_to,
  unless_refused, validate_webhook_url, validate_webhook_url-IsSafe, IsSafe, after_attempt, Refusal,
}

-- The receiver has answered with a status of success.
pub record IsAccepted (p : Posted) : Type 0 where
  pub code : ℕ
  pub is_answer : p ≡ answered code
  pub from_200 : 200 ≤ code
  pub below_300 : code < 300

post_result-IsAccepted : (p : Posted) → post_result p ≡ none → IsAccepted p
unfolding post_result
post_result-IsAccepted (answered code) e = elim (Bool-cases (leb 200 code && ltb code 300)) [
  | inl ok_status ↦ record {
    code = code;
    is_answer = refl;
    from_200 = ground arith;
    below_300 = ground arith;
  }
  | inr other_status ↦ absurd (cc (rw other_status at e))
]
post_result-IsAccepted (raises x) e = cc

unless_refused-none :
    (o : Option (Option Refusal)) (f : Option Fault)
    → unless_refused o f ≡ some none
    → (o ≡ some none) × (f ≡ none)
unfolding unless_refused
unless_refused-none none f e = cc
unless_refused-none (some none) f e = (refl, some-injective f none e)
unless_refused-none (some (some r)) f e = let e' = some-injective (some (refused r)) none e in cc e'

export_to-none :
    (s : Settings) (w : World) (now : ℕ) (o : Option ℕ) (b : Option Body)
    → export_to s w now o b ≡ some none
    → (url : ℕ) × (o ≡ some url) × IsSafe s w now url × IsAccepted (w.post now url b)
unfolding export_to deliver_webhook
export_to-none s w now none b e = let e' = some-injective (some missing_url) none e in cc e'
export_to-none s w now (some url) b e =
    let (passed, posted) = unless_refused-none (validate_webhook_url s w now url) _ e in
    (
      url,
      refl,
      validate_webhook_url-IsSafe s w now url passed,
      post_result-IsAccepted (w.post now url b) posted,
    )

after_attempt-sent :
    (s : Settings) (now : ℕ) (r : Option Fault) (e : Event)
    → (after_attempt s now r e).status ≡ sent
    → r ≡ none
unfolding after_attempt
after_attempt-sent s now none e h = refl
after_attempt-sent s now (some r) e h = ground arith

deliver_outbox_event-sent :
    (s : Settings) (w : World) (now : ℕ) (e e' : Event)
    → deliver_outbox_event s w now e ≡ some e'
    → e'.status ≡ sent
    → deliver_payload s w now e.kind e.payload_json ≡ some none
unfolding deliver_outbox_event
deliver_outbox_event-sent s w now e e' went is_sent =
    elim (Option-cases (deliver_payload s w now e.kind e.payload_json)) [
      | inl raised ↦ let clash : none ≡ some e' = rw raised at went in cc clash
      | inr (r, gave) ↦
          let e1 : some (after_attempt s now r e) ≡ some e' = rw gave at went in
          let status = ap (λ (x : Event). x.status) (some-injective _ e' e1) in
          gave ∙ ap some (after_attempt-sent s now r e (status ∙ is_sent))
    ]

-- An export that an attempt has sent was posted to its target, or to the configured URL if it has
-- none, with the event's payload, and answered with a status from 200 to 299; and that URL was safe
-- when it was sent: HTTPS or allowed HTTP, to a host on the list of allowed hosts if there is one,
-- which there is in production, and where private addresses are blocked, to public ones only.
pub sent_export-IsSafe :
    (s : Settings) (w : World) (now : ℕ) (e e' : Event)
    → e.kind ≡ export
    → deliver_outbox_event s w now e ≡ some e'
    → e'.status ≡ sent
    → (url : ℕ) × ((e.payload_json.target_url or_else s.export_webhook_url) ≡ some url)
      × IsSafe s w now url
      × IsAccepted (w.post now url e.payload_json.payload)
unfolding deliver_payload deliver_export
sent_export-IsSafe s w now e e' k went h =
    let none_wrong = deliver_outbox_event-sent s w now e e' went h in
    export_to-none s w now _ _ (rw k at none_wrong)
