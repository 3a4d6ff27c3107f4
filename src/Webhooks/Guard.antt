-- ===== src/Webhooks/Guard.antt =====
-- Which requests reach the function of a webhook.
use alyx.Prelude.{
  ◌≡◌, refl, sym, ap, subst, ◌∙◌, String, true, false, Option, none, some, arith, inl, inr,
  Bool-cases,
}
use alyx.Bytes.{Bytes}
use alyx.Webhooks.{
  Primitives, WebhookVerification, WebhookEndpoint, Request, Payload, invoked, is_method_allowed,
  serve_http, serve_read, verified_by, rejects, payload_of, extract_signature,
}
use alyx.Webhooks.Accept.{Signed, verify_signature-valid}

-- What the payload says of the signature is so.
abbrev pub Vouched : Primitives → Option WebhookVerification → Request → Payload → Type 0
Vouched lib none r p = p.verified ≡ true
Vouched lib (some v) r p =
    (p.verified ≡ true → Signed lib v p.body (extract_signature lib r.headers v.header))
    × (v.skip_invalid ≡ false → p.verified ≡ true)

payload_of-Vouched :
    (lib : Primitives) (e : WebhookEndpoint) (r : Request) (body : Bytes)
    (v : Option WebhookVerification)
    → rejects lib v (verified_by lib v r body) ≡ false
    → Vouched lib v r (payload_of e r body (verified_by lib v r body))
payload_of-Vouched lib e r body none h = refl
payload_of-Vouched lib e r body (some v) h =
    let signature = extract_signature lib r.headers v.header in
    ((verify_signature-valid lib v body signature).0, λ strict. ground arith)

invoked-inj : {f g : String} {p q : Payload} → invoked f p ≡ invoked g q → (f ≡ g) × (p ≡ q)
invoked-inj h = (cc, cc)

module _ (lib : Primitives) (r : Request) (f : String) (p : Payload) where
  abbrev pub Guarded : WebhookEndpoint → Type 0
  Guarded e =
      (f ≡ e.function_id)
      × (is_method_allowed e r.method ≡ true)
      × (r.body ≡ some p.body)
      × Vouched lib e.verification r p

  serve_read-invoked :
      (e : WebhookEndpoint) (read : Option Bytes)
      → r.body ≡ read
      → is_method_allowed e r.method ≡ true
      → serve_read lib e r read ≡ invoked f p
      → Guarded e
  unfolding serve_read
  serve_read-invoked e none b a h = cc
  serve_read-invoked e (some body) b a h =
      elim (Bool-cases (rejects lib e.verification (verified_by lib e.verification r body))) [
        | inl bad ↦ let h' = rw bad at h in cc
        | inr good ↦
            let vouched = payload_of-Vouched lib e r body e.verification good in
            let (fe, pe) = invoked-inj (rw good at h) in
            (
              sym fe,
              a,
              b ∙ ap (λ q. some q.body) pe,
              subst (Vouched lib e.verification r) pe vouched,
            )
      ]

  -- If a request reaches a function, the store has an endpoint with that function for its path, the
  -- endpoint allows the method, the payload carries the body as read, and a payload that says
  -- verified carries a body that the configured secret signed, if a verification is configured;
  -- unless the endpoint skips invalid signatures, the payload does say so.
  pub serve_http-invoked :
      (found : Option WebhookEndpoint)
      → serve_http lib found r ≡ invoked f p
      → (e : WebhookEndpoint) × (found ≡ some e) × Guarded e
  unfolding serve_http
  serve_http-invoked none h = cc
  serve_http-invoked (some e) h = elim (Bool-cases (is_method_allowed e r.method)) [
    | inl allowed ↦
        let h' = rw allowed at h in (e, refl, serve_read-invoked e r.body refl allowed h')
    | inr refused ↦ let h' = rw refused at h in cc
  ]
