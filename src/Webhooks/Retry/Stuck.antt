-- ===== src/Webhooks/Retry/Stuck.antt =====
-- A row for whose URL no request can be made.
use alyx.Prelude.{
  ℕ, ◌≤◌, ◌≡◌, refl, sym, subst, ◌∙◌, Bool, ◌&&◌, true, false, Option, none, some, List, [], ◌∷◌,
  Bool-cases, inl, inr, str_eq, eq_iff, arith, filter,
}
use alyx.Webhooks.Retry.{
  RetryConfig, QueuedWebhook, Reply, Store, Tick, no_request, picked, handle_delivery,
  retry_webhook, retry_all, process_queue, is_due, is_open, reached,
}
use alyx.Webhooks.Retry.Rows.{IsNew-Holds, DistinctIds, Holds, Holds-update, update-DistinctIds}
use alyx.Webhooks.Retry.Picked.{AllOpen, picked-AllOpen, picked-DistinctIds}
use alyx.Webhooks.Retry.Effects.{retry_webhook-cases}
use alyx.Webhooks.Retry.Rounds.{AllOpen-update, rounds}

-- Two rows of the queue with one id are one row.
same_row :
    (v w : QueuedWebhook) (rows : List QueuedWebhook)
    → DistinctIds rows
    → Holds v rows
    → Holds w rows
    → str_eq w.id v.id ≡ true
    → v ≡ w
same_row v w [] d m n e = absurd m
same_row v w (first ∷ rest) (h, d) (inl a) (inl b) e = sym a ∙ b
same_row v w (first ∷ rest) (h, d) (inl a) (inr n) e =
    let differs = IsNew-Holds first.id w rest h n in
    let same = subst {A = QueuedWebhook} (λ r. str_eq w.id r.id ≡ true) (sym a) e in absurd (cc)
same_row v w (first ∷ rest) (h, d) (inr m) (inl b) e =
    let differs = IsNew-Holds first.id v rest h m in
    let same = subst {A = QueuedWebhook} (λ r. str_eq r.id v.id ≡ true) (sym b) e in
    let same' = (eq_iff v.id first.id).1 (sym ((eq_iff first.id v.id).0 same)) in absurd (cc)
same_row v w (first ∷ rest) (h, d) (inr m) (inr n) e = same_row v w rest d m n e

module _ (config : RetryConfig) (world : QueuedWebhook → Reply) (w : QueuedWebhook) where
  no_request-unchanged :
      (store : Store)
      → (world w).delivery ≡ no_request
      → (retry_webhook config store (world w) w).0 ≡ store
  unfolding retry_webhook handle_delivery
  no_request-unchanged store e = rw e refl

  retry_all-Holds :
      (todo : List QueuedWebhook) (store : Store)
      → (world w).delivery ≡ no_request
      → DistinctIds todo
      → DistinctIds store.queue
      → AllOpen todo store.queue
      → Holds w store.queue
      → Holds w (retry_all config world store todo).queue
        × DistinctIds (retry_all config world store todo).queue
  unfolding retry_all
  retry_all-Holds [] store e d q a h = (h, q)
  retry_all-Holds (v ∷ todo) store e (n, d) q ((m, o), a) h =
      elim (retry_webhook-cases config store (world v) v o) [
        | inl same ↦
            subst
              (λ s.
                Holds w (retry_all config world s todo).queue
                × DistinctIds (retry_all config world s todo).queue)
              (sym same) (retry_all-Holds todo store e d q a h)
        | inr (change, k, u, less, within, count) ↦
            let after = (retry_webhook config store (world v) v).0 in
            elim (Bool-cases (str_eq w.id v.id)) [
              | inl this ↦
                  let is_w = same_row v w store.queue q m h this in
                  let gone =
                    subst (λ r. (retry_webhook config store (world r) r).0 ≡ store) (sym is_w)
                      (no_request-unchanged store e) in
                  subst
                    (λ s.
                      Holds w (retry_all config world s todo).queue
                      × DistinctIds (retry_all config world s todo).queue)
                    (sym gone) (retry_all-Holds todo store e d q a h)
              | inr other ↦
                  retry_all-Holds todo after e d
                    (rw u (update-DistinctIds v.id change store.queue k q))
                    (rw u (AllOpen-update v.id change todo store.queue n a))
                    (rw u (Holds-update w v.id change store.queue other h))
            ]
      ]

process_queue-Holds :
    (config : RetryConfig) (tick : Tick) (store : Store) (w : QueuedWebhook)
    → (tick.world w).delivery ≡ no_request
    → DistinctIds store.queue
    → Holds w store.queue
    → Holds w (process_queue config tick store).queue
      × DistinctIds (process_queue config tick store).queue
unfolding process_queue
process_queue-Holds config tick store w e q h = elim (Bool-cases tick.query_fails) [
  | inl f ↦ rw f (h, q)
  | inr f ↦ rw f (
      retry_all-Holds config tick.world w (picked tick.at store.queue) store e
        (picked-DistinctIds tick.at store.queue q) q (picked-AllOpen tick.at store.queue) h)
]

-- In every round, no request can be made for the row.
abbrev pub NeverRequested : QueuedWebhook → List Tick → Type 0
NeverRequested w [] = Unit
NeverRequested w (tick ∷ ticks) = ((tick.world w).delivery ≡ no_request) × NeverRequested w ticks

rounds-Holds :
    (config : RetryConfig) (ticks : List Tick) (store : Store) (w : QueuedWebhook)
    → NeverRequested w ticks
    → DistinctIds store.queue
    → Holds w store.queue
    → Holds w (rounds config ticks store).queue
unfolding rounds
rounds-Holds config [] store w e q h = h
rounds-Holds config (tick ∷ ticks) store w (e, es) q h =
    let (h', q') = process_queue-Holds config tick store w e q h in
    rounds-Holds config ticks (process_queue config tick store) w es q' h'

filter-Holds :
    (now : ℕ) (w : QueuedWebhook) (rows : List QueuedWebhook)
    → is_due now w ≡ true
    → Holds w rows
    → Holds w (filter (is_due now) rows)
filter-Holds now w [] e m = absurd m
filter-Holds now w (first ∷ rest) e (inl a) =
    rw (subst {A = QueuedWebhook} (λ r. is_due now r ≡ true) (sym a) e) (inl a)
filter-Holds now w (first ∷ rest) e (inr m) = elim (Bool-cases (is_due now first)) [
  | inl due ↦ rw due (inr (filter-Holds now w rest e m))
  | inr later ↦ rw later (filter-Holds now w rest e m)
]

reached-later :
    (next : Option ℕ) (since now : ℕ)
    → since ≤ now
    → reached next since ≡ true
    → reached next now ≡ true
reached-later none since now l e = refl
reached-later (some n) since now l e = ground arith

still_both : (a : Bool) {b c : Bool} → (b ≡ true → c ≡ true) → (a && b) ≡ true → (a && c) ≡ true
still_both true f e = f e
still_both false f e = e

is_due-later :
    (since now : ℕ) (w : QueuedWebhook) → since ≤ now → is_due since w ≡ true → is_due now w ≡ true
unfolding is_due
is_due-later since now w l e =
    still_both (is_open w.status) (reached-later w.next_retry_at since now l) e

-- In a queue whose ids are distinct, let a row be due at `since`, and let no round be able to make
-- its request. Then after any number of rounds, whatever they do with the other rows, the queue
-- holds the row as it was, with its attempts not counted, and it is among the rows that are due at
-- every time from `since` on: it is never given up.
pub rounds-stuck :
    (config : RetryConfig) (ticks : List Tick) (store : Store) (w : QueuedWebhook) (since now : ℕ)
    → DistinctIds store.queue
    → Holds w store.queue
    → is_due since w ≡ true
    → since ≤ now
    → NeverRequested w ticks
    → Holds w (filter (is_due now) (rounds config ticks store).queue)
rounds-stuck config ticks store w since now q h due l never =
    filter-Holds now w (rounds config ticks store).queue (is_due-later since now w l due)
      (rounds-Holds config ticks store w never q h)
