-- ===== src/Events/Fifo.antt =====
-- packages/wazeko/src/events.ts: events pass the queue in the order in which they were pushed.
use wazeko.Prelude.{
  ℕ, ◌≡◌, refl, sym, ap, ◌∙◌, inl, inr, subst, false, Option, some, List, [], ◌∷◌, ◌++◌, map,
  append-nil, append_assoc, if_false, All,
}
use wazeko.Events.{AsyncEventQueue, create, push_open, push, next_of, next}
use wazeko.Events.Order.{
  Call, pushes, asks, closes, run, item_of, map-snoc, IsOrdered, push-IsOrdered, next-IsOrdered,
}

-- Calls other than `close`.
abbrev pub KeepsOpen {ℓ} : {A : Type ℓ} → Call A → Type 0
KeepsOpen (pushes item) = Unit
KeepsOpen asks = Unit
KeepsOpen (closes disconnected) = ⊥

abbrev pub pushed {ℓ} : {A : Type ℓ} → List (Call A) → List (Option A)
pushed [] = []
pushed (pushes item ∷ cs) = some item ∷ pushed cs
pushed (_ ∷ cs) = pushed cs

module _ {ℓ} {A : Type ℓ} where
  -- The events handed out, and those that are kept.
  abbrev pub passed : AsyncEventQueue A → List (Option A)
  passed q = map item_of q.deliveries ++ map some q.queue

  push_open-passed :
      (item : A) (ws : List ℕ) (q : AsyncEventQueue A)
      → q.waiters ≡ ws
      → IsOrdered q
      → (passed (push_open item ws q) ≡ passed q ++ some item ∷ [])
        × ((push_open item ws q).closed ≡ q.closed)
  push_open-passed item [] q e h = (
    rw (map-snoc some q.queue item)
        (sym (append_assoc (map item_of q.deliveries) (map some q.queue) (some item ∷ []))),
    refl,
  )
  push_open-passed item (w ∷ ws) q e h =
      let empty : q.queue ≡ [] = elim h.one_empty [ inl k ↦ k | inr k ↦ absurd (cc) ] in
      (
        simp empty (
            append-nil (map item_of (q.deliveries ++ record { promise = w; item = some item } ∷ []))
            ∙ map-snoc item_of q.deliveries (record { promise = w; item = some item })
            ∙ ap (λ l. l ++ some item ∷ []) (sym (append-nil (map item_of q.deliveries)))),
        refl,
      )

  next_of-passed :
      (l : List A) (q : AsyncEventQueue A)
      → q.queue ≡ l
      → q.closed ≡ false
      → (passed (next_of l q) ≡ passed q) × ((next_of l q).closed ≡ q.closed)
  next_of-passed [] q e open_ =
      subst (λ r. (passed r ≡ passed q) × (r.closed ≡ q.closed)) (sym (if_false _ _ _ open_))
        (refl, refl)
  next_of-passed (item ∷ rest) q e open_ = (
    rw (map-snoc item_of q.deliveries (record { promise = q.asked; item = some item })) (
        append_assoc (map item_of q.deliveries) (some item ∷ []) (map some rest)
        ∙ ap (λ l. map item_of q.deliveries ++ map some l) (sym e)),
    refl,
  )

  push-passed :
      (item : A) (q : AsyncEventQueue A)
      → q.closed ≡ false
      → IsOrdered q
      → (passed (push item q) ≡ passed q ++ some item ∷ []) × ((push item q).closed ≡ false)
  unfolding push
  push-passed item q open_ h =
      let (e, same) = push_open-passed item q.waiters q refl h in
      subst (λ r. (passed r ≡ passed q ++ some item ∷ []) × (r.closed ≡ false))
        (sym (if_false _ _ _ open_)) (e, same ∙ open_)

  next-passed :
      (q : AsyncEventQueue A)
      → q.closed ≡ false
      → (passed (next q) ≡ passed q) × ((next q).closed ≡ false)
  unfolding next
  next-passed q open_ = let (e, same) = next_of-passed q.queue q refl open_ in (e, same ∙ open_)

  steps-passed :
      (cs : List (Call A)) (q : AsyncEventQueue A)
      → All KeepsOpen cs
      → q.closed ≡ false
      → IsOrdered q
      → passed (run cs q) ≡ passed q ++ pushed cs
  unfolding run
  steps-passed [] q k open_ h = sym (append-nil (passed q))
  steps-passed (pushes item ∷ cs) q (k, ks) open_ h =
      let (e, still) = push-passed item q open_ h in
      steps-passed cs (push item q) ks still (push-IsOrdered item q h)
      ∙ ap (λ l. l ++ pushed cs) e
      ∙ append_assoc (passed q) (some item ∷ []) (pushed cs)
  steps-passed (asks ∷ cs) q (k, ks) open_ h =
      let (e, still) = next-passed q open_ in
      steps-passed cs (next q) ks still (next-IsOrdered q h) ∙ ap (λ l. l ++ pushed cs) e
  steps-passed (closes d ∷ cs) q (k, ks) open_ h = absurd k

-- As long as the queue is not closed, the events that it handed out, followed by those that it
-- keeps, are the events pushed, each of them once and in their order.
pub run-passed {ℓ} :
    {A : Type ℓ} (cs : List (Call A)) → All KeepsOpen cs → passed (run cs create) ≡ pushed cs
unfolding create
run-passed cs k =
    steps-passed cs create k refl
      (record { one_empty = inl refl; nobody_left = λ k. refl; served = refl })
