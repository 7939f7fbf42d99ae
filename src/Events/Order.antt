-- ===== src/Events/Order.antt =====
-- packages/wazeko/src/events.ts: nobody waits while events are there, and events are handed out
-- in the order in which they were pushed.
use wazeko.Prelude.{
  ℕ, zero, suc, ◌+◌, ◌≡◌, refl, sym, ap, ◌∙◌, ◌⊎◌, inl, inr, Bool, true, false, Option, some, List,
  [], ◌∷◌, ◌++◌, map, append-nil, append_assoc, arith, if-cases,
}
use wazeko.Events.{
  AsyncEventQueue, Delivery, create, push_open, push, next_of, next, release, close,
}

pub data Call {ℓ} (A : Type ℓ) : Type ℓ where
  pushes : A → Call A
  asks : Call A
  closes : A → Call A

unfoldable pub run {ℓ} : {A : Type ℓ} → List (Call A) → AsyncEventQueue A → AsyncEventQueue A
unfolding push next close
run [] q = q
run (pushes item ∷ cs) q = run cs (push item q)
run (asks ∷ cs) q = run cs (next q)
run (closes disconnected ∷ cs) q = run cs (close disconnected q)

abbrev pub upto : ℕ → List ℕ
upto zero = []
upto (suc n) = upto n ++ n ∷ []

upto_next : (n : ℕ) → upto (n + 1) ≡ upto n ++ n ∷ []
upto_next n = let e : n + 1 ≡ suc n = omega arith in rw e refl

pub map-snoc {ℓ κ} :
    {A : Type ℓ} {B : Type κ} (f : A → B) (xs : List A) (x : A)
    → map f (xs ++ x ∷ []) ≡ map f xs ++ f x ∷ []
map-snoc f [] x = refl
map-snoc f (y ∷ xs) x = ap (◌∷◌ (f y)) (map-snoc f xs x)

module _ {ℓ} {A : Type ℓ} where
  abbrev pub promise_of : Delivery A → ℕ
  promise_of d = d.promise

  abbrev pub item_of : Delivery A → Option A
  item_of d = d.item

  -- `served` says that the promises are settled in the order of the calls, each of them once.
  pub record AreOrdered (queue : List A) (waiters : List ℕ) (closed : Bool) (asked : ℕ)
      (deliveries : List (Delivery A)) : Type ℓ where
    pub one_empty : (queue ≡ []) ⊎ (waiters ≡ [])
    pub nobody_left : closed ≡ true → waiters ≡ []
    pub served : map promise_of deliveries ++ waiters ≡ upto asked

  abbrev pub IsOrdered : AsyncEventQueue A → Type ℓ
  IsOrdered q = AreOrdered q.queue q.waiters q.closed q.asked q.deliveries

  served_more :
      (ds : List (Delivery A)) (d : Delivery A) (rest : List ℕ)
      → map promise_of (ds ++ d ∷ []) ++ rest ≡ map promise_of ds ++ d.promise ∷ rest
  served_more ds d rest =
      rw (map-snoc promise_of ds d) (append_assoc (map promise_of ds) (d.promise ∷ []) rest)

  push_open-IsOrdered :
      (item : A) (ws : List ℕ) (q : AsyncEventQueue A)
      → q.waiters ≡ ws
      → q.closed ≡ false
      → IsOrdered q
      → IsOrdered (push_open item ws q)
  push_open-IsOrdered item [] q e open_ h = record {
    one_empty = inr e;
    nobody_left = h.nobody_left;
    served = h.served;
  }
  push_open-IsOrdered item (w ∷ ws) q e open_ h = record {
    one_empty = elim h.one_empty [ inl k ↦ inl k | inr k ↦ absurd (cc) ];
    nobody_left = λ k. absurd (cc);
    served = served_more q.deliveries _ ws ∙ (simp (← e) h.served);
  }

  pub push-IsOrdered : (item : A) (q : AsyncEventQueue A) → IsOrdered q → IsOrdered (push item q)
  unfolding push
  push-IsOrdered item q h =
      if-cases IsOrdered q.closed _ _ (λ shut. h)
        (λ open_. push_open-IsOrdered item q.waiters q refl open_ h)

  -- A promise that is settled at once.
  next_now :
      (q : AsyncEventQueue A) (d : Delivery A)
      → d.promise ≡ q.asked
      → q.waiters ≡ []
      → IsOrdered q
      → map promise_of (q.deliveries ++ d ∷ []) ++ q.waiters ≡ upto (q.asked + 1)
  next_now q d e none_waits h =
      let so_far : map promise_of q.deliveries ≡ upto q.asked =
        sym (append-nil _) ∙ (simp none_waits at h.served) in
      served_more q.deliveries d q.waiters ∙ rw (none_waits, e, so_far, upto_next q.asked) refl

  next_of-IsOrdered :
      (l : List A) (q : AsyncEventQueue A)
      → q.queue ≡ l
      → IsOrdered q
      → IsOrdered (record (next_of l q) { asked = q.asked + 1 })
  next_of-IsOrdered [] q e h =
      if-cases (λ r. IsOrdered (record r { asked = q.asked + 1 })) q.closed _ _
        (λ shut. record {
          one_empty = h.one_empty;
          nobody_left = h.nobody_left;
          served = next_now q _ refl (h.nobody_left shut) h;
        })
        (λ open_. record {
          one_empty = inl e;
          nobody_left = λ k. absurd (cc);
          served =
              sym (append_assoc (map promise_of q.deliveries) q.waiters (q.asked ∷ []))
              ∙ rw (h.served, upto_next q.asked) refl;
        })
  next_of-IsOrdered (item ∷ rest) q e h =
      let none_waits : q.waiters ≡ [] = elim h.one_empty [ inl k ↦ absurd (cc) | inr k ↦ k ] in
      record {
        one_empty = inr none_waits;
        nobody_left = h.nobody_left;
        served = next_now q _ refl none_waits h;
      }

  pub next-IsOrdered : (q : AsyncEventQueue A) → IsOrdered q → IsOrdered (next q)
  unfolding next
  next-IsOrdered q h = next_of-IsOrdered q.queue q refl h

  release-IsOrdered :
      (disconnected : A) (ws : List ℕ) (q : AsyncEventQueue A)
      → (ws ≡ []) ⊎ (q.queue ≡ [])
      → map promise_of q.deliveries ++ ws ≡ upto q.asked
      → IsOrdered (release disconnected ws q)
  unfolding release
  release-IsOrdered disconnected [] q e h = record {
    one_empty = inr refl;
    nobody_left = λ k. refl;
    served = h;
  }
  release-IsOrdered disconnected (w ∷ ws) q e h =
      release-IsOrdered disconnected ws _ (elim e [ inl k ↦ absurd (cc) | inr k ↦ inr k ])
        (served_more q.deliveries (record { promise = w; item = some disconnected }) ws ∙ h)

  pub close-IsOrdered :
      (disconnected : A) (q : AsyncEventQueue A) → IsOrdered q → IsOrdered (close disconnected q)
  unfolding close
  close-IsOrdered disconnected q h =
      release-IsOrdered disconnected q.waiters (record q { closed = true })
        (elim h.one_empty [ inl k ↦ inr k | inr k ↦ inl k ]) h.served

  release-closed :
      (disconnected : A) (ws : List ℕ) (q : AsyncEventQueue A)
      → (release disconnected ws q).closed ≡ q.closed
  unfolding release
  release-closed disconnected [] q = refl
  release-closed disconnected (w ∷ ws) q = release-closed disconnected ws _

  pub close-closed :
      (disconnected : A) (q : AsyncEventQueue A) → (close disconnected q).closed ≡ true
  unfolding close
  close-closed disconnected q = release-closed disconnected q.waiters (record q { closed = true })

  steps-IsOrdered :
      (cs : List (Call A)) (q : AsyncEventQueue A) → IsOrdered q → IsOrdered (run cs q)
  unfolding run
  steps-IsOrdered [] q h = h
  steps-IsOrdered (pushes item ∷ cs) q h =
      steps-IsOrdered cs (push item q) (push-IsOrdered item q h)
  steps-IsOrdered (asks ∷ cs) q h = steps-IsOrdered cs (next q) (next-IsOrdered q h)
  steps-IsOrdered (closes d ∷ cs) q h = steps-IsOrdered cs (close d q) (close-IsOrdered d q h)

-- After any calls, events are kept only while no promise waits, none waits once the queue is
-- closed, and the promises that `next` gave out are settled in that order, each of them once.
pub run-IsOrdered {ℓ} : {A : Type ℓ} (cs : List (Call A)) → IsOrdered (run cs create)
unfolding create
run-IsOrdered cs =
    steps-IsOrdered cs create
      (record { one_empty = inl refl; nobody_left = λ k. refl; served = refl })
