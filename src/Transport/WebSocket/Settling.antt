-- ===== src/Transport/WebSocket/Settling.antt =====
-- packages/wazeko-transport/src/websocket.ts: what settles the promise of `connect`.
use wazeko.Prelude.{
  ℕ, zero, suc, true, false, List, [], ◌∷◌, ◌++◌, ◌≡◌, refl, arith, sym, Bool, Bool-cases, Option,
  none, some, get_elem?, ◌==◌, ◌∙◌, not, if◌then◌else◌, inl, inr, if_false, ap, if_true,
}
use wazeko.Text.{codes}
use wazeko.Text.Decimal.{decimal}
use wazeko.Core.Errors.{connection_error}
use wazeko.Transport.WebSocket.{
  Settlement, resolved, rejected, Attempt, WebSocketTransport, settle, settle_at, Event, connect,
  connect_fails, opened, message, closed, errored, listens_for_errors, close, close_socket, step,
  run,
}

-- How an event settles the promise of attempt `i`, if nothing settled it before.
abbrev pub decides : ℕ → Event → Option Settlement
decides i (opened j) = if j == i then some resolved else none
decides i (closed j code reason) =
    if j == i
    then some (
        rejected (
          connection_error
            (codes "WebSocket closed before connected (code: " ++ (decimal code ++ codes ")"))))
    else none
decides i (errored j e) =
    if j == i
    then some (rejected (connection_error (codes "WebSocket connection error: " ++ e)))
    else none
decides i _ = none

abbrev pub or_later : Option Settlement → Option Settlement → Option Settlement
or_later none later = later
or_later (some s) later = some s

-- An error that no one listens for, by whether someone listens before it.
abbrev pub is_unheard : Bool → Event → Bool
is_unheard heard (errored j e) = not heard
is_unheard heard _ = false

abbrev pub hears : Bool → Event → Bool
hears heard listens_for_errors = true
hears heard _ = heard

-- The settlement by the first event that decides, if the process lives to see it.
unfoldable pub first_of : ℕ → Bool → List Event → Option Settlement
first_of i heard [] = none
first_of i heard (e ∷ es) =
    let later = first_of i (hears heard e) es in
    if is_unheard heard e then none else or_later (decides i e) later

abbrev pub attempt_by : Option Settlement → Attempt
attempt_by none = record { settled = false; settlements = [] }
attempt_by (some s) = record { settled = true; settlements = s ∷ [] }

append-get {ℓ} :
    {A : Type ℓ} (i : ℕ) (a : A) (xs ys : List A)
    → get_elem? xs i ≡ some a
    → get_elem? (xs ++ ys) i ≡ some a
append-get i a [] ys h = cc
append-get zero a (x ∷ xs) ys h = h
append-get (suc i) a (x ∷ xs) ys h = append-get i a xs ys h

-- What an event does to the attempt `i`, where `o` settled it so far.
settle-attempt_by :
    (s : Settlement) (o : Option Settlement)
    → settle s (attempt_by o) ≡ attempt_by (or_later o (some s))
unfolding settle
settle-attempt_by s none = refl
settle-attempt_by s (some r) = refl

later-none : (o : Option Settlement) → or_later o none ≡ o
later-none none = refl
later-none (some s) = refl

settle_at-get :
    (i j : ℕ) (s : Settlement) (o : Option Settlement) (as' : List Attempt)
    → get_elem? as' i ≡ some (attempt_by o)
    → get_elem? (settle_at j s as') i
      ≡ some (attempt_by (or_later o (if j == i then some s else none)))
unfolding settle_at
settle_at-get i j s o [] h = cc
settle_at-get zero zero s o (a ∷ as') h =
    let e : a ≡ attempt_by o = cc in rw (e, settle-attempt_by s o) refl
settle_at-get zero (suc j) s o (a ∷ as') h =
    let n : (suc j == zero) ≡ false = ground arith in rw (n, later-none o) h
settle_at-get (suc i) zero s o (a ∷ as') h =
    let n : (zero == suc i) ≡ false = ground arith in rw (n, later-none o) h
settle_at-get (suc i) (suc j) s o (a ∷ as') h =
    let n : (suc j == suc i) ≡ (j == i) = ground arith in rw n (settle_at-get i j s o as' h)

step-get :
    (i : ℕ) (e : Event) (t : WebSocketTransport) (o : Option Settlement)
    → is_unheard t.has_error_listener e ≡ false
    → get_elem? t.attempts i ≡ some (attempt_by o)
    → get_elem? (step e t).attempts i ≡ some (attempt_by (or_later o (decides i e)))
unfolding step close_socket
step-get i connect t o u h = rw (later-none o) (append-get i _ t.attempts _ h)
step-get i (connect_fails e) t o u h = rw (later-none o) (append-get i _ t.attempts _ h)
step-get i (opened j) t o u h = settle_at-get i j _ o t.attempts h
step-get i (message j d) t o u h = rw (later-none o) h
step-get i (closed j code reason) t o u h = settle_at-get i j _ o t.attempts h
step-get i (errored j e) t o u h =
    let on : t.has_error_listener ≡ true = ground arith in
    rw on (settle_at-get i j _ o t.attempts h)
step-get i listens_for_errors t o u h = rw (later-none o) h
step-get i close t o u h = rw (later-none o) h

or_later_assoc : (o p q : Option Settlement) → or_later (or_later o p) q ≡ or_later o (or_later p q)
or_later_assoc none p q = refl
or_later_assoc (some s) p q = refl

step-heard :
    (e : Event) (t : WebSocketTransport)
    → is_unheard t.has_error_listener e ≡ false
    → ((step e t).crashed ≡ t.crashed)
      × ((step e t).has_error_listener ≡ hears t.has_error_listener e)
unfolding step close_socket
step-heard connect t u = (refl, refl)
step-heard (connect_fails e) t u = (refl, refl)
step-heard (opened j) t u = (refl, refl)
step-heard (message j d) t u = (refl, refl)
step-heard (closed j code reason) t u = (refl, refl)
step-heard (errored j e) t u =
    let on : t.has_error_listener ≡ true = ground arith in rw on (refl, refl)
step-heard listens_for_errors t u = (refl, refl)
step-heard close t u = (refl, refl)

step-unheard :
    (e : Event) (t : WebSocketTransport)
    → is_unheard t.has_error_listener e ≡ true
    → step e t ≡ record t { crashed = true }
unfolding step
step-unheard (errored j e) t u =
    let off : t.has_error_listener ≡ false = ground arith in if_false _ _ _ off
step-unheard connect t u = absurd cc
step-unheard (connect_fails e) t u = absurd cc
step-unheard (opened j) t u = absurd cc
step-unheard (message j d) t u = absurd cc
step-unheard (closed j code reason) t u = absurd cc
step-unheard listens_for_errors t u = absurd cc
step-unheard close t u = absurd cc

run-crashed : (es : List Event) (t : WebSocketTransport) → t.crashed ≡ true → run es t ≡ t
unfolding run
run-crashed [] t h = refl
run-crashed (e ∷ es) t h = ap (run es) (if_true _ _ _ h) ∙ run-crashed es t h

run-get :
    (i : ℕ) (es : List Event) (t : WebSocketTransport) (o : Option Settlement)
    → t.crashed ≡ false
    → get_elem? t.attempts i ≡ some (attempt_by o)
    → get_elem? (run es t).attempts i
      ≡ some (attempt_by (or_later o (first_of i t.has_error_listener es)))
unfolding run first_of
run-get i [] t o c h = rw (later-none o) h
run-get i (e ∷ es) t o c h =
    let attempt = λ (t : WebSocketTransport). get_elem? t.attempts i in
    let by = λ (o : Option Settlement). some (attempt_by o) in
    let living : run (e ∷ es) t ≡ run es (step e t) = ap (run es) (if_false _ _ _ c) in
    elim (Bool-cases (is_unheard t.has_error_listener e)) [
      | inl u ↦
          let ends =
            ap (run es) (step-unheard e t u) ∙ run-crashed es (record t { crashed = true }) refl in
          ap attempt (living ∙ ends)
          ∙ h
          ∙ ap by (sym (later-none o) ∙ ap (or_later o) (sym (if_true _ _ _ u)))
      | inr u ↦
          let heard = step-heard e t u in
          let d = decides i e in
          ap attempt living
          ∙ run-get i es (step e t) (or_later o d) (heard.0 ∙ c) (step-get i e t o u h)
          ∙ ap by (
              ap (λ (b : Bool). or_later (or_later o d) (first_of i b es)) heard.1
              ∙ or_later_assoc o d (first_of i (hears t.has_error_listener e) es)
              ∙ ap (or_later o) (sym (if_false _ _ _ u)))
    ]

-- Once `connect` has made a socket, its promise is settled by the first of these events of that
-- socket, if one comes: it is resolved if the socket opens, and rejected, with the code or the
-- message, if it closes or fails. It is not settled again, and other sockets, further calls of
-- `connect` and `close` do not settle it. Where an error comes that no one listens for, at any
-- socket, the process ends and nothing settles it later.
pub run-settles :
    (i : ℕ) (es : List Event) (t : WebSocketTransport)
    → t.crashed ≡ false
    → get_elem? t.attempts i ≡ some (record { settled = false; settlements = [] })
    → get_elem? (run es t).attempts i ≡ some (attempt_by (first_of i t.has_error_listener es))
run-settles i es t c h = run-get i es t none c h
