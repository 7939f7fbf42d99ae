-- ===== src/Core/Signal/Store.antt =====
-- packages/wazeko-core/src/signal.ts, `SignalSessionStore`: who shares a session with whom.
use wazeko.Prelude.{
  ℕ, ◌≡◌, ◌<◌, refl, sym, ap, subst, inl, inr, Option, some, Option-cases, List, [], ◌∷◌, arith,
  length, length-append,
}
use wazeko.Text.{Text, text_eq_iff}
use wazeko.Map.{Map, text_key, get-set}
use wazeko.Map as Maps
use wazeko.Types.Jid.{JidOrText}
use wazeko.Queue.RateLimiter.{or_else}
use wazeko.Core.Crypto.{Bytes, CryptoModule}
use wazeko.Core.Signal.{
  SignalSessionStore, session_key, create_session, get_or_insert, get_or_create_session,
}

-- A store gives each session to one text only, and every place it gives is one of its heap.
pub record OneEach (s : SignalSessionStore) : Type 0 where
  pub placed : (a : Text) (i : ℕ) → Maps.get a s.sessions ≡ some i → i < length s.heap
  pub one :
      (a b : Text) (i : ℕ) → Maps.get a s.sessions ≡ some i → Maps.get b s.sessions ≡ some i → a ≡ b

-- What one call asks for.
pub record Request : Type 0 where
  pub remote : JidOrText
  pub shared_secret : Option Bytes
  pub random : Bytes

module _ (m : CryptoModule) where
  abbrev pub ask : Request → SignalSessionStore → ℕ × SignalSessionStore
  ask r s = get_or_create_session m r.remote r.shared_secret r.random s

  abbrev pub ask_all : List Request → SignalSessionStore → SignalSessionStore
  ask_all [] s = s
  ask_all (r ∷ rs) s = ask_all rs (ask r s).1

  found_after :
      (key : Text) (secret : Bytes) (s : SignalSessionStore)
      → Maps.get key (get_or_insert m (Maps.get key s.sessions) key secret s).1.sessions
        ≡ some (get_or_insert m (Maps.get key s.sessions) key secret s).0
  found_after key secret s = elim (Option-cases (Maps.get key s.sessions)) [
    | inl e ↦ rw e (ground (arith, get-set key key (length s.heap) s.sessions, text_eq_iff key key))
    | inr (i, e) ↦ rw (e, e) refl
  ]

  kept_after :
      (key a : Text) (secret : Bytes) (s : SignalSessionStore) (i : ℕ)
      → Maps.get a s.sessions ≡ some i
      → Maps.get a (get_or_insert m (Maps.get key s.sessions) key secret s).1.sessions ≡ some i
  kept_after key a secret s i h = elim (Option-cases (Maps.get key s.sessions)) [
    | inl e ↦ rw e (ground (arith, get-set key a (length s.heap) s.sessions, text_eq_iff key a))
    | inr (j, e) ↦ rw e h
  ]

  OneEach-after :
      (key : Text) (secret : Bytes) (s : SignalSessionStore)
      → OneEach s
      → OneEach (get_or_insert m (Maps.get key s.sessions) key secret s).1
  OneEach-after key secret s v = elim (Option-cases (Maps.get key s.sessions)) [
    | inl e ↦
        subst (λ o. OneEach (get_or_insert m o key secret s).1) (sym e)
          (record {
            placed = λ a i h. ground (
              arith,
              get-set key a (length s.heap) s.sessions,
              length-append {0} s.heap (create_session m secret ∷ []),
              v.placed a i,
            );
            one = λ a b i h k. ground (
              arith,
              get-set key a (length s.heap) s.sessions,
              get-set key b (length s.heap) s.sessions,
              text_eq_iff key a,
              text_eq_iff key b,
              v.placed a i,
              v.placed b i,
              v.one a b i,
            );
          })
    | inr (j, e) ↦ subst (λ o. OneEach (get_or_insert m o key secret s).1) (sym e) v
  ]

  -- A call keeps the store one of separate sessions, and gives a place of the heap.
  pub get_or_create_session-OneEach :
      (r : Request) (s : SignalSessionStore)
      → OneEach s
      → OneEach (ask r s).1 × ((ask r s).0 < length (ask r s).1.heap)
  unfolding get_or_create_session
  get_or_create_session-OneEach r s v =
      let key = session_key r.remote in
      let after = OneEach-after key (or_else r.shared_secret r.random) s v in
      (after, after.placed key (ask r s).0 (found_after key (or_else r.shared_secret r.random) s))

  ask_all-kept :
      (rs : List Request) (a : Text) (i : ℕ) (s : SignalSessionStore)
      → Maps.get a s.sessions ≡ some i
      → Maps.get a (ask_all rs s).sessions ≡ some i
  unfolding get_or_create_session
  ask_all-kept [] a i s h = h
  ask_all-kept (r ∷ rs) a i s h =
      ask_all-kept rs a i (ask r s).1
        (kept_after (session_key r.remote) a (or_else r.shared_secret r.random) s i h)

  -- Whoever asked for a session once gets the same one at every later call for the same JID,
  -- whatever was asked for in between and whatever secret the later call brings.
  pub get_or_create_session-again :
      (r later : Request) (rs : List Request) (s : SignalSessionStore)
      → session_key later.remote ≡ session_key r.remote
      → (ask later (ask_all rs (ask r s).1)).0 ≡ (ask r s).0
  unfolding get_or_create_session
  get_or_create_session-again r later rs s same =
      let key = session_key r.remote in
      let kept =
        ask_all-kept rs key (ask r s).0 (ask r s).1
          (found_after key (or_else r.shared_secret r.random) s) in
      let kept' =
        subst (λ k. Maps.get k (ask_all rs (ask r s).1).sessions ≡ some (ask r s).0) (sym same)
          kept in
      ap
        (λ (o : Option ℕ).
          (get_or_insert m o (session_key later.remote) (or_else later.shared_secret later.random)
            (ask_all rs (ask r s).1)).0)
        kept'
