-- ===== src/Auth/Store.antt =====
-- packages/wazeko-auth/src/store.ts: what an auth store promises, and the store in memory. No store
-- reads a field of the credentials: they are a value that goes through `JSON` or stays as it is.
use wazeko.Prelude.{All, ℕ, ◌≡◌, refl, Option, none, some, []}
use wazeko.Text.{Text}
use wazeko.Text.Utf8.{IsScalar}
use wazeko.Core.Errors.{Thrown, Void, Result, ok, threw}

pub data AuthMethod : Type 0 where
  qr pairing_code : AuthMethod

-- An implementation of `AuthStore` with what it keeps. A load changes nothing.
pub record AuthStore (V : Type 0) : Type 1 where
  pub State : Type 0
  pub load : State → Result (Option V)
  pub save : V → State → Result Void × State
  pub clear : State → Result Void × State

-- The contract of a store whose loads give `kept v` where `v` was saved: in a state that is ready,
-- a save and a clear return, are what the next load sees, and leave the store ready.
pub record IsAuthStore {V : Type 0} (kept : V → V) (s : AuthStore V) : Type 1 where
  pub IsReady : s.State → Type 0
  pub load-save :
      (v : V) (x : s.State)
      → IsReady x
      → ((s.save v x).0 ≡ ok tt)
        × (s.load (s.save v x).1 ≡ ok (some (kept v)))
        × IsReady (s.save v x).1
  pub load-clear :
      (x : s.State)
      → IsReady x
      → ((s.clear x).0 ≡ ok tt) × (s.load (s.clear x).1 ≡ ok none) × IsReady (s.clear x).1

-- `JSON` on the values that a program gives it: `as_read` is the value that comes back, which is
-- another one where, say, a field is an array of bytes.
pub record JsonModule : Type 1 where
  pub Value : Type 0
  pub stringify : Value → Text
  pub stringify_by : ℕ → Value → Text
  pub parse : Text → Result Value
  pub as_read : Value → Value

pub record IsJson (j : JsonModule) : Type 0 where
  pub parse-stringify : (v : j.Value) → j.parse (j.stringify v) ≡ ok (j.as_read v)
  pub parse-stringify_by : (n : ℕ) (v : j.Value) → j.parse (j.stringify_by n v) ≡ ok (j.as_read v)
  pub scalars : (v : j.Value) → All IsScalar (j.stringify v)
  pub parse_empty : (e : Thrown) × (j.parse [] ≡ threw e)

-- `MemoryAuthStore`; the copy that a save keeps has the same fields.
abbrev pub memory_auth_store : (V : Type 0) → AuthStore V
memory_auth_store V = record {
  State = Option V;
  load = λ credentials. ok credentials;
  save = λ credentials _. (ok tt, some credentials);
  clear = λ _. (ok tt, none);
}

pub memory_auth_store-IsAuthStore : (V : Type 0) → IsAuthStore (λ (v : V). v) (memory_auth_store V)
memory_auth_store-IsAuthStore V = record {
  IsReady = λ _. Unit;
  load-save = λ v x _. (refl, refl, tt);
  load-clear = λ x _. (refl, refl, tt);
}

pub memory_auth_store-IsReady :
    (V : Type 0) (x : Option V) → (memory_auth_store-IsAuthStore V).IsReady x
unfolding memory_auth_store-IsAuthStore
memory_auth_store-IsReady V x = tt
