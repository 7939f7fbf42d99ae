-- ===== src/Auth/KeyValue.antt =====
-- packages/wazeko-auth/src/db-store.ts.
use wazeko.Prelude.{ℕ, ◌≡◌, refl, ap, ◌∙◌, Option, none, some, [], ◌∷◌, ◌++◌, if_true}
use wazeko.Text.{Text, codes, text_eq_self}
use wazeko.Map.{Map, text_key, get-set, get-delete}
use wazeko.Map as Maps
use wazeko.Queue.RateLimiter.{or_else}
use wazeko.Core.Errors.{Void, Result, ok, threw}
use wazeko.Auth.Store.{AuthStore, IsAuthStore, JsonModule, IsJson}

-- An implementation of the interface, with what it keeps; the answers of a database that fails are
-- errors.
pub record KeyValueDatabaseAdapter : Type 1 where
  pub Database : Type 0
  pub get : Text → Database → Result (Option Text)
  pub set : Text → Text → Option ℕ → Database → Result Void × Database
  pub del : Text → Database → Result Void × Database

-- A database that works: it answers what was set last.
pub record IsAdapter (a : KeyValueDatabaseAdapter) : Type 1 where
  pub Works : a.Database → Type 0
  pub get-set :
      (key value : Text) (ttl : Option ℕ) (d : a.Database)
      → Works d
      → ((a.set key value ttl d).0 ≡ ok tt)
        × (a.get key (a.set key value ttl d).1 ≡ ok (some value))
        × Works (a.set key value ttl d).1
  pub get-del :
      (key : Text) (d : a.Database)
      → Works d
      → ((a.del key d).0 ≡ ok tt) × (a.get key (a.del key d).1 ≡ ok none) × Works (a.del key d).1

pub record KeyValAuthStoreOptions : Type 0 where
  pub key_prefix : Option Text
  pub ttl_seconds : Option ℕ

-- `KeyValAuthStore`: the key of a session.
abbrev pub session_key : Text → KeyValAuthStoreOptions → Text
session_key session_id options = or_else options.key_prefix (codes "wazeko:auth:") ++ session_id

module _ (j : JsonModule) where
  abbrev pub parsed_or_null : Result j.Value → Result (Option j.Value)
  parsed_or_null (ok v) = ok (some v)
  parsed_or_null (threw e) = ok none

  abbrev pub loaded : Result (Option Text) → Result (Option j.Value)
  loaded (ok (some (c ∷ cs))) = parsed_or_null (j.parse (c ∷ cs))
  loaded (ok (some [])) = ok none
  loaded (ok none) = ok none
  loaded (threw e) = threw e

  unfoldable pub key_val_auth_store :
      KeyValueDatabaseAdapter → Text → KeyValAuthStoreOptions → AuthStore j.Value
  key_val_auth_store a session_id options = record {
    State = a.Database;
    load = λ d. loaded (a.get (session_key session_id options) d);
    save = λ credentials d.
        a.set (session_key session_id options) (j.stringify credentials) options.ttl_seconds d;
    clear = λ d. a.del (session_key session_id options) d;
  }

  loaded-text :
      (t : Text) (v : j.Value) → IsJson j → j.parse t ≡ ok v → loaded (ok (some t)) ≡ ok (some v)
  loaded-text [] v json h = let (e, thrown) = json.parse_empty in absurd cc
  loaded-text (c ∷ cs) v json h = ap parsed_or_null h

  -- Over a database that works, the store of any session keeps the contract of a store.
  pub key_val_auth_store-IsAuthStore :
      (a : KeyValueDatabaseAdapter) (session_id : Text) (options : KeyValAuthStoreOptions)
      → IsJson j
      → IsAdapter a
      → IsAuthStore j.as_read (key_val_auth_store a session_id options)
  unfolding key_val_auth_store
  key_val_auth_store-IsAuthStore a session_id options json works =
      let key = session_key session_id options in
      record {
        IsReady = works.Works;
        load-save = λ v d ready.
            let (out, there, still) =
              works.get-set key (j.stringify v) options.ttl_seconds d ready in
            (
              out,
              ap loaded there
                  ∙ loaded-text (j.stringify v) (j.as_read v) json (json.parse-stringify v),
              still,
            );
        load-clear = λ d ready.
            let (out, gone, still) = works.get-del key d ready in (out, ap loaded gone, still);
      }

-- `InMemoryKeyValueAdapter`.
abbrev answered : Option Text → Result (Option Text)
answered o = ok o

unfoldable pub in_memory_adapter : KeyValueDatabaseAdapter
unfolding Maps.get Maps.set Maps.delete
in_memory_adapter = record {
  Database = Map Text Text;
  get = λ key d. ok (Maps.get key d);
  set = λ key value _ d. (ok tt, Maps.set key value d);
  del = λ key d. (ok tt, Maps.delete key d);
}

-- The adapter in memory is a database that works.
pub in_memory_adapter-IsAdapter : IsAdapter in_memory_adapter
unfolding in_memory_adapter
in_memory_adapter-IsAdapter = record {
  Works = λ _. Unit;
  get-set = λ key value ttl d _.
      (refl, ap ok (get-set key key value d ∙ if_true _ _ _ (text_eq_self key)), tt);
  get-del = λ key d _. (refl, ap ok (get-delete key key d ∙ if_true _ _ _ (text_eq_self key)), tt);
}
