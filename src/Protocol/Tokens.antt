-- ===== src/Protocol/Tokens.antt =====
-- packages/wazeko-protocol/src/tokens.ts: the table of single-byte tokens and its inverse.
use wazeko.Prelude.{
  ℕ, zero, suc, ◌+◌, ◌-◌, ◌≤◌, ◌<◌, ◌≡◌, refl, Bool, true, false, ◌⊎◌, inl, inr, Option, none, some,
  List, [], ◌∷◌, arith, get_elem?, if◌then◌else◌, ◌&&◌, ◌==◌, get_elem?-lt_length,
}
use wazeko.Text.{Text, codes, text_eq, text_eq_iff}
use wazeko.Map.{Map, text_key, get, set, get-set}

abbrev pub single_byte_tokens : List Text
single_byte_tokens =
    codes ""
    ∷ codes "xmlstreamstart"
    ∷ codes "xmlstreamend"
    ∷ codes "s.whatsapp.net"
    ∷ codes "type"
    ∷ codes "participant"
    ∷ codes "from"
    ∷ codes "receipt"
    ∷ codes "to"
    ∷ codes "ribbon"
    ∷ codes "status_elapsed"
    ∷ codes "napi_version"
    ∷ codes "notify"
    ∷ codes "messages"
    ∷ codes "chat"
    ∷ codes "subject"
    ∷ codes "action"
    ∷ codes "presence"
    ∷ codes "response"
    ∷ codes "resume"
    ∷ codes "status"
    ∷ codes "set"
    ∷ codes "value"
    ∷ codes "get"
    ∷ codes "item"
    ∷ codes "preview"
    ∷ codes "w"
    ∷ codes "media"
    ∷ codes "read"
    ∷ codes "message"
    ∷ codes "pkmsg"
    ∷ codes "msg"
    ∷ codes "raw"
    ∷ codes "query"
    ∷ codes "body"
    ∷ codes "result"
    ∷ codes "media_type"
    ∷ codes "enc"
    ∷ codes "enc_v2"
    ∷ codes "notification"
    ∷ codes "ack"
    ∷ codes "call"
    ∷ codes "relay"
    ∷ codes "ib"
    ∷ codes "edge"
    ∷ codes "login"
    ∷ codes "iq"
    ∷ codes "ping"
    ∷ codes "pin"
    ∷ codes "pong"
    ∷ codes "config"
    ∷ codes "user"
    ∷ codes "group"
    ∷ codes "account"
    ∷ codes "auth"
    ∷ codes "success"
    ∷ codes "failure"
    ∷ []

abbrev is_empty : Text → Bool
is_empty [] = true
is_empty (c ∷ s) = false

-- `forEach((token, index) => { if (token) map.set(token, index); })`, from `index` on.
index_tokens : ℕ → List Text → Map Text ℕ → Map Text ℕ
unfolding set
index_tokens index [] m = m
index_tokens index (token ∷ tokens) m =
    index_tokens (index + 1) tokens (if is_empty token then m else set token index m)

token_to_index_map : Map Text ℕ
unfolding index_tokens
token_to_index_map = index_tokens 0 single_byte_tokens []

unfoldable pub get_token : ℕ → Option Text
get_token index = get_elem? single_byte_tokens index

unfoldable pub get_token_index : Text → Option ℕ
unfolding token_to_index_map get
get_token_index token = get token token_to_index_map

index_tokens_sound :
    (t : Text) (i : ℕ) (ts : List Text) (m : Map Text ℕ) (k : ℕ)
    → get t (index_tokens i ts m) ≡ some k
    → (get t m ≡ some k) ⊎ ((i ≤ k) × (get_elem? ts (k - i) ≡ some t))
unfolding index_tokens
index_tokens_sound t i [] m k h = inl h
index_tokens_sound t i (u ∷ ts) m k h = ground (
  arith,
  text_eq_iff u t,
  get-set u t i m,
  index_tokens_sound t (i + 1) ts (if is_empty u then m else set u i m) k h,
)

index_tokens_from_start :
    (t : Text) (ts : List Text) (k : ℕ)
    → get t (index_tokens 0 ts []) ≡ some k
    → get_elem? ts k ≡ some t
unfolding get
index_tokens_from_start t ts k h = elim (index_tokens_sound t 0 ts [] k h) [
  | inl e ↦ cc
  | inr (_, e) ↦ (let same : k - 0 ≡ k = omega arith in rw same at e)
]

-- An index found for a text is the text's place in the table.
pub get_token-get_token_index :
    (t : Text) (k : ℕ) → get_token_index t ≡ some k → get_token k ≡ some t
unfolding get_token get_token_index
get_token-get_token_index t k h = index_tokens_from_start t single_byte_tokens k h

-- The index of every token in the table but the empty one is its place: no token stands twice.
indexed_below : ℕ → Bool
indexed_below zero = true
indexed_below (suc k) = indexed_below k && elim (get_token (suc k)) [
  | none ↦ false
  | some t ↦ elim (get_token_index t) [ none ↦ false | some i ↦ i == suc k ]
]

indexed_below_sound :
    (n k : ℕ) (t : Text)
    → indexed_below n ≡ true
    → k < n
    → get_token (suc k) ≡ some t
    → get_token_index t ≡ some (suc k)
unfolding indexed_below
indexed_below_sound zero k t h l e = absurd (omega arith)
indexed_below_sound (suc n) k t h l e = ground (arith, indexed_below_sound n k t)

all_indexed : indexed_below 56 ≡ true
unfolding indexed_below get_token get_token_index text_eq
all_indexed = refl

-- The index of every token of the table but the empty one is its place: no token stands twice.
pub get_token_index-get_token :
    (k : ℕ) (t : Text) → 0 < k → get_token k ≡ some t → get_token_index t ≡ some k
get_token_index-get_token zero t pos h = absurd (omega arith)
get_token_index-get_token (suc k) t pos h =
    indexed_below_sound 56 k t all_indexed
      (unfold get_token in omega (arith, get_elem?-lt_length single_byte_tokens (suc k) h)) h
