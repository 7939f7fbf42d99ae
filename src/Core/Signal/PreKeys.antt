-- ===== src/Core/Signal/PreKeys.antt =====
-- packages/wazeko-core/src/signal.ts: the pre-keys of a manager.
use wazeko.Prelude.{ℕ, ◌≡◌, ◌<◌, inl, inr, none, some, Option-cases, arith}
use wazeko.Map.{text_key, number_key, get-set}
use wazeko.Core.Crypto.{CryptoModule, KeyPair}
use wazeko.Core.Signal.{SignedPreKey, PreKeyManager, generate_signed_pre_key, get_signed_pre_key}

-- The signed pre-keys of a manager have the identifiers from 1 up to the next one.
pub record IsValid (p : PreKeyManager) : Type 0 where
  pub known :
      (i : ℕ) (k : SignedPreKey) → get_signed_pre_key i p ≡ some k → i < p.current_signed_pre_key_id
  pub named : (i : ℕ) (k : SignedPreKey) → get_signed_pre_key i p ≡ some k → k.key_id ≡ i

module _ (m : CryptoModule) where
  -- In a valid manager, a signed pre-key that is generated gets an identifier that no other has,
  -- is found under it, and leaves those generated before where they are; the manager stays valid.
  pub generate_signed_pre_key-get :
      (identity kp : KeyPair) (p : PreKeyManager)
      → IsValid p
      → (get_signed_pre_key (generate_signed_pre_key m identity kp p).0.key_id p ≡ none)
        × (get_signed_pre_key
              (generate_signed_pre_key m identity kp p).0.key_id
              (generate_signed_pre_key m identity kp p).1
            ≡ some (generate_signed_pre_key m identity kp p).0)
        × ((i : ℕ) (k : SignedPreKey)
            → get_signed_pre_key i p ≡ some k
            → get_signed_pre_key i (generate_signed_pre_key m identity kp p).1 ≡ some k)
        × IsValid (generate_signed_pre_key m identity kp p).1
  unfolding generate_signed_pre_key get_signed_pre_key
  generate_signed_pre_key-get identity kp p v =
      let n = p.current_signed_pre_key_id in
      let key : SignedPreKey = (generate_signed_pre_key m identity kp p).0 in
      let found = λ (i : ℕ). get-set n i key p.signed_pre_keys in
      let unused : get_signed_pre_key n p ≡ none = elim (Option-cases (get_signed_pre_key n p)) [
        | inl e ↦ e
        | inr (k, e) ↦ absurd (let h = v.known n k e in omega arith)
      ] in
      (
        unused,
        ground (arith, found n),
        λ i k e. ground (arith, found i, v.known i k e),
        record {
          known = λ i k e. ground (arith, found i, v.known i k);
          named = λ i k e. ground (arith, found i, v.named i k);
        },
      )
