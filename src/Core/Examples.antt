-- ===== src/Core/Examples.antt =====
-- packages/wazeko-core/src: examples, with ciphers that keep what they are given.
use wazeko.Prelude.{◌≡◌, refl, none, some, List, [], ◌∷◌, ◌++◌, length, ◌+◌}
use wazeko.Text.{codes}
use wazeko.Map.{text_key, number_key}
use wazeko.Types.Jid.{text}
use wazeko.Core.Errors.{ok}
use wazeko.Core.Rows.{each}
use wazeko.Core.Bytes.{zeros}
use wazeko.Core.Crypto.{Bytes, KeyPair, aes_cbc_decrypt, aes_cbc_encrypt}
use wazeko.Core.Plain.{plain_crypto, plain_crypto-IsCrypto}
use wazeko.Core.Noise.{
  CipherState, ServerHello, create, initiate_handshake, process_server_hello, craft_server_hello,
  encrypt_frame, decrypt_frame,
}
use wazeko.Core.Noise.Handshake.{process_server_hello-craft_server_hello}
use wazeko.Core.Noise.Frames.{each-decrypt_frame}
use wazeko.Core.Signal.{
  SignalEncryptedMessage, SignalSessionStore, create_manager, create_session, get_signed_pre_key,
  decrypt,
}
use wazeko.Core.Signal.Sessions.{encrypt_with, each-decrypt}
use wazeko.Core.Signal.PreKeys.{IsValid}
use wazeko.Core.Signal.Store.{Request}
use wazeko.Core.Media.{
  EncryptedMediaResult, video, derive_media_keys, media_mac, encrypt_media, decrypt_media,
}
use wazeko.Core.Media.Integrity.{decrypt_media-encrypt_media, decrypt_media-authentic}

abbrev one_pair : KeyPair
one_pair = record { public_key = zeros 32; private_key = zeros 32 }

abbrev other_pair : KeyPair
other_pair = record { public_key = 1 ∷ zeros 31; private_key = 2 ∷ zeros 31 }

abbrev sender : CipherState
sender = record { enc_key = zeros 32; dec_key = zeros 32; enc_counter = 7; dec_counter = 0 }

abbrev receiver : CipherState
receiver = record { enc_key = zeros 32; dec_key = zeros 32; enc_counter = 0; dec_counter = 7 }

each-decrypt_frame_example :
    (fs : List Bytes) × ((each (encrypt_frame plain_crypto) ((1 ∷ 2 ∷ []) ∷ (3 ∷ []) ∷ []) sender).0
      ≡ ok fs)
    × ((each (decrypt_frame plain_crypto) fs receiver).0 ≡ ok ((1 ∷ 2 ∷ []) ∷ (3 ∷ []) ∷ []))
each-decrypt_frame_example =
    each-decrypt_frame plain_crypto plain_crypto-IsCrypto ((1 ∷ 2 ∷ []) ∷ (3 ∷ []) ∷ []) sender
      receiver refl refl refl

process_server_hello-craft_server_hello_example :
    (hello : ServerHello) × ((craft_server_hello plain_crypto
        (9 ∷ [])
        (create plain_crypto one_pair other_pair)).0
      ≡ ok hello)
    × ((process_server_hello plain_crypto hello.server_ephemeral hello.server_payload_enc
          (initiate_handshake plain_crypto (create plain_crypto other_pair one_pair)).1).0
        ≡ ok (9 ∷ []))
process_server_hello-craft_server_hello_example =
    process_server_hello-craft_server_hello plain_crypto plain_crypto-IsCrypto one_pair other_pair
      other_pair one_pair (9 ∷ []) refl

abbrev two_messages : List (Bytes × Bytes)
two_messages = (zeros 16, 5 ∷ []) ∷ (zeros 16, 6 ∷ 7 ∷ []) ∷ []

each-decrypt_example :
    (es : List SignalEncryptedMessage) × ((each
        (encrypt_with plain_crypto)
        two_messages
        (create_session plain_crypto (zeros 32))).0
      ≡ ok es)
    × ((each (decrypt plain_crypto) es (create_session plain_crypto (zeros 32))).0
        ≡ ok ((5 ∷ []) ∷ (6 ∷ 7 ∷ []) ∷ []))
each-decrypt_example =
    each-decrypt plain_crypto plain_crypto-IsCrypto two_messages
      (create_session plain_crypto (zeros 32)) (create_session plain_crypto (zeros 32))
      (refl, (refl, tt)) refl refl

no_keys-IsValid : IsValid create_manager
unfolding get_signed_pre_key
no_keys-IsValid = record { known = λ i k e. cc; named = λ i k e. cc }

abbrev no_sessions : SignalSessionStore
no_sessions = record { sessions = []; heap = [] }

abbrev to_anna : Request
to_anna = record { remote = text (codes "anna"); shared_secret = none; random = zeros 32 }

abbrev to_boris : Request
to_boris = record { remote = text (codes "boris"); shared_secret = some (zeros 32); random = [] }

decrypt_media-encrypt_media_example :
    (r : EncryptedMediaResult) × (c : Bytes) × (encrypt_media plain_crypto
        (zeros 32)
        (1 ∷ 2 ∷ [])
        video
      ≡ ok r)
    × (aes_cbc_encrypt plain_crypto
          (derive_media_keys plain_crypto (zeros 32) video).cipher_key
          (derive_media_keys plain_crypto (zeros 32) video).iv
          (1 ∷ 2 ∷ [])
        ≡ ok c)
    × (length r.encrypted_payload ≡ length c + 10)
    × (decrypt_media plain_crypto r.encrypted_payload r.media_key video ≡ ok (1 ∷ 2 ∷ []))
decrypt_media-encrypt_media_example =
    decrypt_media-encrypt_media plain_crypto plain_crypto-IsCrypto (zeros 32) (1 ∷ 2 ∷ []) video

decrypt_media-authentic_example :
    (c : Bytes) × (zeros 10
      ≡ c ++ media_mac plain_crypto (derive_media_keys plain_crypto [] video) c)
    × (aes_cbc_decrypt plain_crypto
          (derive_media_keys plain_crypto [] video).cipher_key
          (derive_media_keys plain_crypto [] video).iv
          c
        ≡ ok [])
unfolding decrypt_media
decrypt_media-authentic_example =
    decrypt_media-authentic plain_crypto plain_crypto-IsCrypto (zeros 10) [] [] video refl
