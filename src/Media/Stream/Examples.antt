-- ===== src/Media/Stream/Examples.antt =====
-- packages/wazeko/src/media/stream-handler.ts: an example, with streams that pass chunks on.
use wazeko.Prelude.{◌≡◌, refl, List, [], ◌∷◌, append-nil}
use wazeko.Text.{codes}
use wazeko.Core.Errors.{ok}
use wazeko.Core.Bytes.{zeros}
use wazeko.Core.Crypto.{Bytes}
use wazeko.Core.Media.{audio, encrypt_media}
use wazeko.Core.Plain.{plain_crypto}
use wazeko.Media.Stream.{StreamModule, IsStream, encrypt_media_stream}
use wazeko.Media.Stream.Agreement.{streamed, encrypt_media_stream-encrypt_media}

abbrev plain_stream : StreamModule
plain_stream = record {
  read_stream = λ file. file ∷ [];
  cipher = λ key iv chunks. ok chunks;
  decipher = λ key iv chunks. ok chunks;
}

plain_stream-IsStream : IsStream plain_crypto plain_stream
plain_stream-IsStream = record {
  joined-read_stream = append-nil;
  joined-cipher = λ key iv chunks. refl;
  joined-decipher = λ key iv chunks. refl;
}

abbrev three_chunks : List Bytes
three_chunks = (1 ∷ 2 ∷ []) ∷ [] ∷ (3 ∷ []) ∷ []

encrypt_media_stream-encrypt_media_example :
    encrypt_media_stream plain_crypto plain_stream (zeros 32) (codes "media.tmp") three_chunks audio
    ≡ streamed plain_crypto
        (codes "media.tmp")
        (1 ∷ 2 ∷ 3 ∷ [])
        (encrypt_media plain_crypto (zeros 32) (1 ∷ 2 ∷ 3 ∷ []) audio)
encrypt_media_stream-encrypt_media_example =
    encrypt_media_stream-encrypt_media plain_crypto plain_stream plain_stream-IsStream (zeros 32)
      (codes "media.tmp") three_chunks audio
