-- ===== src/Transform.antt =====
-- pkg/tranform: what is done to a payload on its way out, and undone on its way in. The ciphers and
-- compressors, which are other packages' code, are parameters.
pub mod Pipeline
use mathlib.Core.List.{reverse}
use n2n_go.Base.{ℕ, suc, Option, List, [], ◌∷◌, ◌++◌, ltb, if◌then◌else◌, length, take, drop}
use n2n_go.Base.Exec.{Result, err, or_fail, ok, ◌>>=◌}
use n2n_go.Base.Keys.{Text}
use n2n_go.Errors.{Error}

-- `Transform`. Applying it may draw random bytes, so many as asked for, or fail to.
pub record Transform : Type 0 where
  pub apply : (ℕ → Option Text) → Text → Result Error Text
  pub undo : Text → Result Error Text

-- `NewNoOpTransform`
abbrev pub no_op_transform : Transform
no_op_transform = record { apply = λ random payload. ok payload; undo = λ payload. ok payload }

-- `cipher.AEAD`, with no additional data
pub record Aead : Type 0 where
  pub nonce_size : ℕ
  pub seal : Text → Text → Text
  pub unseal : Text → Text → Option Text

-- `aesGCMTransform.Apply`: the nonce stands in front.
unfoldable pub aes_gcm_apply : Aead → (ℕ → Option Text) → Text → Result Error Text
aes_gcm_apply gcm random plaintext = do
  nonce ← or_fail Error.nonce_failed (random gcm.nonce_size)
  ok (nonce ++ gcm.seal nonce plaintext)

-- `aesGCMTransform.Reverse`
unfoldable pub aes_gcm_reverse : Aead → Text → Result Error Text
aes_gcm_reverse gcm ciphertext =
    if ltb (length ciphertext) gcm.nonce_size
    then err Error.ciphertext_too_short
    else or_fail Error.open_failed
        (gcm.unseal (take gcm.nonce_size ciphertext) (drop gcm.nonce_size ciphertext))

abbrev pub aes_gcm_transform : Aead → Transform
aes_gcm_transform gcm = record { apply = aes_gcm_apply gcm; undo = aes_gcm_reverse gcm }

-- `NewAESGCMTransform`, from the passphrase; `new_gcm` is `aes.NewCipher` and `cipher.NewGCM`.
unfoldable pub new_aes_gcm_transform :
    (Text → Text) → (Text → Option Aead) → Text → Result Error Transform
new_aes_gcm_transform sha256 new_gcm passphrase = do
  gcm ← or_fail Error.open_failed (new_gcm (sha256 passphrase))
  ok (aes_gcm_transform gcm)

-- An encoder that is reset, written to and closed, and a decoder that is reset and read to its end.
pub record Compressor : Type 0 where
  pub compress : Text → Option Text
  pub decompress : Text → Option Text

-- `zstdTransform`
unfoldable pub zstd_transform : Compressor → Transform
zstd_transform c = record {
  apply = λ random payload. or_fail Error.compress_failed (c.compress payload);
  undo = λ payload. or_fail Error.decompress_failed (c.decompress payload);
}

-- `PayloadProcessor`, and the two loops of its methods. The `i`-th transform draws from `random i`.
pub record PayloadProcessor : Type 0 where
  pub transforms : List Transform

-- `NewPayloadProcessor`
unfoldable pub new_payload_processor : List Transform → Result Error PayloadProcessor
new_payload_processor [] = err Error.no_transforms
new_payload_processor (t ∷ ts) = ok (record { transforms = t ∷ ts })

apply_from : (ℕ → ℕ → Option Text) → ℕ → List Transform → Text → Result Error Text
apply_from random i [] payload = ok payload
apply_from random i (t ∷ ts) payload = t.apply (random i) payload >>= apply_from random (suc i) ts

-- `PrepareOutput`
unfoldable pub prepare_output : (ℕ → ℕ → Option Text) → PayloadProcessor → Text → Result Error Text
unfolding apply_from
prepare_output random p payload = apply_from random 0 p.transforms payload

undo_each : List Transform → Text → Result Error Text
undo_each [] payload = ok payload
undo_each (t ∷ ts) payload = t.undo payload >>= undo_each ts

-- `ParseInput`, from the last transform to the first
unfoldable pub parse_input : PayloadProcessor → Text → Result Error Text
unfolding undo_each
parse_input p payload = undo_each (reverse p.transforms) payload
