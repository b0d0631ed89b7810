-- ===== src/Transform/Pipeline.antt =====
-- The pipeline of pkg/tranform/processor.go undoes what it did.
use mathlib.Core.List.{reverse, reverse-cons}
use n2n_go.Base.{
  ℕ, suc, ◌≡◌, refl, sym, ap, subst, ◌∙◌, inl, inr, Option, some, List, [], ◌∷◌, ◌++◌, arith,
  Option-cases, length, take, drop, length-append, take-append, drop-append, All,
}
use n2n_go.Base.Exec.{bind_ok, or_fail, ◌>>=◌, err, ok, Result, or_fail_ok}
use n2n_go.Base.Keys.{Text}
use n2n_go.Errors.{Error}
use n2n_go.Transform.{
  Transform, Aead, prepare_output, parse_input, no_op_transform, aes_gcm_transform, zstd_transform,
  Compressor, aes_gcm_reverse, PayloadProcessor, aes_gcm_apply, undo_each, apply_from,
}

-- What is applied can be undone, where the random bytes are as many as asked for.
abbrev pub IsReversible : Transform → Type 0
IsReversible t =
    (random : ℕ → Option Text) (payload out : Text)
    → ((n : ℕ) (bytes : Text) → random n ≡ some bytes → length bytes ≡ n)
    → t.apply random payload ≡ ok out
    → t.undo out ≡ ok payload

pub no_op-IsReversible : IsReversible no_op_transform
no_op-IsReversible random payload out sized e = sym e

opened :
    (gcm : Aead) (nonce body plaintext : Text)
    → length nonce ≡ gcm.nonce_size
    → gcm.unseal nonce body ≡ some plaintext
    → aes_gcm_reverse gcm (nonce ++ body) ≡ ok plaintext
unfolding aes_gcm_reverse
opened gcm nonce body plaintext size opens =
    let front : take gcm.nonce_size (nonce ++ body) ≡ nonce =
      subst (λ n. take n (nonce ++ body) ≡ nonce) size (take-append nonce body) in
    let back : drop gcm.nonce_size (nonce ++ body) ≡ body =
      subst (λ n. drop n (nonce ++ body) ≡ body) size (drop-append nonce body) in
    ground (arith, length-append nonce body, front, back, opens)

-- AES-GCM can be undone, where opening gives back what was sealed under the same nonce.
pub aes_gcm-IsReversible :
    (gcm : Aead)
    → ((nonce plaintext : Text) → gcm.unseal nonce (gcm.seal nonce plaintext) ≡ some plaintext)
    → IsReversible (aes_gcm_transform gcm)
unfolding aes_gcm_apply aes_gcm_reverse
aes_gcm-IsReversible gcm opens random payload out sized e =
    let (nonce, drawn, made) =
      bind_ok (or_fail Error.nonce_failed (random gcm.nonce_size))
        (λ nonce. ok (nonce ++ gcm.seal nonce payload)) e in
    let size : length nonce ≡ gcm.nonce_size =
      sized gcm.nonce_size nonce (or_fail_ok Error.nonce_failed (random gcm.nonce_size) drawn) in
    let whole : nonce ++ gcm.seal nonce payload ≡ out = ground arith in
    subst (λ x. aes_gcm_reverse gcm x ≡ ok payload) whole
      (opened gcm nonce (gcm.seal nonce payload) payload size (opens nonce payload))

-- So can zstd, where what was compressed decompresses.
pub zstd-IsReversible :
    (c : Compressor)
    → ((payload out : Text) → c.compress payload ≡ some out → c.decompress out ≡ some payload)
    → IsReversible (zstd_transform c)
unfolding zstd_transform
zstd-IsReversible c inflates random payload out sized e = elim (Option-cases (c.compress payload)) [
  | inl failed ↦ absurd (ground (arith, failed))
  | inr (x, made) ↦ ground (arith, made, inflates payload x made)
]

undo_each-append :
    (xs ys : List Transform) (payload : Text)
    → undo_each (xs ++ ys) payload ≡ (undo_each xs payload >>= undo_each ys)
unfolding undo_each
undo_each-append [] ys payload = refl
undo_each-append (x ∷ xs) ys payload = bound (x.undo payload) (λ q. undo_each-append xs ys q)
  where
    bound :
        (r : Result Error Text)
        → ((q : Text) → undo_each (xs ++ ys) q ≡ (undo_each xs q >>= undo_each ys))
        → (r >>= undo_each (xs ++ ys)) ≡ ((r >>= undo_each xs) >>= undo_each ys)
    bound (ok q) ih = ih q
    bound (err e) ih = refl

undo-apply :
    (random : ℕ → ℕ → Option Text) (i : ℕ) (ts : List Transform) (payload out : Text)
    → ((j n : ℕ) (bytes : Text) → random j n ≡ some bytes → length bytes ≡ n)
    → All IsReversible ts
    → apply_from random i ts payload ≡ ok out
    → undo_each (reverse ts) out ≡ ok payload
unfolding apply_from undo_each
undo-apply random i [] payload out sized good e = ground arith
undo-apply random i (t ∷ ts) payload out sized good e =
    let (mid, applied, rest) =
      bind_ok (t.apply (random i) payload) (apply_from random (suc i) ts) e in
    let ih = undo-apply random (suc i) ts mid out sized good.1 rest in
    let back = good.0 (random i) payload mid (sized i) applied in
    ap (λ xs. undo_each xs out) (reverse-cons t ts)
    ∙ undo_each-append (reverse ts) (t ∷ []) out
    ∙ ap (λ r. r >>= undo_each (t ∷ [])) ih
    ∙ ap (λ r. r >>= undo_each []) back

-- Where every transform can be undone, `ParseInput` gives back what `PrepareOutput` was given.
pub parse_input-prepare_output :
    (random : ℕ → ℕ → Option Text) (p : PayloadProcessor) (payload out : Text)
    → ((i n : ℕ) (bytes : Text) → random i n ≡ some bytes → length bytes ≡ n)
    → All IsReversible p.transforms
    → prepare_output random p payload ≡ ok out
    → parse_input p out ≡ ok payload
unfolding prepare_output parse_input
parse_input-prepare_output random p payload out sized good e =
    undo-apply random 0 p.transforms payload out sized good e
