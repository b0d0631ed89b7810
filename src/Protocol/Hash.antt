-- ===== src/Protocol/Hash.antt =====
-- The hashes of pkg/protocol/protocol.go. `range` over a string decodes UTF-8, so the decoder is
-- here too, as the language defines it: a byte that begins no encoding is the rune U+FFFD.
use n2n_go.Base.{
  ℕ, zero, suc, ◌+◌, ◌-◌, ◌*◌, ◌%◌, ◌^◌, ◌<◌, bit_xor, ◌≡◌, refl, ap, Bool, ◌&&◌, List, [], ◌∷◌,
  arith, ltb, leb, nat_beq, if◌then◌else◌, replicate, All,
}
use n2n_go.Base.Keys.{Text}

-- A rune and the number of bytes that it took.
abbrev Rune : Type 0
Rune = ℕ × ℕ

abbrev rune_error : Rune
rune_error = (0xfffd, 1)

abbrev within : ℕ → ℕ → ℕ → Bool
within lo hi b = leb lo b && leb b hi

abbrev continues : ℕ → Bool
continues = within 0x80 0xbf

abbrev two : ℕ → Text → Rune
two a (b ∷ rest) = if continues b then ((a % 32) * 64 + b % 64, 2) else rune_error
two a [] = rune_error

-- The second byte has a narrower range behind 0xe0 (overlong) and 0xed (surrogates).
abbrev three : ℕ → Text → Rune
three a (b ∷ c ∷ rest) =
    if within (if nat_beq a 0xe0 then 0xa0 else 0x80) (if nat_beq a 0xed then 0x9f else 0xbf) b
      && continues c
    then ((a % 16) * 4096 + (b % 64) * 64 + c % 64, 3)
    else rune_error
three a (b ∷ []) = rune_error
three a [] = rune_error

-- Behind 0xf0 (overlong) and 0xf4 (past U+10FFFF) too.
abbrev four : ℕ → Text → Rune
four a (b ∷ c ∷ d ∷ rest) =
    if within (if nat_beq a 0xf0 then 0x90 else 0x80) (if nat_beq a 0xf4 then 0x8f else 0xbf) b
      && continues c
      && continues d
    then ((a % 8) * 2 ^ 18 + (b % 64) * 4096 + (c % 64) * 64 + d % 64, 4)
    else rune_error
four a (b ∷ c ∷ []) = rune_error
four a (b ∷ []) = rune_error
four a [] = rune_error

decode_rune : ℕ → Text → Rune
decode_rune a rest =
    if ltb a 0x80
    then (a, 1)
    else if within 0xc2 0xdf a
    then two a rest
    else if within 0xe0 0xef a
    then three a rest
    else if within 0xf0 0xf4 a
    then four a rest
    else rune_error

-- `for i, c := range s`: each rune behind the position of its first byte; `skip` bytes are still
-- part of the rune before.
runes_from : ℕ → ℕ → Text → List (ℕ × ℕ)
runes_from skip i [] = []
runes_from zero i (b ∷ bs) =
    let (c, width) = decode_rune b bs in (i, c) ∷ runes_from (width - 1) (suc i) bs
runes_from (suc skip) i (b ∷ bs) = runes_from skip (suc i) bs

pub runes : Text → List (ℕ × ℕ)
unfolding decode_rune runes_from
runes s = runes_from 0 0 s

xor_at : ℕ → ℕ → Text → Text
xor_at i v [] = []
xor_at zero v (b ∷ bs) = bit_xor b v ∷ bs
xor_at (suc i) v (b ∷ bs) = b ∷ xor_at i v bs

mix : ℕ → Text → List (ℕ × ℕ) → Text
mix len hash [] = hash
mix len hash ((i, c) ∷ rest) = mix len (xor_at (i % len) (bit_xor (c % 256) (i % 256)) hash) rest

-- `HashString`
pub hash_string : Text → ℕ → Text
unfolding xor_at mix runes
hash_string s len = mix len (replicate len 0) (runes s)

abbrev pub fnv_prime : ℕ
fnv_prime = 16777619

abbrev pub fnv_offset : ℕ
fnv_offset = 2166136261

-- One turn of the loop, on words of 32 bits.
fnv_step : ℕ → ℕ → ℕ
fnv_step hash c = bit_xor hash (c % 2 ^ 32) * fnv_prime % 2 ^ 32

fnv_loop : ℕ → List (ℕ × ℕ) → ℕ
fnv_loop hash [] = hash
fnv_loop hash ((i, c) ∷ rest) = fnv_loop (fnv_step hash c) rest

-- `HashCommunity`
unfoldable pub hash_community : Text → ℕ
unfolding fnv_step fnv_loop runes
hash_community [] = 0
hash_community (b ∷ bs) = fnv_loop fnv_offset (runes (b ∷ bs))

-- `VerifyCommunityHash`
pub verify_community_hash : Text → ℕ → Bool
verify_community_hash community expected = nat_beq (hash_community community) expected

-- Two bytes of UTF-8 are one rune, and a lone continuation byte is U+FFFD.
runes_run : runes (0xc3 ∷ 0xa9 ∷ 0x80 ∷ 0x61 ∷ []) ≡ (0, 0xe9) ∷ (2, 0xfffd) ∷ (3, 0x61) ∷ []
unfolding runes
runes_run = refl

hash_acme : hash_community (0x61 ∷ 0x63 ∷ 0x6d ∷ 0x65 ∷ []) ≡ 1174237615
unfolding hash_community
hash_acme = refl

-- FNV-1a over bytes, as its authors define it.
pub fnv1a : ℕ → Text → ℕ
fnv1a hash [] = hash
fnv1a hash (b ∷ bs) = fnv1a (bit_xor hash b * fnv_prime % 2 ^ 32) bs

decode_rune-ascii : (b : ℕ) (bs : Text) → b < 0x80 → decode_rune b bs ≡ (b, 1)
unfolding decode_rune
decode_rune-ascii b bs h = ground arith

fnv_step-ascii : (hash c : ℕ) → c < 0x80 → fnv_step hash c ≡ bit_xor hash c * fnv_prime % 2 ^ 32
unfolding fnv_step
fnv_step-ascii hash c h =
    let small : c % 2 ^ 32 ≡ c = omega arith in
    ap (λ (t : ℕ). bit_xor hash t * fnv_prime % 2 ^ 32) small

fnv_loop-ascii :
    (hash i : ℕ) (s : Text)
    → All (λ b. b < 0x80) s
    → fnv_loop hash (runes_from 0 i s) ≡ fnv1a hash s
unfolding fnv_loop fnv1a runes_from
fnv_loop-ascii hash i [] h = refl
fnv_loop-ascii hash i (b ∷ bs) h =
    rw (decode_rune-ascii b bs h.0, fnv_step-ascii hash b h.0)
      (fnv_loop-ascii (bit_xor hash b * fnv_prime % 2 ^ 32) (suc i) bs h.1)

-- The hash of a name of plain ASCII is 32-bit FNV-1a of its bytes.
pub hash_community-ascii :
    (b : ℕ) (bs : Text)
    → All (λ c. c < 0x80) (b ∷ bs)
    → hash_community (b ∷ bs) ≡ fnv1a fnv_offset (b ∷ bs)
unfolding hash_community
hash_community-ascii b bs h = fnv_loop-ascii fnv_offset 0 (b ∷ bs) h

fnv_loop_lt : (hash : ℕ) (rs : List (ℕ × ℕ)) → hash < 2 ^ 32 → fnv_loop hash rs < 2 ^ 32
unfolding fnv_loop fnv_step
fnv_loop_lt hash [] h = h
fnv_loop_lt hash ((i, c) ∷ rest) h = fnv_loop_lt (fnv_step hash c) rest (omega arith)

-- The hash is a word of 32 bits.
pub hash_community_lt : (community : Text) → hash_community community < 2 ^ 32
unfolding hash_community
hash_community_lt [] = omega arith
hash_community_lt (b ∷ bs) = fnv_loop_lt fnv_offset (runes (b ∷ bs)) (omega arith)
