-- ===== src/Base/Bytes.antt =====
-- Bytes and the big-endian words of `encoding/binary`.
use Prim.Native.Nat.{ℕ, zero, suc, ◌+◌, ◌*◌, ◌/◌, ◌%◌, ◌^◌, ◌<◌, ◌≤◌}
use mathlib.Core.Path.{◌≡◌, refl, ap}
use mathlib.Core.List.{[], ◌∷◌, ◌++◌}
use native.Mathlib.Omega.{arith}
use n2n_go.Base.Lists.{length, take, drop, get_or, All}
use n2n_go.Base.Keys.{Text}

abbrev pub IsByte : ℕ → Type 0
IsByte b = b < 256

abbrev pub IsBytes : Text → Type 0
IsBytes = All IsByte

-- `b[i]` of a slice that is long enough.
abbrev pub byte_at : ℕ → Text → ℕ
byte_at i b = get_or 0 b i

abbrev pub be16 : ℕ → Text
be16 n = (n / 256 % 256) ∷ (n % 256) ∷ []

abbrev pub be32 : ℕ → Text
be32 n = (n / 2 ^ 24 % 256) ∷ (n / 2 ^ 16 % 256) ∷ (n / 256 % 256) ∷ (n % 256) ∷ []

abbrev pub u16 : ℕ → ℕ → ℕ
u16 a b = a * 256 + b

abbrev pub u32 : ℕ → ℕ → ℕ → ℕ → ℕ
u32 a b c d = a * 2 ^ 24 + b * 2 ^ 16 + c * 256 + d

-- The `n` bytes from position `i` on, one by one.
abbrev pub window : ℕ → ℕ → Text → Text
window i zero b = []
window i (suc n) b = byte_at i b ∷ window (suc i) n b

window-cons : (i n x : ℕ) (b : Text) → window (suc i) n (x ∷ b) ≡ window i n b
window-cons i zero x b = refl
window-cons i (suc n) x b = ap (λ r. byte_at i b ∷ r) (window-cons (suc i) n x b)

-- A long enough slice is its first bytes and the rest.
pub window-append-drop : (n : ℕ) (b : Text) → n ≤ length b → window 0 n b ++ drop n b ≡ b
window-append-drop zero b h = refl
window-append-drop (suc n) [] h = absurd (omega arith)
window-append-drop (suc n) (x ∷ b) h =
    rw window-cons (ap (λ r. x ∷ r) (window-append-drop n b (omega arith)))

pub byte_at-lt : (i : ℕ) (b : Text) → IsBytes b → byte_at i b < 256
byte_at-lt i [] h = omega arith
byte_at-lt zero (x ∷ b) h = h.0
byte_at-lt (suc i) (x ∷ b) h = byte_at-lt i b h.1

pub take-IsBytes : (n : ℕ) (b : Text) → IsBytes b → IsBytes (take n b)
take-IsBytes zero b h = tt
take-IsBytes (suc n) [] h = tt
take-IsBytes (suc n) (x ∷ b) h = (h.0, take-IsBytes n b h.1)
