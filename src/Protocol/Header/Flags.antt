-- ===== src/Protocol/Header/Flags.antt =====
-- The flag bits are independent of one another.
use n2n_go.Base.{
  ℕ, ◌-◌, ◌^◌, ◌<◌, bit_and, bit_or, ◌≡◌, refl, sym, Bool, true, false, not, arith, nat_beq,
  if◌then◌else◌,
}
use n2n_go.Base.Tables.{every_below, every_below_sound}
use n2n_go.Protocol.Header.{set_flag, has_flag, ProtoVHeader}

bool_beq : Bool → Bool → Bool
bool_beq true b = b
bool_beq false b = not b

bool_beq→eq : (a b : Bool) → bool_beq a b ≡ true → a ≡ b
unfolding bool_beq
bool_beq→eq true b h = sym h
bool_beq→eq false b h = ground arith

abbrev is_set : ℕ → ℕ → Bool
is_set flag x = not (nat_beq (bit_and x flag) 0)

abbrev raised : ℕ → ℕ → ℕ → Bool
raised f g x =
    bool_beq (is_set (2 ^ g) (bit_or x (2 ^ f))) (if nat_beq f g then true else is_set (2 ^ g) x)

abbrev cleared : ℕ → ℕ → ℕ → Bool
cleared f g x =
    bool_beq (is_set (2 ^ g) (bit_and x (255 - 2 ^ f)))
      (if nat_beq f g then false else is_set (2 ^ g) x)

abbrev everywhere : (ℕ → ℕ → ℕ → Bool) → Bool
everywhere p = every_below 8 λ f. every_below 8 λ g. every_below 256 λ x. p f g x

everywhere_sound :
    (p : ℕ → ℕ → ℕ → Bool) (f g x : ℕ)
    → everywhere p ≡ true
    → f < 8
    → g < 8
    → x < 256
    → p f g x ≡ true
everywhere_sound p f g x h hf hg hx =
    every_below_sound 256 _ x
      (every_below_sound 8 (λ k. every_below 256 λ y. p f k y) g
        (every_below_sound 8 (λ k. every_below 8 λ j. every_below 256 λ y. p k j y) f h hf) hg)
      hx

raised_table : everywhere raised ≡ true
unfolding every_below bool_beq
raised_table = refl

cleared_table : everywhere cleared ≡ true
unfolding every_below bool_beq
cleared_table = refl

-- After `SetFlag` of one bit that bit reads as it was set, and each other bit as before.
pub has_flag-set_flag :
    (f g : ℕ) (value : Bool) (h : ProtoVHeader)
    → f < 8
    → g < 8
    → h.flags < 256
    → has_flag (2 ^ g) (set_flag (2 ^ f) value h)
      ≡ (if nat_beq f g then value else has_flag (2 ^ g) h)
unfolding has_flag set_flag
has_flag-set_flag f g true h hf hg hx =
    bool_beq→eq _ _ (everywhere_sound raised f g h.flags raised_table hf hg hx)
has_flag-set_flag f g false h hf hg hx =
    bool_beq→eq _ _ (everywhere_sound cleared f g h.flags cleared_table hf hg hx)
