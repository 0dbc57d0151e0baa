-- ===== src/Uart/Hex.antt =====
-- `hexstring` against an independent reader of hexadecimal digits.
use rpi2_baremetal.Common.{
  ◌++◌, ℕ, zero, suc, ◌+◌, ◌-◌, ◌*◌, ◌/◌, ◌%◌, ◌^◌, ◌<◌, ◌≤◌, ◌≡◌, ◌⊎◌, inl, inr, Bool-cases, refl,
  List, [], ◌∷◌, arith, ltb, if◌then◌else◌, bit_and, bit_and_mask, length, ap, ◌∙◌,
}
use native.Mathlib.Nat.{
  pow-suc, one-le-pow, add-mul-mod_self_right, mod-eq_of_lt, div-add-mod', mul-le-mul_right, mod-lt,
}
use rpi2_baremetal.Uart.{hex_char, hexstring}
use rpi2_baremetal.Machine.{Hw, Machine}
use rpi2_baremetal.Uart.Prints.{hex_text, Drains, IsQuiet, Prints, wires, console-Prints}

-- The value of a digit `0` to `9` or `A` to `F`, and of a text of them.
unfoldable pub hex_value : ℕ → ℕ
hex_value c = if ltb 0x40 c then c - 0x37 else c - 0x30

unfoldable pub read_hex : ℕ → List ℕ → ℕ
read_hex acc [] = acc
read_hex acc (c ∷ cs) = read_hex (acc * 16 + hex_value c) cs

hex_value-hex_char : (r : ℕ) → r < 16 → hex_value (hex_char r) ≡ r
unfolding hex_value hex_char
hex_value-hex_char r h = ground arith

digit : (n d : ℕ) → hex_value (hex_char (bit_and (d / 2 ^ (4 * n)) 0xf)) ≡ d / 2 ^ (4 * n) % 16
digit n d = rw (bit_and_mask 4 (d / 2 ^ (4 * n))) (hex_value-hex_char _ (omega arith))

-- Sixteen times a power, and a number cut there.
pow_step : (n : ℕ) → 2 ^ (4 * suc n) ≡ 16 * 2 ^ (4 * n)
pow_step n =
    let e : 4 * suc n ≡ suc (suc (suc (suc (4 * n)))) = omega arith in
    rw e (
      omega (
        arith,
        pow-suc 2 (4 * n),
        pow-suc 2 (suc (4 * n)),
        pow-suc 2 (suc (suc (4 * n))),
        pow-suc 2 (suc (suc (suc (4 * n)))),
      ))

cut : (p d : ℕ) → 0 < p → d % (16 * p) ≡ d / p % 16 * p + d % p
cut p d pos =
    ap (λ (t : ℕ). t % (16 * p)) split
    ∙ (add-mul-mod_self_right (d / p % 16 * p + d % p) (d / p / 16) (16 * p) ∙ mod-eq_of_lt fits)
  where
    split : d ≡ d / p % 16 * p + d % p + d / p / 16 * (16 * p)
    split = omega (arith, div-add-mod' d p, ap (λ (t : ℕ). t * p) (div-add-mod' (d / p) 16))

    fits : d / p % 16 * p + d % p < 16 * p
    fits = omega (arith, mul-le-mul_right {m = d / p % 16} {n = 15} p (omega arith), mod-lt d pos)

read_hex-hex_text :
    (n acc d : ℕ) → read_hex acc (hex_text n d) ≡ acc * 2 ^ (4 * n) + d % 2 ^ (4 * n)
unfolding read_hex hex_text
read_hex-hex_text zero acc d = omega arith
read_hex-hex_text (suc n) acc d =
    read_hex-hex_text n (acc * 16 + hex_value (hex_char (bit_and (d / 2 ^ (4 * n)) 0xf))) d
    ∙ omega (
      arith,
      ap (λ (t : ℕ). t * 2 ^ (4 * n)) (digit n d),
      ap (λ (t : ℕ). acc * t) (pow_step n),
      ap (λ (t : ℕ). d % t) (pow_step n),
      cut (2 ^ (4 * n)) d (one-le-pow (4 * n) 2 (omega arith)),
    )

-- The digits that `hexstring` sends for a 32-bit word read back as that word.
pub read_hex-hexstring : (d : ℕ) → d < 2 ^ 32 → read_hex 0 (hex_text 8 d) ≡ d
read_hex-hexstring d h = read_hex-hex_text 8 0 d ∙ omega arith

-- The characters `0` to `9` and `A` to `F`.
abbrev pub IsHexDigit : ℕ → Type 0
IsHexDigit c = ((0x30 ≤ c) × (c ≤ 0x39)) ⊎ ((0x41 ≤ c) × (c ≤ 0x46))

abbrev pub AllHexDigits : List ℕ → Type 0
AllHexDigits [] = Unit {0}
AllHexDigits (c ∷ cs) = IsHexDigit c × AllHexDigits cs

hex_char-IsHexDigit : (r : ℕ) → r < 16 → IsHexDigit (hex_char r)
unfolding hex_char
hex_char-IsHexDigit r h = elim (Bool-cases (ltb 9 r)) [
  | inl letter ↦ inr (ground arith)
  | inr digit ↦ inl (ground arith)
]

hex_text-AllHexDigits : (n d : ℕ) → AllHexDigits (hex_text n d)
unfolding hex_text
hex_text-AllHexDigits zero d = tt
hex_text-AllHexDigits (suc n) d = (
  rw (bit_and_mask 4 (d / 2 ^ (4 * n))) (hex_char-IsHexDigit _ (omega arith)),
  hex_text-AllHexDigits n d,
)

-- On core 0, or before the MMU is on, with `uart_lock` free and a transmitter that drains,
-- `hexstring` of a 32-bit word returns, and what the UART gets is eight characters, each of them
-- `0` to `9` or `A` to `F`, that read back as that word, and a space.
pub hexstring-reads_back :
    (hw : Hw) (m : Machine) (d : ℕ)
    → Drains hw
    → IsQuiet m
    → d < 2 ^ 32
    → (text : List ℕ) × Prints (wires (text ++ 0x20 ∷ [])) (hexstring hw d) m
      × (length text ≡ 8)
      × AllHexDigits text
      × (read_hex 0 text ≡ d)
hexstring-reads_back hw m d live quiet h =
    let (_, printed, _) = console-Prints hw m [] d live quiet in
    (
      hex_text 8 d,
      printed,
      unfold hex_text in refl,
      hex_text-AllHexDigits 8 d,
      read_hex-hexstring d h,
    )
