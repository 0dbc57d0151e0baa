-- ===== src/Heap/Bytes.antt =====
-- `memset`, `memcpy` and `heap_init` of util.c, byte by byte.
use rpi2_baremetal.Common.{
  ℕ, zero, suc, ◌+◌, ◌-◌, ◌*◌, ◌/◌, ◌%◌, ◌^◌, ◌≤◌, ◌<◌, ◌≡◌, ◌≢◌, ◌⊎◌, inl, inr, refl, sym, ap, ap₂,
  ◌∙◌, arith, u32, lane, with_byte, with_byte-same, with_byte-other, Bool-cases, ◌==◌,
}
use rpi2_baremetal.Machine.{
  Machine, M, done, pure, ◌>>=◌, ◌>>◌, byte_at, put_byte, load_byte, store_byte, then-done,
}
use rpi2_baremetal.Heap.{heap_unit_size}
use rpi2_baremetal.Heap.Ring.{update-same, update-other}
use rpi2_baremetal.Heap.Taken.{u32-small}

-- `while (len--) *p++ = c;`
unfoldable pub set_loop : ℕ → ℕ → ℕ → M (Unit {0})
set_loop zero p c = pure tt
set_loop (suc len) p c = do store_byte p c; set_loop len (u32 (p + 1)) c

unfoldable pub memset : ℕ → ℕ → ℕ → M ℕ
memset b c len = do set_loop len b c; pure b

-- `while (n--) *p1++ = *p2++;`
unfoldable pub copy_loop : ℕ → ℕ → ℕ → M (Unit {0})
copy_loop zero p1 p2 = pure tt
copy_loop (suc n) p1 p2 = do
  v ← load_byte p2
  store_byte p1 v
  copy_loop n (u32 (p1 + 1)) (u32 (p2 + 1))

unfoldable pub memcpy : ℕ → ℕ → ℕ → M ℕ
memcpy dst src n = do copy_loop n dst src; pure dst

unfoldable pub heap_init : ℕ → ℕ → M (Unit {0})
heap_init base heap_size = do
  let num_heap_units = heap_size / heap_unit_size
  _ ← memset base 0 (u32 (heap_unit_size * num_heap_units))
  pure tt

byte_at-put_same : (mem : ℕ → ℕ) (a v : ℕ) → byte_at (put_byte mem a v) a ≡ v % 256
byte_at-put_same mem a v =
    ap (λ (w : ℕ). w / lane (a % 4) % 256)
      (update-same mem (a - a % 4) (with_byte (mem (a - a % 4)) (a % 4) v))
    ∙ with_byte-same (mem (a - a % 4)) (a % 4) v

byte_at-put_other : (mem : ℕ → ℕ) (a v b : ℕ) → a ≢ b → byte_at (put_byte mem a v) b ≡ byte_at mem b
byte_at-put_other mem a v b ne = elim (Bool-cases (a - a % 4 == b - b % 4)) [
  | inr apart ↦
      ap (λ (w : ℕ). w / lane (b % 4) % 256)
        (update-other mem (a - a % 4) (with_byte (mem (a - a % 4)) (a % 4) v) (b - b % 4)
          (ground arith))
  | inl shared ↦ in_word (ground arith)
]
  where
    in_word : a - a % 4 ≡ b - b % 4 → byte_at (put_byte mem a v) b ≡ byte_at mem b
    in_word e =
        ap (λ (k : ℕ). put_byte mem a v k / lane (b % 4) % 256) (sym e)
        ∙ ap (λ (w : ℕ). w / lane (b % 4) % 256)
            (update-same mem (a - a % 4) (with_byte (mem (a - a % 4)) (a % 4) v))
        ∙ with_byte-other (mem (a - a % 4)) (a % 4) (b % 4) v (omega arith) (omega arith)
            (λ same. ne (omega arith))
        ∙ ap (λ (k : ℕ). mem k / lane (b % 4) % 256) e

-- The bytes from `p` on are `c`, and the others as before.
pub record IsFilled (mem mem' : ℕ → ℕ) (p len c : ℕ) : Type 0 where
  pub inside : (a : ℕ) → p ≤ a → a < p + len → byte_at mem' a ≡ c % 256
  pub outside : (a : ℕ) → (a < p) ⊎ (p + len ≤ a) → byte_at mem' a ≡ byte_at mem a

pub set_loop-IsFilled :
    (len p c : ℕ) (m : Machine)
    → p + len < 2 ^ 32
    → (mem' : ℕ → ℕ) × (set_loop len p c m ≡ done tt (record m { mem = mem' }))
      × IsFilled m.mem mem' p len c
unfolding set_loop store_byte
set_loop-IsFilled zero p c m fits =
    (m.mem, refl, record { inside = λ a le lt. absurd (omega arith); outside = λ a out. refl })
set_loop-IsFilled (suc len) p c m fits =
    let (mem', e, filled) =
      set_loop-IsFilled len (p + 1) c (record m { mem = put_byte m.mem p c }) (omega arith) in
    (
      mem',
      ap (λ (q : ℕ). set_loop len q c (record m { mem = put_byte m.mem p c }))
            (u32-small (p + 1) (omega arith))
          ∙ e,
      record {
        inside = λ a le lt. elim (Bool-cases (a == p)) [
          | inl first ↦
              filled.outside a (inl (ground arith))
              ∙ ap (byte_at (put_byte m.mem p c)) (ground arith)
              ∙ byte_at-put_same m.mem p c
          | inr later ↦ filled.inside a (ground arith) (omega arith)
        ];
        outside =
            λ a out. filled.outside a (beyond a out) ∙ byte_at-put_other m.mem p c a (apart a out);
      },
    )
  where
    beyond : (a : ℕ) → (a < p) ⊎ (p + suc len ≤ a) → (a < p + 1) ⊎ (p + 1 + len ≤ a)
    beyond a (inl below) = inl (omega arith)
    beyond a (inr above) = inr (omega arith)

    apart : (a : ℕ) → (a < p) ⊎ (p + suc len ≤ a) → p ≢ a
    apart a (inl below) e = omega arith
    apart a (inr above) e = omega arith

-- The bytes from `dst` on are those that were from `src` on, and the others as before.
pub record IsCopied (mem mem' : ℕ → ℕ) (dst src n : ℕ) : Type 0 where
  pub inside : (i : ℕ) → i < n → byte_at mem' (dst + i) ≡ byte_at mem (src + i)
  pub outside : (a : ℕ) → (a < dst) ⊎ (dst + n ≤ a) → byte_at mem' a ≡ byte_at mem a

copied-inside :
    (mem mem' : ℕ → ℕ) (dst src n : ℕ)
    → (dst ≤ src) ⊎ (src + suc n ≤ dst)
    → IsCopied (put_byte mem dst (byte_at mem src)) mem' (dst + 1) (src + 1) n
    → (i : ℕ) → i < suc n
    → byte_at mem' (dst + i) ≡ byte_at mem (src + i)
copied-inside mem mem' dst src n way copied zero lt =
    ap (byte_at mem') (omega arith)
    ∙ copied.outside dst (inl (omega arith))
    ∙ byte_at-put_same mem dst (byte_at mem src)
    ∙ whole
    ∙ ap (byte_at mem) (omega arith)
  where
    whole : byte_at mem src % 256 ≡ byte_at mem src
    whole = omega arith
copied-inside mem mem' dst src n way copied (suc i) lt =
    ap (byte_at mem') (omega arith)
    ∙ copied.inside i (omega arith)
    ∙ byte_at-put_other mem dst (byte_at mem src) (src + 1 + i) (apart way)
    ∙ ap (byte_at mem) (omega arith)
  where
    apart : (dst ≤ src) ⊎ (src + suc n ≤ dst) → dst ≢ src + 1 + i
    apart (inl down) e = omega arith
    apart (inr up) e = omega arith

copy_loop-IsCopied :
    (n dst src : ℕ) (m : Machine)
    → dst + n < 2 ^ 32
    → src + n < 2 ^ 32
    → (dst ≤ src) ⊎ (src + n ≤ dst)
    → (mem' : ℕ → ℕ) × (copy_loop n dst src m ≡ done tt (record m { mem = mem' }))
      × IsCopied m.mem mem' dst src n
unfolding copy_loop load_byte store_byte
copy_loop-IsCopied zero dst src m fits fits' way =
    (m.mem, refl, record { inside = λ i lt. absurd (omega arith); outside = λ a out. refl })
copy_loop-IsCopied (suc n) dst src m fits fits' way =
    let v : ℕ = byte_at m.mem src in
    let (mem', e, copied) =
      copy_loop-IsCopied n (dst + 1) (src + 1) (record m { mem = put_byte m.mem dst v })
        (omega arith) (omega arith) (onward way) in
    (
      mem',
      ap₂ (λ (p q : ℕ). copy_loop n p q (record m { mem = put_byte m.mem dst v }))
            (u32-small (dst + 1) (omega arith)) (u32-small (src + 1) (omega arith))
          ∙ e,
      record {
        inside = copied-inside m.mem mem' dst src n way copied;
        outside = λ a out.
            copied.outside a (beyond a out) ∙ byte_at-put_other m.mem dst v a (apart a out);
      },
    )
  where
    onward : (dst ≤ src) ⊎ (src + suc n ≤ dst) → (dst + 1 ≤ src + 1) ⊎ (src + 1 + n ≤ dst + 1)
    onward (inl down) = inl (omega arith)
    onward (inr up) = inr (omega arith)

    beyond : (a : ℕ) → (a < dst) ⊎ (dst + suc n ≤ a) → (a < dst + 1) ⊎ (dst + 1 + n ≤ a)
    beyond a (inl below) = inl (omega arith)
    beyond a (inr above) = inr (omega arith)

    apart : (a : ℕ) → (a < dst) ⊎ (dst + suc n ≤ a) → dst ≢ a
    apart a (inl below) e = omega arith
    apart a (inr above) e = omega arith

-- The bytes do not reach the end of the address space: `memset` returns its pointer, has set the
-- `len` bytes from it on to the lowest byte of `c`, and has changed no other byte.
pub memset-IsFilled :
    (b c len : ℕ) (m : Machine)
    → b + len < 2 ^ 32
    → (mem' : ℕ → ℕ) × (memset b c len m ≡ done b (record m { mem = mem' }))
      × IsFilled m.mem mem' b len c
unfolding memset
memset-IsFilled b c len m fits =
    let (mem', e, filled) = set_loop-IsFilled len b c m fits in
    (mem', then-done (set_loop len b c) (pure b) m e, filled)

-- Neither range reaches the end of the address space, and the target does not start inside the
-- source behind its first byte: `memcpy` returns its target, whose `n` bytes are then those that the
-- source had before, and has changed no other byte.
pub memcpy-IsCopied :
    (dst src n : ℕ) (m : Machine)
    → dst + n < 2 ^ 32
    → src + n < 2 ^ 32
    → (dst ≤ src) ⊎ (src + n ≤ dst)
    → (mem' : ℕ → ℕ) × (memcpy dst src n m ≡ done dst (record m { mem = mem' }))
      × IsCopied m.mem mem' dst src n
unfolding memcpy
memcpy-IsCopied dst src n m fits fits' way =
    let (mem', e, copied) = copy_loop-IsCopied n dst src m fits fits' way in
    (mem', then-done (copy_loop n dst src) (pure dst) m e, copied)
