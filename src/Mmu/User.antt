-- ===== src/Mmu/User.antt =====
-- The table of a task's own space, by `cre_usr_tbl` of mmu.c.
use rpi2_baremetal.Common.{
  List, [], ◌∷◌, ℕ, ◌*◌, ◌^◌, ◌<◌, ◌≡◌, refl, Bool, true, false, Option, some, none, arith, ◌==◌,
  if◌then◌else◌, ltb, leb, ap, ◌∙◌, inl, inr, Bool-cases,
}
use rpi2_baremetal.Machine.{Machine, M}
use rpi2_baremetal.Mmu.{
  within, shared_bottom, shared_limit, periph_bottom, periph_limit, usr_entry, cre_usr_tbl,
}
use rpi2_baremetal.Mmu.Table.{Writes, Fills, table-Fills}
use rpi2_baremetal.Mmu.Entries.{word_of, pick, ladder, rungs-store}
use rpi2_baremetal.Mmu.Access.{among, Fills-same}

unfoldable usr_rungs : ℕ → ℕ → List (Bool × ℕ)
usr_rungs ttba va =
    (leb va ttba, 0x11c0c)
    ∷ (within shared_bottom shared_limit va, 0x10c08)
    ∷ (within periph_bottom periph_limit va, 0xc04)
    ∷ []

leb_of : (a b : ℕ) → (a == b) ≡ false → leb a b ≡ ltb a b
leb_of a b h = ground arith

leb_refl : (a : ℕ) → leb a a ≡ true
leb_refl a = ground arith

==_refl : (a : ℕ) → (a == a) ≡ true
==_refl a = ground arith

eq_of : (a b : ℕ) → (a == b) ≡ true → a ≡ b
eq_of a b h = ground arith

usr_entry-ladder : (ttba va : ℕ) → usr_entry ttba va ≡ ladder ttba va (usr_rungs ttba va)
unfolding usr_entry usr_rungs
usr_entry-ladder ttba va = elim (Bool-cases (va == ttba)) [
  | inl same ↦ rw (eq_of va ttba same) (rw (==_refl ttba, leb_refl ttba) refl)
  | inr other ↦ rw (other, leb_of va ttba other) refl
]

-- The flags of section `q` in the table of the task whose space begins at `ttba`: all up to that
-- space is open to the task; above it, the rest of the shared memory, and the devices.
abbrev pub usr_map : ℕ → ℕ → Option ℕ
usr_map ttba q =
    if leb (q * 2 ^ 20) ttba
    then some 0x11c0c
    else if among 0x5 0x1eb q
    then some 0x10c08
    else if among 0x3f0 0x14 q
    then some 0xc04
    else none

usr_rungs-map : (ttba q : ℕ) → q < 4096 → pick (usr_rungs ttba (q * 2 ^ 20)) ≡ usr_map ttba q
unfolding usr_rungs
usr_rungs-map ttba q lt = ground arith

usr_entry-Writes :
    (t : ℕ)
    → Writes
        (t * 2 ^ 14)
        (λ q. word_of (pick (usr_rungs (t * 2 ^ 14) (q * 2 ^ 20))) q)
        (usr_entry (t * 2 ^ 14))
usr_entry-Writes t q m lt =
    ap (λ (c : M (Unit {0})). c m) (usr_entry-ladder (t * 2 ^ 14) (q * 2 ^ 20))
    ∙ rungs-store t q m lt (usr_rungs (t * 2 ^ 14) (q * 2 ^ 20)) (unfold usr_rungs in ground arith)

-- For a table at a multiple of 16 KB, `cre_usr_tbl` returns, and has then written to each section's
-- descriptor what `usr_map` says of it, and to no other word of memory: the task may read and
-- write every section from address 0 up to the one its table is in, the kernel's and the other
-- tasks' below it included; from there on, the shared memory and the devices, and no more.
pub cre_usr_tbl-map :
    (t : ℕ) (m : Machine)
    → Fills (t * 2 ^ 14) (λ q. word_of (usr_map (t * 2 ^ 14) q) q) 0 m (cre_usr_tbl (t * 2 ^ 14) m)
unfolding cre_usr_tbl
cre_usr_tbl-map t m =
    Fills-same (t * 2 ^ 14) _ _ m _
      (λ q l. ap (λ (o : Option ℕ). word_of o q) (usr_rungs-map (t * 2 ^ 14) q l))
      (table-Fills (t * 2 ^ 14) _ _ (usr_entry-Writes t) m)
