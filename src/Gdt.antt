-- ===== src/Gdt.antt =====
-- src/gdt.c: the global descriptor table.
pub mod Push
mod Tests
use banj_os.Base.{
  ℕ, zero, suc, ◌+◌, ◌-◌, ◌*◌, ◌^◌, Option, none, some, List, [], ◌∷◌, ltb, if◌then◌else◌, set,
  replicate,
}

abbrev pub gdt_size : ℕ
gdt_size = 8

-- `limit` is that of the register, as `GDT_load` leaves it.
pub record Gdt : Type 0 where
  pub table : List ℕ
  pub top : ℕ
  pub kernel_desc_offset : ℕ
  pub limit : ℕ

abbrev pub start : Gdt
start = record { table = replicate gdt_size 0; top = 0; kernel_desc_offset = 0; limit = 0 }

-- The offset and the table after it; `none` is a write past the end of the table.
pub push_dq : ℕ → Gdt → Option (ℕ × Gdt)
push_dq word g =
    if ltb (g.top) gdt_size
    then some (g.top * 8, record g { table = set (g.table) (g.top) word; top = g.top + 1 })
    else none

pub push_all : List ℕ → Gdt → Option Gdt
push_all [] g = some g
push_all (d ∷ ds) g = elim (push_dq d g) [ none ↦ none | some (at, g') ↦ push_all ds g' ]

pub push : List ℕ → Gdt → Option (ℕ × Gdt)
push ds g = elim (push_all ds g) [ none ↦ none | some g' ↦ some (g.top * 8, g') ]

unfoldable pub load : Gdt → Gdt
load g = record g { limit = 8 * g.top - 1 }

abbrev pub flag_executable : ℕ
flag_executable = 2 ^ 43

abbrev pub flag_user_segment : ℕ
flag_user_segment = 2 ^ 44

abbrev pub flag_present : ℕ
flag_present = 2 ^ 47

abbrev pub flag_long_mode : ℕ
flag_long_mode = 2 ^ 53

-- The flags are different bits, so that `|` is a sum.
pub setup : Gdt → Option Gdt
setup g = elim (push_dq 0 g) [
  | none ↦ none
  | some (null, g1) ↦
      elim (push_dq (flag_user_segment + flag_present + flag_executable + flag_long_mode) g1) [
        | none ↦ none
        | some (offset, g2) ↦ some (load (record g2 { kernel_desc_offset = offset }))
      ]
]
