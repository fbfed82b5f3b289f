-- ===== src/Regions.antt =====
-- src/multiboot_tags.c and include/alignment.h: the usable memory regions, from the memory map and
-- the kernel's ELF sections that the boot loader hands over. A loop over an index of one of the two
-- tables is a recursion on the entries from that index on.
pub mod Align
pub mod Chain
pub mod Steps
pub mod Order
pub mod Sections
pub mod Tags
mod Tests
use banj_os.Base.{
  ℕ, ◌+◌, ◌-◌, ◌%◌, ◌^◌, Bool, true, false, ◌&&◌, ◌||◌, not, Option, none, some, List, [], ◌∷◌,
  ◌++◌, ltb, leb, ◌==◌, if◌then◌else◌, length,
}

abbrev pub page_size : ℕ
page_size = 0x1000

abbrev pub mem_regions_len : ℕ
mem_regions_len = 16

-- `uintptr_t` and `uint64_t` sums wrap.
abbrev pub u64 : ℕ → ℕ
u64 n = n % 2 ^ 64

unfoldable pub align_pointer : (addr boundary : ℕ) → (after : Bool) → ℕ
align_pointer addr boundary after =
    if not (addr % boundary == 0)
    then (if after then u64 (addr + (boundary - addr % boundary)) else addr - addr % boundary)
    else addr

pub record MemRegion : Type 0 where
  pub start : ℕ
  pub end : ℕ
  pub next : ℕ

pub record MemMapEntry : Type 0 where
  pub starting_addr : ℕ
  pub length : ℕ
  pub type : ℕ

-- The fields of an ELF section that are read.
pub record ElfEntry : Type 0 where
  pub section_type : ℕ
  pub segment_address : ℕ
  pub segment_size : ℕ

abbrev pub segment_end : ElfEntry → ℕ
segment_end e = u64 (e.segment_address + e.segment_size)

-- The filled part of `mem_regions`; `none` is the failed assertion, which halts.
pub add_region : List MemRegion → (start end : ℕ) → Option (List MemRegion)
add_region regions start end =
    let start' = align_pointer start page_size true in
    let end' = align_pointer end page_size false in
    if ltb (length regions) mem_regions_len
    then (if ltb start' end'
        then some (regions ++ (record { start = start'; end = end'; next = start' } ∷ []))
        else some regions)
    else none

-- The sections from the first one on that is in use and ends behind `start`.
pub skip_elf : (start : ℕ) → List ElfEntry → List ElfEntry
skip_elf start [] = []
skip_elf start (e ∷ es) =
    if (e.section_type == 0) || leb (segment_end e) start then skip_elf start es else e ∷ es

abbrev pub min : ℕ → ℕ → ℕ
min a b = if ltb a b then a else b

abbrev pub max : ℕ → ℕ → ℕ
max a b = if ltb b a then a else b

-- Where the loop over the sections stands: the regions, `cur_start` and the sections left.
pub record Cut : Type 0 where
  pub regions : List MemRegion
  pub cur_start : ℕ
  pub elf : List ElfEntry

-- The gap before a section, if there is one.
pub add_gap : List MemRegion → (cur_start end : ℕ) → ElfEntry → Option (List MemRegion)
add_gap regions cur_start end e =
    if ltb cur_start e.segment_address
    then add_region regions cur_start (min e.segment_address end)
    else some regions

-- The loop that adds the gaps between the sections that begin before `end`.
pub cut : List MemRegion → (cur_start end : ℕ) → List ElfEntry → Option Cut
cut regions cur_start end [] = some (record { regions = regions; cur_start = cur_start; elf = [] })
cut regions cur_start end (e ∷ es) =
    let cur_start' = max cur_start (segment_end e) in
    if ltb e.segment_address end
    then elim (add_gap regions cur_start end e) [
      | none ↦ none
      | some regions' ↦
          let rest = cut regions' cur_start' end es in
          if leb end cur_start'
          then some (record { regions = regions'; cur_start = cur_start'; elf = e ∷ es })
          else rest
    ]
    else some (record { regions = regions; cur_start = cur_start; elf = e ∷ es })

-- The bounds of an entry; 0 is not a valid address.
abbrev pub low : MemMapEntry → ℕ
low m = if m.starting_addr == 0 then m.starting_addr + 1 else m.starting_addr

abbrev pub high : MemMapEntry → ℕ
high m = u64 (m.starting_addr + m.length)

-- What is added for one usable entry, and the sections left.
pub add_entry :
    List MemRegion → MemMapEntry → List ElfEntry → Option (List MemRegion × List ElfEntry)
unfolding skip_elf
add_entry regions m elf = elim (cut regions (low m) (high m) (skip_elf (low m) elf)) [
  | none ↦ none
  | some c ↦
      if ltb c.cur_start (high m)
      then elim (add_region c.regions c.cur_start (high m)) [
        | none ↦ none
        | some regions' ↦ some (regions', c.elf)
      ]
      else some (c.regions, c.elf)
]

-- The loop over the memory map; the inner loop that skips the entries of other types is folded in.
pub build : List MemRegion → List MemMapEntry → List ElfEntry → Option (List MemRegion)
build regions [] elf = some regions
build regions (m ∷ ms) elf =
    if m.type == 1
    then elim (add_entry regions m elf) [
      | none ↦ none
      | some (regions', elf') ↦ build regions' ms elf'
    ]
    else build regions ms elf

pub build_mem_regions : List MemMapEntry → List ElfEntry → Option (List MemRegion)
build_mem_regions mem elf = build [] mem elf
