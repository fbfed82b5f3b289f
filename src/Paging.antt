-- ===== src/Paging.antt =====
-- src/page_table.c: the four levels of page tables, in frames from the frame allocator. Tables stand
-- at the physical addresses of their frames, which are mapped to themselves.
pub mod Split
pub mod Pool
pub mod Tree
pub mod Translate
pub mod Virtual
pub mod Fault
pub mod Range
pub mod Apart
pub mod Mapped
pub mod Walk
pub mod DirectMap
pub mod Backed
pub mod Words
pub mod Tests
mod RangeTests
use banj_os.Base.{
  ℕ, zero, suc, ◌+◌, ◌*◌, ◌/◌, ◌%◌, ◌^◌, Bool, true, false, Option, none, some, ◌==◌, if◌then◌else◌,
}
use banj_os.Regions.{page_size}
use banj_os.Frames.{Frames, pf_alloc}

-- The bits of an entry that are read or written; `addr` is the number of a frame.
pub record Entry : Type 0 where
  pub present : Bool
  pub read_write : Bool
  pub available1 : ℕ
  pub addr : ℕ

abbrev pub blank : Entry
blank = record { present = false; read_write = false; available1 = 0; addr = 0 }

-- The entries of the table at each address.
abbrev pub Tables : Type 0
Tables = ℕ → ℕ → Entry

pub record Mmu : Type 0 where
  pub frames : Frames
  pub tables : Tables

abbrev pub set_entry : Tables → (table i : ℕ) → Entry → Tables
set_entry f table i e t j = if table == t then (if i == j then e else f t j) else f t j

abbrev pub zero_page : Tables → ℕ → Tables
zero_page f page t j = if page == t then blank else f t j

-- `split_virt_addr`: the index at each level, and the offset.
abbrev pub index : (l virt_addr : ℕ) → ℕ
index l virt_addr = virt_addr / 2 ^ (9 * l + 12) % 512

abbrev pub page_offset : ℕ → ℕ
page_offset virt_addr = virt_addr % 4096

abbrev pub frame_number : ℕ → ℕ
frame_number p = p / 4096 % 2 ^ 40

-- A turn of the loop: the table below, the end of the memory, or an entry that is absent.
pub data Next : Type 0 where
  down : ℕ → Mmu → Next
  no_frame : Next
  absent : Next

-- The new table is cleared before the entry is set.
unfoldable pub link : Mmu → Frames → (next_table table i : ℕ) → Mmu
link s f next_table table i =
    let cleared = zero_page (s.tables) next_table in
    record {
      frames = f;
      tables = set_entry cleared table i (record (cleared table i) {
        present = true;
        read_write = true;
        addr = frame_number next_table;
      });
    }

unfoldable pub next_table : (table i : ℕ) → (allocate : Bool) → Mmu → Next
next_table table i allocate s =
    if (s.tables table i).present
    then down ((s.tables table i).addr * 4096) s
    else if allocate
    then elim (pf_alloc (s.frames)) [
      | none ↦ no_frame
      | some (p, f) ↦ down (frame_number p * 4096) (link s f p table i)
    ]
    else absent

pub data Found : Type 0 where
  halted : Found
  missing : Found
  at : (table i : ℕ) → Found

-- The loop of `page_table_get_entry` from the level `l` down.
unfoldable pub descend : (l table virt_addr : ℕ) → (allocate : Bool) → Mmu → Found × Mmu
descend zero table virt_addr allocate s = (at table (index 0 virt_addr), s)
descend (suc l) table virt_addr allocate s =
    elim (next_table table (index (suc l) virt_addr) allocate s) [
      | down t s' ↦ descend l t virt_addr allocate s'
      | no_frame ↦ (halted, s)
      | absent ↦ (missing, s)
    ]

unfoldable pub get_entry : (table virt_addr : ℕ) → (allocate : Bool) → Mmu → Found × Mmu
get_entry table virt_addr allocate s = descend 3 table virt_addr allocate s

abbrev pub translate : Found → Mmu → ℕ → ℕ
translate halted s virt_addr = 0
translate missing s virt_addr = 0
translate (at t i) s virt_addr = (s.tables t i).addr * 4096 + page_offset virt_addr

pub virt_to_phys : (table virt_addr : ℕ) → Mmu → ℕ
virt_to_phys table virt_addr s = translate ((get_entry table virt_addr false s).0) s virt_addr

pub direct_map_callback : (addr table i : ℕ) → Mmu → Mmu
direct_map_callback addr table i s = record s {
  tables =
      set_entry (s.tables) table i
        (record (s.tables table i) { present = true; read_write = true; addr = frame_number addr });
}
