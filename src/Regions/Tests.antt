-- ===== src/Regions/Tests.antt =====
-- The regions of a machine with a small kernel, and the theorems at that machine.
use banj_os.Base.{ℕ, ◌≡◌, refl, some, List, [], ◌∷◌, arith, inl, inr, All}
use banj_os.Regions.{
  MemRegion, MemMapEntry, ElfEntry, align_pointer, add_region, skip_elf, add_gap, cut, add_entry,
  build, build_mem_regions,
}
use banj_os.Regions.Chain.{Chain, top}
use banj_os.Regions.Order.{build_mem_regions-Chain}
use banj_os.Regions.Sections.{Avoids, build_mem_regions-Avoids}

abbrev entry : ℕ → ℕ → ℕ → MemMapEntry
entry a l t = record { starting_addr = a; length = l; type = t }

abbrev section : ℕ → ℕ → ℕ → ElfEntry
section t a l = record { section_type = t; segment_address = a; segment_size = l }

abbrev region : ℕ → ℕ → MemRegion
region a b = record { start = a; end = b; next = a }

abbrev mem : List MemMapEntry
mem = entry 0 0x9fc00 1 ∷ (entry 0x9fc00 0x60400 2 ∷ (entry 0x100000 0x100000 1 ∷ []))

abbrev text : ElfEntry
text = section 1 0x100200 0x5000

abbrev elf : List ElfEntry
elf = section 0 0 0 ∷ (text ∷ (section 8 0x107000 0x1001 ∷ []))

regions_run :
    build_mem_regions mem elf
    ≡ some (region 0x1000 0x9f000 ∷ (region 0x106000 0x107000 ∷ (region 0x109000 0x200000 ∷ [])))
unfolding build_mem_regions build add_entry cut add_gap skip_elf add_region align_pointer
regions_run = refl

build_mem_regions-Chain_example :
    Chain 1
      (region 0x1000 0x9f000 ∷ (region 0x106000 0x107000 ∷ (region 0x109000 0x200000 ∷ [])))
      top
build_mem_regions-Chain_example =
    build_mem_regions-Chain mem elf (omega arith) (omega arith) regions_run

build_mem_regions-Avoids_example :
    All
      (Avoids text)
      (region 0x1000 0x9f000 ∷ (region 0x106000 0x107000 ∷ (region 0x109000 0x200000 ∷ [])))
build_mem_regions-Avoids_example =
    build_mem_regions-Avoids mem elf text (omega arith) (omega arith) (omega arith) (inr (inl refl))
      (omega arith) regions_run
