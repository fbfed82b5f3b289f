-- ===== src/Regions/Tags/Tests.antt =====
-- Memory with an empty tag, a memory map and one ELF section, and the walk over it.
use banj_os.Base.{
  ℕ, ◌+◌, ◌-◌, ◌/◌, ◌%◌, ◌^◌, ◌≡◌, refl, some, List, [], ◌∷◌, arith, ◌==◌, if◌then◌else◌,
}
use banj_os.Disk.{Buffer}
use banj_os.Regions.{
  MemMapEntry, ElfEntry, align_pointer, add_region, skip_elf, add_gap, cut, add_entry, build,
  build_mem_regions,
}
use banj_os.Regions.Tags.{
  multiboot_tags_parse_to_mem_regions, parse_tags, parse_tag, next_tag, entries, is_tags_terminator,
}
use banj_os.Regions.Tags.Layout.{Tag, memory_map, elf_sections, other, IsTags}
use banj_os.Regions.Tags.Walk.{multiboot_tags_parse_to_mem_regions_lem}

-- A function that gives one of its places another value.
abbrev at : (k v : ℕ) → (ℕ → ℕ) → ℕ → ℕ
at k v f i = if i == k then v else f i

abbrev terminator : ℕ → ℕ
terminator = at 39 8 (λ i. 0)

abbrev elf_entry : ℕ → ℕ
elf_entry = at 22 1 (at 25 0x100200 (at 29 0x5000 terminator))

abbrev elf_tag : ℕ → ℕ
elf_tag = at 16 9 (at 17 84 (at 18 1 (at 19 64 elf_entry)))

abbrev map_tag : ℕ → ℕ
map_tag = at 6 6 (at 7 40 (at 8 24 (at 10 0x100000 (at 12 0x100000 (at 14 1 elf_tag)))))

abbrev other_tag : ℕ → ℕ
other_tag = at 0 0xa0 (at 2 1 (at 3 9 map_tag))

abbrev pub memory : Buffer
memory k = (other_tag ((k - 0x1000) / 4) / 256 ^ (k % 4)) % 256

abbrev pub map : List MemMapEntry
map = record { starting_addr = 0x100000; length = 0x100000; type = 1 } ∷ []

abbrev pub sections : List ElfEntry
sections = record { section_type = 1; segment_address = 0x100200; segment_size = 0x5000 } ∷ []

abbrev pub tags : List Tag
tags = other 1 9 ∷ (memory_map map ∷ (elf_sections sections ∷ []))

regions_run :
    multiboot_tags_parse_to_mem_regions 4 memory 0x1000
    ≡ some (record { start = 0x106000; end = 0x200000; next = 0x106000 } ∷ [])
unfolding multiboot_tags_parse_to_mem_regions parse_tags parse_tag next_tag entries
    is_tags_terminator build_mem_regions build add_entry cut add_gap skip_elf add_region
    align_pointer
regions_run = refl

pub laid : IsTags memory (0x1000 + 8) tags
laid = (
  (refl, omega arith, (refl, λ e. omega (arith, e), λ e. omega (arith, e), λ e. omega (arith, e))),
  (
    (refl, omega arith, (refl, refl, ((refl, refl, refl), tt))),
    ((refl, omega arith, (refl, refl, ((refl, refl, refl), tt))), (refl, refl)),
  ),
)

pub built :
    build_mem_regions map sections
    ≡ some (record { start = 0x106000; end = 0x200000; next = 0x106000 } ∷ [])
unfolding build_mem_regions build add_entry cut add_gap skip_elf add_region align_pointer
built = refl

multiboot_tags_parse_to_mem_regions_example :
    multiboot_tags_parse_to_mem_regions 4 memory 0x1000 ≡ build_mem_regions map sections
multiboot_tags_parse_to_mem_regions_example =
    multiboot_tags_parse_to_mem_regions_lem 4 memory 0x1000 tags map sections laid refl refl
      (omega arith)
