-- ===== src/Regions/Tags.antt =====
-- src/multiboot_tags.c: the walk over the tags that the boot loader leaves in memory, which finds
-- the memory map and the ELF sections. Memory gives its bytes by their addresses. What the walk
-- prints is left out.
pub mod Layout
pub mod Walk
pub mod Tests
use banj_os.Base.{
  ℕ, zero, suc, ◌+◌, ◌-◌, ◌*◌, ◌/◌, ◌%◌, ◌^◌, Bool, true, false, ◌&&◌, Option, none, some, List, [],
  ◌∷◌, ◌==◌, if◌then◌else◌,
}
use banj_os.Disk.{Buffer, le32}
use banj_os.Regions.{MemRegion, MemMapEntry, ElfEntry, align_pointer, build_mem_regions, u64}

abbrev pub le64 : Buffer → ℕ → ℕ
le64 b o = le32 b o + 2 ^ 32 * le32 b (o + 4)

-- The header that every tag begins with.
pub record TagCommonHeader : Type 0 where
  pub type : ℕ
  pub size : ℕ

abbrev pub tag_common_header : Buffer → ℕ → TagCommonHeader
tag_common_header b tag = record { type = le32 b tag; size = le32 b (tag + 4) }

pub record TagMemMapHeader : Type 0 where
  pub size : ℕ
  pub entry_size : ℕ

abbrev pub tag_mem_map_header : Buffer → ℕ → TagMemMapHeader
tag_mem_map_header b tag = record { size = le32 b (tag + 4); entry_size = le32 b (tag + 8) }

abbrev pub tag_mem_map_entry : Buffer → ℕ → MemMapEntry
tag_mem_map_entry b o = record {
  starting_addr = le64 b o;
  length = le64 b (o + 8);
  type = le32 b (o + 16);
}

-- The only field of the header of the ELF sections that is read.
abbrev pub elf_num_entries : Buffer → ℕ → ℕ
elf_num_entries b tag = le32 b (tag + 8)

abbrev pub tag_elf_entry : Buffer → ℕ → ElfEntry
tag_elf_entry b o = record {
  section_type = le32 b (o + 4);
  segment_address = le64 b (o + 16);
  segment_size = le64 b (o + 32);
}

-- The array of `n` structures of `stride` bytes at an address.
unfoldable pub entries : {A : Type 0} → (at : ℕ → A) (stride n o : ℕ) → List A
entries at stride zero o = []
entries at stride (suc n) o = at o ∷ entries at stride n (o + stride)

-- The local variables `mem_entries` and `elf_entries`, `none` before they are set.
pub record Tables : Type 0 where
  pub mem_entries : Option (List MemMapEntry)
  pub elf_entries : Option (List ElfEntry)

unfoldable pub is_tags_terminator : TagCommonHeader → Bool
is_tags_terminator tag = (tag.type == 0) && (tag.size == 8)

-- The number of entries of the memory map; the subtraction wraps.
abbrev pub mem_map_count : TagMemMapHeader → ℕ
mem_map_count h = ((h.size + 2 ^ 64 - 16) % 2 ^ 64) / h.entry_size

-- What the body of the loop does with a tag; `none` is the failed assertion.
unfoldable pub parse_tag : Buffer → (curtag : ℕ) → Tables → Option Tables
parse_tag b curtag t =
    let tag = tag_common_header b curtag in
    let memheader = tag_mem_map_header b curtag in
    if tag.type == 6
    then (if memheader.entry_size == 24
        then some (record {
          mem_entries =
              some (entries (tag_mem_map_entry b) 24 (mem_map_count memheader) (curtag + 16));
          elf_entries = t.elf_entries;
        })
        else none)
    else (if tag.type == 9
        then some (record {
          mem_entries = t.mem_entries;
          elf_entries =
              some (entries (tag_elf_entry b) 64 (elf_num_entries b curtag) (curtag + 20));
        })
        else some t)

unfoldable pub next_tag : Buffer → (curtag : ℕ) → ℕ
next_tag b curtag = align_pointer (u64 (curtag + (tag_common_header b curtag).size)) 8 true

-- The loop over the tags; `none` is also the end of the fuel.
unfoldable pub parse_tags : (fuel : ℕ) → Buffer → (curtag : ℕ) → Tables → Option Tables
parse_tags zero b curtag t = none
parse_tags (suc fuel) b curtag t = elim (is_tags_terminator (tag_common_header b curtag)) [
  | true ↦ some t
  | false ↦ elim (parse_tag b curtag t) [
    | none ↦ none
    | some t' ↦ parse_tags fuel b (next_tag b curtag) t'
  ]
]

-- `mem_regions` after it, with the tags at `multiboot_tag_addr`. Without a memory map or without
-- sections a variable is read that is not set, which has no result.
unfoldable pub multiboot_tags_parse_to_mem_regions :
    (fuel : ℕ) → Buffer → (multiboot_tag_addr : ℕ) → Option (List MemRegion)
multiboot_tags_parse_to_mem_regions fuel b header =
    elim (parse_tags fuel b (header + 8) (record { mem_entries = none; elf_entries = none })) [
      | none ↦ none
      | some t ↦ elim (t.mem_entries) [
        | none ↦ none
        | some mem ↦ elim (t.elf_entries) [ none ↦ none | some elf ↦ build_mem_regions mem elf ]
      ]
    ]
