-- ===== src/Regions/Tags/Layout.antt =====
-- How the tags stand in memory, in the order of a list.
use banj_os.Base.{ℕ, ◌+◌, ◌*◌, ◌/◌, ◌^◌, ◌<◌, ◌≡◌, ◌≢◌, Option, some, List, [], ◌∷◌, length}
use banj_os.Disk.{Buffer, le32}
use banj_os.Regions.{MemMapEntry, ElfEntry}
use banj_os.Regions.Tags.{le64}

-- A tag: the memory map, the ELF sections, or one of another type with its size.
pub data Tag : Type 0 where
  memory_map : List MemMapEntry → Tag
  elf_sections : List ElfEntry → Tag
  other : (type size : ℕ) → Tag

abbrev pub tag_size : Tag → ℕ
tag_size (memory_map ms) = 16 + 24 * length ms
tag_size (elf_sections es) = 20 + 64 * length es
tag_size (other type size) = size

-- The entries of a memory map stand from the address on.
abbrev pub IsMemoryMap : Buffer → ℕ → List MemMapEntry → Type 0
IsMemoryMap b o [] = Unit {0}
IsMemoryMap b o (m ∷ ms) =
    ((le64 b o ≡ m.starting_addr) × (le64 b (o + 8) ≡ m.length) × (le32 b (o + 16) ≡ m.type))
    × IsMemoryMap b (o + 24) ms

abbrev pub IsSections : Buffer → ℕ → List ElfEntry → Type 0
IsSections b o [] = Unit {0}
IsSections b o (e ∷ es) =
    ((le32 b (o + 4) ≡ e.section_type)
      × (le64 b (o + 16) ≡ e.segment_address)
      × (le64 b (o + 32) ≡ e.segment_size))
    × IsSections b (o + 64) es

-- What stands behind the size of a tag.
abbrev pub IsBody : Buffer → ℕ → Tag → Type 0
IsBody b o (memory_map ms) = (le32 b o ≡ 6) × (le32 b (o + 8) ≡ 24) × IsMemoryMap b (o + 16) ms
IsBody b o (elf_sections es) =
    (le32 b o ≡ 9) × (le32 b (o + 8) ≡ length es) × IsSections b (o + 20) es
IsBody b o (other type size) = (le32 b o ≡ type) × (type ≢ 0) × (type ≢ 6) × (type ≢ 9)

-- The tags stand one behind the other from the address on, each at a multiple of 8 where the first
-- one is, below the end of the addresses; the last one is the terminator.
abbrev pub IsTags : Buffer → ℕ → List Tag → Type 0
IsTags b o [] = (le32 b o ≡ 0) × (le32 b (o + 4) ≡ 8)
IsTags b o (t ∷ ts) =
    ((le32 b (o + 4) ≡ tag_size t) × (o + tag_size t + 7 < 2 ^ 64) × IsBody b o t)
    × IsTags b ((o + tag_size t + 7) / 8 * 8) ts

-- The last memory map among the tags, and the last sections; those before the tags at first.
abbrev pub last_map : Option (List MemMapEntry) → List Tag → Option (List MemMapEntry)
last_map o [] = o
last_map o (memory_map ms ∷ ts) = last_map (some ms) ts
last_map o (elf_sections es ∷ ts) = last_map o ts
last_map o (other type size ∷ ts) = last_map o ts

abbrev pub last_sections : Option (List ElfEntry) → List Tag → Option (List ElfEntry)
last_sections o [] = o
last_sections o (memory_map ms ∷ ts) = last_sections o ts
last_sections o (elf_sections es ∷ ts) = last_sections (some es) ts
last_sections o (other type size ∷ ts) = last_sections o ts
