-- ===== src/Regions/Tags/Walk.antt =====
-- The walk over tags that stand in memory finds what they say.
use native.Mathlib.Nat.{mod-eq_of_lt}
use banj_os.Base.{
  ℕ, zero, suc, ◌+◌, ◌-◌, ◌*◌, ◌/◌, ◌%◌, ◌^◌, ◌<◌, ◌≡◌, refl, ap, ◌∙◌, true, false, none, some,
  List, [], ◌∷◌, length, arith,
}
use banj_os.Disk.{Buffer, le32}
use banj_os.Regions.{MemMapEntry, ElfEntry, align_pointer, build_mem_regions}
use banj_os.Regions.Tags.{
  tag_common_header, tag_mem_map_entry, tag_elf_entry, entries, Tables, is_tags_terminator,
  parse_tag, next_tag, parse_tags, multiboot_tags_parse_to_mem_regions,
}
use banj_os.Regions.Tags.Layout.{
  Tag, memory_map, elf_sections, other, tag_size, IsMemoryMap, IsSections, IsBody, IsTags, last_map,
  last_sections,
}

memory_map_entries :
    (b : Buffer) (o : ℕ) (ms : List MemMapEntry)
    → IsMemoryMap b o ms
    → entries (tag_mem_map_entry b) 24 (length ms) o ≡ ms
unfolding entries
memory_map_entries b o [] h = refl
memory_map_entries b o (m ∷ ms) ((h1, h2, h3), h) =
    rw (h1, h2, h3, memory_map_entries b (o + 24) ms h) refl

section_entries :
    (b : Buffer) (o : ℕ) (es : List ElfEntry)
    → IsSections b o es
    → entries (tag_elf_entry b) 64 (length es) o ≡ es
unfolding entries
section_entries b o [] h = refl
section_entries b o (e ∷ es) ((h1, h2, h3), h) =
    rw (h1, h2, h3, section_entries b (o + 64) es h) refl

align_up_8 : (a : ℕ) → a + 7 < 2 ^ 64 → align_pointer a 8 true ≡ (a + 7) / 8 * 8
unfolding align_pointer
align_up_8 a h = ground arith

next_tag_lem :
    (b : Buffer) (o size : ℕ)
    → le32 b (o + 4) ≡ size
    → o + size + 7 < 2 ^ 64
    → next_tag b o ≡ (o + size + 7) / 8 * 8
unfolding next_tag
next_tag_lem b o size e h =
    rw (e, mod-eq_of_lt {n = o + size} {m = 2 ^ 64} (omega (arith, h))) (align_up_8 (o + size) h)

-- What a tag leaves in the tables.
abbrev with_tag : Tag → Tables → Tables
with_tag t s = record {
  mem_entries = last_map (s.mem_entries) (t ∷ []);
  elf_entries = last_sections (s.elf_entries) (t ∷ []);
}

parse_tag_lem :
    (b : Buffer) (o : ℕ) (t : Tag) (s : Tables)
    → le32 b (o + 4) ≡ tag_size t
    → o + tag_size t + 7 < 2 ^ 64
    → IsBody b o t
    → parse_tag b o s ≡ some (with_tag t s)
unfolding parse_tag
parse_tag_lem b o (memory_map ms) s e h (h1, h2, h3) =
    let n : ((16 + 24 * length ms + 2 ^ 64 - 16) % 2 ^ 64) / 24 ≡ length ms = omega (arith, h) in
    rw (h1, h2, e, n, memory_map_entries b (o + 16) ms h3) refl
parse_tag_lem b o (elf_sections es) s e h (h1, h2, h3) =
    rw (h1, h2, section_entries b (o + 20) es h3) refl
parse_tag_lem b o (other type size) s e h (h1, h2, h3, h4) = rw h1 (ground (arith, h3, h4))

not_terminator :
    (b : Buffer) (o : ℕ) (t : Tag)
    → IsBody b o t
    → is_tags_terminator (tag_common_header b o) ≡ false
unfolding is_tags_terminator
not_terminator b o (memory_map ms) (h, _, _) = rw h refl
not_terminator b o (elf_sections es) (h, _, _) = rw h refl
not_terminator b o (other type size) (h, h2, _, _) = rw h (ground (arith, h2))

-- One turn of the loop.
parse_tags_step :
    (fuel : ℕ) (b : Buffer) (o : ℕ) (t : Tag) (s : Tables)
    → le32 b (o + 4) ≡ tag_size t
    → o + tag_size t + 7 < 2 ^ 64
    → IsBody b o t
    → parse_tags (suc fuel) b o s ≡ parse_tags fuel b ((o + tag_size t + 7) / 8 * 8) (with_tag t s)
unfolding parse_tags
parse_tags_step fuel b o t s e h body =
    rw
      (
        parse_tags,
        not_terminator b o t body,
        parse_tag_lem b o t s e h body,
        next_tag_lem b o (tag_size t) e h,
      )
      refl

parse_tags_end :
    (fuel : ℕ) (b : Buffer) (o : ℕ) (s : Tables)
    → IsTags b o []
    → parse_tags (suc fuel) b o s ≡ some s
unfolding parse_tags is_tags_terminator
parse_tags_end fuel b o s (h1, h2) = rw (parse_tags, is_tags_terminator, h1, h2) refl

-- What the tags leave in the tables.
abbrev with_tags : List Tag → Tables → Tables
with_tags ts s = record {
  mem_entries = last_map (s.mem_entries) ts;
  elf_entries = last_sections (s.elf_entries) ts;
}

with_tags_step :
    (t : Tag) (ts : List Tag) (s : Tables) → with_tags ts (with_tag t s) ≡ with_tags (t ∷ ts) s
with_tags_step (memory_map ms) ts s = refl
with_tags_step (elf_sections es) ts s = refl
with_tags_step (other type size) ts s = refl

parse_tags-with_tags :
    (fuel : ℕ) (b : Buffer) (o : ℕ) (ts : List Tag) (s : Tables)
    → IsTags b o ts
    → length ts < fuel
    → parse_tags fuel b o s ≡ some (with_tags ts s)
parse_tags-with_tags zero b o ts s h l = absurd (omega (arith, l))
parse_tags-with_tags (suc fuel) b o [] s h l = parse_tags_end fuel b o s h
parse_tags-with_tags (suc fuel) b o (t ∷ ts) s ((e, w, body), rest) l =
    parse_tags_step fuel b o t s e w body
    ∙ parse_tags-with_tags fuel b ((o + tag_size t + 7) / 8 * 8) ts (with_tag t s) rest
        (omega (arith, l))
    ∙ ap some (with_tags_step t ts s)

-- Where memory holds tags behind the header, one of them a memory map and one of them the ELF
-- sections, the walk with more fuel than there are tags ends, and the regions are built from the
-- entries of the last memory map and of the last sections among the tags.
pub multiboot_tags_parse_to_mem_regions_lem :
    (fuel : ℕ) (b : Buffer) (header : ℕ) (ts : List Tag) (ms : List MemMapEntry)
    (es : List ElfEntry)
    → IsTags b (header + 8) ts
    → last_map none ts ≡ some ms
    → last_sections none ts ≡ some es
    → length ts < fuel
    → multiboot_tags_parse_to_mem_regions fuel b header ≡ build_mem_regions ms es
unfolding multiboot_tags_parse_to_mem_regions
multiboot_tags_parse_to_mem_regions_lem fuel b header ts ms es h m e l =
    rw
      (
        multiboot_tags_parse_to_mem_regions,
        parse_tags-with_tags fuel b (header + 8) ts
            (record { mem_entries = none; elf_entries = none }) h l,
        m,
        e,
      )
      refl
