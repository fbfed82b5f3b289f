-- ===== src/Paging/Words.antt =====
-- include/page_table.h: the entries of the four levels as words. The fields are in the order of the
-- structures, the lowest bit first.
use banj_os.Base.{ℕ, ◌+◌, ◌*◌, ◌/◌, ◌%◌, ◌^◌, ◌<◌, ◌≡◌, refl, arith}

-- The bits of a word from `i` on, `n` of them.
abbrev pub bits : (i n word : ℕ) → ℕ
bits i n word = word / 2 ^ i % 2 ^ n

pub record PtEntry : Type 0 where
  pub present : ℕ
  pub read_write : ℕ
  pub user_supervisor : ℕ
  pub page_write_through : ℕ
  pub page_cache_disable : ℕ
  pub accessed : ℕ
  pub dirty : ℕ
  pub page_attribute_table : ℕ
  pub global : ℕ
  pub available1 : ℕ
  pub addr : ℕ
  pub available2 : ℕ
  pub no_execute : ℕ

abbrev pub pt_entry : (word : ℕ) → PtEntry
pt_entry word = record {
  present = bits 0 1 word;
  read_write = bits 1 1 word;
  user_supervisor = bits 2 1 word;
  page_write_through = bits 3 1 word;
  page_cache_disable = bits 4 1 word;
  accessed = bits 5 1 word;
  dirty = bits 6 1 word;
  page_attribute_table = bits 7 1 word;
  global = bits 8 1 word;
  available1 = bits 9 3 word;
  addr = bits 12 40 word;
  available2 = bits 52 11 word;
  no_execute = bits 63 1 word;
}

abbrev pub pt_word : PtEntry → ℕ
pt_word e =
    e.present
    + e.read_write * 2 ^ 1
    + e.user_supervisor * 2 ^ 2
    + e.page_write_through * 2 ^ 3
    + e.page_cache_disable * 2 ^ 4
    + e.accessed * 2 ^ 5
    + e.dirty * 2 ^ 6
    + e.page_attribute_table * 2 ^ 7
    + e.global * 2 ^ 8
    + e.available1 * 2 ^ 9
    + e.addr * 2 ^ 12
    + e.available2 * 2 ^ 52
    + e.no_execute * 2 ^ 63

pub pt_word-pt_entry : (word : ℕ) → word < 2 ^ 64 → pt_word (pt_entry word) ≡ word
pt_word-pt_entry word h = omega (arith, h)

-- The entries of the three upper levels.
pub record Pml4Entry : Type 0 where
  pub present : ℕ
  pub read_write : ℕ
  pub user_supervisor : ℕ
  pub page_write_through : ℕ
  pub page_cache_disable : ℕ
  pub accessed : ℕ
  pub ignored : ℕ
  pub must_be_zero : ℕ
  pub available1 : ℕ
  pub pdp_addr : ℕ
  pub available2 : ℕ
  pub no_execute : ℕ

abbrev pub pml4_entry : (word : ℕ) → Pml4Entry
pml4_entry word = record {
  present = bits 0 1 word;
  read_write = bits 1 1 word;
  user_supervisor = bits 2 1 word;
  page_write_through = bits 3 1 word;
  page_cache_disable = bits 4 1 word;
  accessed = bits 5 1 word;
  ignored = bits 6 1 word;
  must_be_zero = bits 7 2 word;
  available1 = bits 9 3 word;
  pdp_addr = bits 12 40 word;
  available2 = bits 52 11 word;
  no_execute = bits 63 1 word;
}

pub record PdpEntry : Type 0 where
  pub present : ℕ
  pub read_write : ℕ
  pub user_supervisor : ℕ
  pub page_write_through : ℕ
  pub page_cache_disable : ℕ
  pub accessed : ℕ
  pub ignored : ℕ
  pub must_be_zero : ℕ
  pub available1 : ℕ
  pub pd_addr : ℕ
  pub available2 : ℕ
  pub no_execute : ℕ

abbrev pub pdp_entry : (word : ℕ) → PdpEntry
pdp_entry word = record {
  present = bits 0 1 word;
  read_write = bits 1 1 word;
  user_supervisor = bits 2 1 word;
  page_write_through = bits 3 1 word;
  page_cache_disable = bits 4 1 word;
  accessed = bits 5 1 word;
  ignored = bits 6 1 word;
  must_be_zero = bits 7 2 word;
  available1 = bits 9 3 word;
  pd_addr = bits 12 40 word;
  available2 = bits 52 11 word;
  no_execute = bits 63 1 word;
}

pub record PdEntry : Type 0 where
  pub present : ℕ
  pub read_write : ℕ
  pub user_supervisor : ℕ
  pub page_write_through : ℕ
  pub page_cache_disable : ℕ
  pub accessed : ℕ
  pub ignored1 : ℕ
  pub must_be_zero : ℕ
  pub ignored2 : ℕ
  pub available1 : ℕ
  pub pt_addr : ℕ
  pub available2 : ℕ
  pub no_execute : ℕ

abbrev pub pd_entry : (word : ℕ) → PdEntry
pd_entry word = record {
  present = bits 0 1 word;
  read_write = bits 1 1 word;
  user_supervisor = bits 2 1 word;
  page_write_through = bits 3 1 word;
  page_cache_disable = bits 4 1 word;
  accessed = bits 5 1 word;
  ignored1 = bits 6 1 word;
  must_be_zero = bits 7 1 word;
  ignored2 = bits 8 1 word;
  available1 = bits 9 3 word;
  pt_addr = bits 12 40 word;
  available2 = bits 52 11 word;
  no_execute = bits 63 1 word;
}

-- What the walk uses for the entries of every level.
pub record PageEntry : Type 0 where
  pub present : ℕ
  pub read_write : ℕ
  pub user_supervisor : ℕ
  pub available : ℕ
  pub addr : ℕ

abbrev pub page_entry : (word : ℕ) → PageEntry
page_entry word = record {
  present = bits 0 1 word;
  read_write = bits 1 1 word;
  user_supervisor = bits 2 1 word;
  available = bits 9 3 word;
  addr = bits 12 40 word;
}

-- A store of `value` into the `n` bits of a word from `i` on.
abbrev pub store_bits : (i n value word : ℕ) → ℕ
store_bits i n value word = word % 2 ^ i + value % 2 ^ n * 2 ^ i + word / 2 ^ (i + n) * 2 ^ (i + n)

-- What the three stores of a new entry do to its word: `present = true`, `read_write = true`, and the
-- address `p` shifted into `addr`, at the place of a `struct PageEntry` and of a `struct PTEntry`.
abbrev pub set_entry_word : (p word : ℕ) → ℕ
set_entry_word p word = store_bits 12 40 (p / 2 ^ 12) (store_bits 1 1 1 (store_bits 0 1 1 word))

-- The word, read as an entry of each level, has the new fields and else the old ones.
abbrev pub SetsEntry : (p word : ℕ) → Type 0
SetsEntry p word =
    let word' = set_entry_word p word in
    let frame = p / 4096 % 2 ^ 40 in
    (pt_entry word' ≡ record (pt_entry word) { present = 1; read_write = 1; addr = frame })
    × (pd_entry word' ≡ record (pd_entry word) { present = 1; read_write = 1; pt_addr = frame })
    × (pdp_entry word' ≡ record (pdp_entry word) { present = 1; read_write = 1; pd_addr = frame })
    × (pml4_entry word'
        ≡ record (pml4_entry word) { present = 1; read_write = 1; pdp_addr = frame })
    × (page_entry word' ≡ record (page_entry word) { present = 1; read_write = 1; addr = frame })

-- A word after the stores of a new entry for the address `p`, read as an entry of each level, has its
-- presence and its permission to write set, has the frame number of `p`, in 40 bits, as its address,
-- and has every other field, the user's access, the accessed and dirty flags, the available bits and
-- the ban on execution among them, as it was.
pub pt_entry-set_entry_word : (p word : ℕ) → SetsEntry p word
pt_entry-set_entry_word p word =
    let word' = set_entry_word p word in
    let e0 : bits 0 1 word' ≡ 1 = omega arith in
    let e1 : bits 1 1 word' ≡ 1 = omega arith in
    let e2 : bits 2 1 word' ≡ bits 2 1 word = omega arith in
    let e3 : bits 3 1 word' ≡ bits 3 1 word = omega arith in
    let e4 : bits 4 1 word' ≡ bits 4 1 word = omega arith in
    let e5 : bits 5 1 word' ≡ bits 5 1 word = omega arith in
    let e6 : bits 6 1 word' ≡ bits 6 1 word = omega arith in
    let e7 : bits 7 1 word' ≡ bits 7 1 word = omega arith in
    let e78 : bits 7 2 word' ≡ bits 7 2 word = omega arith in
    let e8 : bits 8 1 word' ≡ bits 8 1 word = omega arith in
    let e9 : bits 9 3 word' ≡ bits 9 3 word = omega arith in
    let e10 : bits 12 40 word' ≡ p / 4096 % 2 ^ 40 = omega arith in
    let e11 : bits 52 11 word' ≡ bits 52 11 word = omega arith in
    let e12 : bits 63 1 word' ≡ bits 63 1 word = omega arith in
    (
      rw (e0, e1, e2, e3, e4, e5, e6, e7, e8, e9, e10, e11, e12) refl,
      rw (e0, e1, e2, e3, e4, e5, e6, e7, e8, e9, e10, e11, e12) refl,
      rw (e0, e1, e2, e3, e4, e5, e6, e78, e9, e10, e11, e12) refl,
      rw (e0, e1, e2, e3, e4, e5, e6, e78, e9, e10, e11, e12) refl,
      rw (e0, e1, e2, e9, e10) refl,
    )
