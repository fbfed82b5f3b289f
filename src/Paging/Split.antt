-- ===== src/Paging/Split.antt =====
-- The parts of a virtual address give the address back.
use banj_os.Base.{ℕ, ◌+◌, ◌*◌, ◌%◌, ◌^◌, ◌≡◌, arith}
use banj_os.Paging.{index, page_offset}

-- The four indices and the offset make up the low 48 bits of the address.
pub split_lem :
    (v : ℕ)
    → index 3 v * 2 ^ 39
        + index 2 v * 2 ^ 30
        + index 1 v * 2 ^ 21
        + index 0 v * 2 ^ 12
        + page_offset v
      ≡ v % 2 ^ 48
split_lem v = omega arith
