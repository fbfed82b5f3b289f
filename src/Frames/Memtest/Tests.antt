-- ===== src/Frames/Memtest/Tests.antt =====
-- A machine with two regions, of three pages together, whose memory is tested.
use banj_os.Base.{ℕ, ◌≡◌, some, List, [], ◌∷◌, arith}
use banj_os.Regions.{MemRegion}
use banj_os.Frames.Alloc.{IsFrames}
use banj_os.Frames.Memtest.{Memory, count_pages, mmu_memtest}
use banj_os.Frames.Memtest.Capacity.{capacity}
use banj_os.Frames.Memtest.Passes.{mmu_memtest_lem}

abbrev region : ℕ → ℕ → MemRegion
region a b = record { start = a; end = b; next = a }

mmu_memtest_lem_example :
    (m' : Memory) × (free' : List ℕ) × (mmu_memtest (record {
      frames = record {
        free_list = 0;
        link = λ p. 7;
        regions = region 0x1000 0x3000 ∷ (region 0x5000 0x6000 ∷ []);
      };
      words = λ p j. 0;
    })
      ≡ some m')
    × IsFrames (m'.frames) free' []
    × (capacity (m'.frames) free' ≡ 3)
unfolding count_pages
mmu_memtest_lem_example =
    mmu_memtest_lem (region 0x1000 0x3000) (region 0x5000 0x6000 ∷ []) (λ p. 7) (λ p j. 0)
      (omega arith) (omega arith) (omega arith)
