-- ===== src/Frames/Tests.antt =====
-- Frames handed out and freed, and the theorems at such a state.
use banj_os.Base.{ℕ, ◌≡◌, refl, false, none, some, [], ◌∷◌, arith, has, drop}
use banj_os.Regions.{MemRegion}
use banj_os.Frames.{Frames, pf_alloc, get_free_memory}
use banj_os.Frames.Alloc.{IsFrames, start-IsFrames, pf_alloc-IsFrames}

abbrev region : ℕ → ℕ → ℕ → MemRegion
region a n b = record { start = a; end = b; next = n }

-- The frame 0x2000 is freed, 0x1000 is in use, and one region has a page left.
abbrev state : Frames
state = record {
  free_list = 0x2000;
  link = λ _. 0;
  regions = region 0x1000 0x3000 0x3000 ∷ (region 0x8000 0x8000 0x9000 ∷ []);
}

abbrev full : Frames
full = record { free_list = 0; link = λ _. 0; regions = [] }

takes_both : get_free_memory state.regions 0 ≡ 0x1000
unfolding get_free_memory
takes_both = refl

state-IsFrames : IsFrames state (0x2000 ∷ []) (0x1000 ∷ [])
state-IsFrames = record {
  chain = omega arith;
  ready = omega arith;
  once_free = (refl, tt);
  once_out = (refl, tt);
  apart = λ a i. ground arith;
  was_free = λ a i. ground arith;
  was_out = λ a i. ground arith;
}

full-IsFrames : IsFrames full [] []
full-IsFrames = start-IsFrames [] (λ _. 0) (omega arith)

handed : pf_alloc state ≡ some (0x2000, record state { free_list = 0 })
unfolding pf_alloc
handed = refl

pf_alloc-IsFrames_example :
    IsFrames (record state { free_list = 0 }) (drop 1 (0x2000 ∷ [])) (0x2000 ∷ (0x1000 ∷ []))
    × (has 0x2000 (0x1000 ∷ []) ≡ false)
pf_alloc-IsFrames_example =
    pf_alloc-IsFrames state (0x2000 ∷ []) (0x1000 ∷ []) state-IsFrames 0x2000
      (record state { free_list = 0 }) handed

nothing_left : pf_alloc full ≡ none
unfolding pf_alloc
nothing_left = refl

start-IsFrames_example :
    IsFrames
      (record { free_list = 0; link = λ _. 7; regions = region 0x1000 0x1000 0x9000 ∷ [] })
      []
      []
start-IsFrames_example = start-IsFrames (region 0x1000 0x1000 0x9000 ∷ []) (λ _. 7) (omega arith)
