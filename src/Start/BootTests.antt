-- ===== src/Start/BootTests.antt =====
-- A machine with 2 MiB of memory, a part of it the kernel's.
use banj_os.Base.{◌≡◌, refl, some, [], ◌∷◌, arith}
use banj_os.Regions.{MemRegion}
use banj_os.Regions.Tags.Tests.{memory, map, sections, tags, laid, built}
use banj_os.Frames.Alloc.{IsFrames}
use banj_os.Paging.{Tables, blank}
use banj_os.Paging.Range.{Outcome, last_end}
use banj_os.Paging.DirectMap.{Maps}
use banj_os.Start.Boot.{first_frames, memory_init, memory_init-Maps}

abbrev region : MemRegion
region = record { start = 0x106000; end = 0x200000; next = 0x106000 }

abbrev nothing : Tables
nothing t i = blank

memory_init-Maps_example :
    IsFrames (first_frames (λ p. 0) (region ∷ [])) [] []
    × ((o : Outcome) × (memory_init 4 513 memory 0x1000 (λ p. 0) nothing
          ≡ some (region ∷ [], 0x106000, o))
        × Maps 0x106000 4096 0x200000 o)
unfolding last_end
memory_init-Maps_example =
    memory_init-Maps 4 512 memory 0x1000 tags map sections region [] 0x200000 (λ p. 0) nothing laid
      refl refl (omega arith) (omega arith) (omega arith) built refl (omega arith) (omega arith)
