-- ===== src/Gdt/Tests.antt =====
-- The table at boot: the null descriptor, the kernel's code segment, then the task state segment.
use banj_os.Base.{◌≡◌, refl, none, some, ◌∷◌, replicate}
use banj_os.Gdt.{Gdt, start, push_dq, load, setup}

abbrev booted : Gdt
booted = record {
  table = 0 ∷ 0x20980000000000 ∷ replicate 6 0;
  top = 2;
  kernel_desc_offset = 8;
  limit = 15;
}

boot : setup start ≡ some booted
unfolding setup push_dq load
boot = refl

full : push_dq 1 (record booted { top = 8 }) ≡ none
unfolding push_dq
full = refl
