-- ===== src/Irq/Idt.antt =====
-- The descriptors give back the addresses they were made from, one for each vector.
use banj_os.Base.{
  ℕ, zero, suc, ◌+◌, ◌*◌, ◌^◌, ◌≤◌, ◌<◌, ◌≡◌, ◌∙◌, refl, List, length, get_or, set, length-set,
  get_or-set_self, get_or-set_ne, arith, ltb, ltb→lt, ltb→le, Bool-cases, inl, inr,
}
use banj_os.Irq.{
  IdtEntry, idt_set_descriptor, fill_idt, ist_of, max_descriptors, TssDescriptor,
  tss_set_descriptor,
}

-- The address that the processor reads from a descriptor.
abbrev pub isr_address : IdtEntry → ℕ
isr_address e = e.isr_low + e.isr_mid * 2 ^ 16 + e.isr_high * 2 ^ 32

abbrev pub base_address : TssDescriptor → ℕ
base_address d = d.base_low + d.base_mid * 2 ^ 24 + d.base_high * 2 ^ 32

fill_idt-before :
    (n i cs : ℕ) (stubs : ℕ → ℕ) (idt : List IdtEntry) (j : ℕ) (d : IdtEntry)
    → j < i
    → get_or (fill_idt n i cs stubs idt) j d ≡ get_or idt j d
unfolding fill_idt
fill_idt-before zero i cs stubs idt j d h = refl
fill_idt-before (suc n) i cs stubs idt j d h =
    let e = idt_set_descriptor cs (stubs i) (ist_of i) in
    fill_idt-before n (suc i) cs stubs (set idt i e) j d (omega arith)
    ∙ get_or-set_ne idt i j e d (λ q. omega (arith, q))

fill_idt-inside :
    (n i cs : ℕ) (stubs : ℕ → ℕ) (idt : List IdtEntry) (j : ℕ) (d : IdtEntry)
    → i ≤ j
    → j < i + n
    → j < length idt
    → get_or (fill_idt n i cs stubs idt) j d ≡ idt_set_descriptor cs (stubs j) (ist_of j)
unfolding fill_idt
fill_idt-inside zero i cs stubs idt j d h k l = absurd (omega arith)
fill_idt-inside (suc n) i cs stubs idt j d h k l =
    let e = idt_set_descriptor cs (stubs i) (ist_of i) in
    elim (Bool-cases (ltb i j)) [
      | inl later ↦
          fill_idt-inside n (suc i) cs stubs (set idt i e) j d (ltb→lt i j later) (omega arith)
            (omega (arith, length-set idt i e))
      | inr here ↦
          let q : i ≡ j = omega (arith, ltb→le i j here) in
          fill_idt-before n (suc i) cs stubs (set idt i e) j d (omega arith)
          ∙ rw q (get_or-set_self idt j (idt_set_descriptor cs (stubs j) (ist_of j)) d l)
    ]

-- What the processor finds at a vector.
pub record Enters (e : IdtEntry) (cs isr ist : ℕ) : Type 0 where
  pub address : isr_address e ≡ isr
  pub segment : e.kernel_cs ≡ cs
  pub stack : e.ist ≡ ist
  pub is_present : e.present ≡ 1

ist_of-bound : (i : ℕ) → ist_of i < 8
unfolding ist_of
ist_of-bound i = ground arith

idt_set_descriptor-Enters :
    (cs isr ist : ℕ)
    → cs < 2 ^ 16
    → isr < 2 ^ 64
    → ist < 8
    → Enters (idt_set_descriptor cs isr ist) cs isr ist
unfolding idt_set_descriptor
idt_set_descriptor-Enters cs isr ist h k l = record {
  address = omega arith;
  segment = omega arith;
  stack = omega arith;
  is_present = refl;
}

-- After the loop of `IRQ_init` every vector enters its own stub, in the kernel's segment and on the
-- stack that was chosen for it.
pub fill_idt-Enters :
    (cs : ℕ) (stubs : ℕ → ℕ) (idt : List IdtEntry) (i : ℕ) (d : IdtEntry)
    → cs < 2 ^ 16
    → ((j : ℕ) → stubs j < 2 ^ 64)
    → length idt ≡ max_descriptors
    → i < max_descriptors
    → Enters (get_or (fill_idt max_descriptors 0 cs stubs idt) i d) cs (stubs i) (ist_of i)
fill_idt-Enters cs stubs idt i d h k len l =
    rw
      (fill_idt-inside max_descriptors 0 cs stubs idt i d (omega arith) (omega arith)
        (omega (arith, len)))
      (idt_set_descriptor-Enters cs (stubs i) (ist_of i) h (k i) (ist_of-bound i))

-- The descriptor of the task state segment gives back its address.
pub tss_set_descriptor_lem :
    (base : ℕ) → base < 2 ^ 64 → base_address (tss_set_descriptor base) ≡ base
unfolding tss_set_descriptor
tss_set_descriptor_lem base h = omega arith
