-- ===== src/Ports.antt =====
-- include/portio.h: the ports. What is behind them is hardware, a parameter: a state, and what a read
-- and a write of a port do to it.
pub mod Polling
use banj_os.Base.{
  ℕ, zero, suc, ◌/◌, ◌%◌, ◌^◌, Bool, true, false, Option, none, some, List, [], ◌∷◌, ◌==◌,
}
use banj_os.Irq.{Outb, clear_mask}

pub record Ports (S : Type 0) : Type 0 where
  pub inp : (port : ℕ) → S → ℕ × S
  pub out : (port val : ℕ) → S → S
  pub inp_word : (port : ℕ) → S → ℕ × S
  pub out_word : (port val : ℕ) → S → S

module _ {S : Type 0} (io : Ports S) where
  abbrev pub inb : ℕ → S → ℕ × S
  inb port s = let (v, s') = io.inp port s in (v % 2 ^ 8, s')

  abbrev pub outb : (port val : ℕ) → S → S
  outb port val s = io.out port (val % 2 ^ 8) s

  abbrev pub inw : ℕ → S → ℕ × S
  inw port s = let (v, s') = io.inp_word port s in (v % 2 ^ 16, s')

  abbrev pub outw : (port val : ℕ) → S → S
  outw port val s = io.out_word port (val % 2 ^ 16) s

  -- A loop that reads a port again until the test holds; `none` is the end of the fuel.
  unfoldable pub wait : (fuel port : ℕ) (stop : ℕ → Bool) (status : ℕ) → S → Option (ℕ × S)
  wait zero port stop status s = none
  wait (suc fuel) port stop status s = elim (stop status) [
    | true ↦ some (status, s)
    | false ↦ let (status', s') = inb port s in wait fuel port stop status' s'
  ]

  -- `n` words of a port.
  unfoldable pub read_words : (n port : ℕ) → S → List ℕ × S
  read_words zero port s = ([], s)
  read_words (suc n) port s =
      let (w, s') = inw port s in let (ws, s'') = read_words n port s' in (w ∷ ws, s'')

  -- Each byte is written to its port.
  abbrev pub out_all : List Outb → S → S
  out_all [] s = s
  out_all (o ∷ os) s = out_all os (outb (o.port) (o.byte) s)

  -- `IRQ_clear_mask`: a read of the mask's port, and a write.
  unfoldable pub unmask : (irq_line : ℕ) → S → S
  unmask irq_line s =
      let o = clear_mask (λ port. (inb port s).0) irq_line in
      outb (o.port) (o.byte) ((inb (o.port) s).1)

-- The bit `i` of a byte.
abbrev pub bit : (i v : ℕ) → Bool
bit i v = v / 2 ^ i % 2 == 1
