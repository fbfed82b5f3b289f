-- ===== src/Serial.antt =====
-- src/serial.c: the serial line, with a ring of the characters that wait for it.
pub mod Line
mod Tests
use banj_os.Base.{
  ℕ, zero, suc, ◌+◌, Bool, true, false, not, Option, none, some, List, [], ◌∷◌, ◌==◌, if◌then◌else◌,
  length,
}
use banj_os.Irq.{IrqTableEntry, handler_set, send_eoi}
use banj_os.Ring.{RingBuffer, init, consumer_next, add_all}
use banj_os.Ports.{Ports, inb, outb, out_all, unmask, bit}

abbrev pub com1 : ℕ
com1 = 0x3F8

module _ {S : Type 0} (io : Ports S) where
  abbrev pub is_transmit_empty : S → Bool × S
  is_transmit_empty s = let (v, s') = inb io (com1 + 5) s in (bit 5 v, s')

  abbrev pub write_serial : (c : ℕ) → S → S
  write_serial c s = outb io com1 c s

  -- What follows the read of a character.
  abbrev pub write_next : Option ℕ × RingBuffer → S → RingBuffer × S
  write_next (none, state) s = (state, s)
  write_next (some c, state) s = (state, write_serial c s)

  unfoldable pub serial_ring_consumer_serial_write : RingBuffer → S → RingBuffer × S
  serial_ring_consumer_serial_write state s =
      let (empty, s') = is_transmit_empty s in
      if empty then write_next (consumer_next state) s' else (state, s')

  unfoldable pub serial_transmit_ready_handler : (num : ℕ) → RingBuffer → S → RingBuffer × S
  serial_transmit_ready_handler num state s =
      let (state', s') = serial_ring_consumer_serial_write state s in
      (state', out_all io (send_eoi num) s')

  unfoldable pub ser_write : List ℕ → RingBuffer → S → ℕ × RingBuffer × S
  ser_write buff state s =
      let (state', s') = serial_ring_consumer_serial_write (add_all state buff) s in
      (length buff, state', s')

  -- `none` is a faulty chip, which halts. `handler` and `ring` are addresses.
  pub ser_init :
      (handler ring : ℕ)
      → RingBuffer
      → List IrqTableEntry
      → S
      → Option (RingBuffer × List IrqTableEntry × S)
  ser_init handler ring state table s =
      let s1 = outb io (com1 + 1) 0 s in
      let s2 = outb io (com1 + 3) 3 s1 in
      let s3 = outb io (com1 + 2) 0xC7 s2 in
      let s4 = outb io (com1 + 4) 0xB s3 in
      let s5 = outb io (com1 + 4) 0x1E s4 in
      let s6 = outb io com1 0xAE s5 in
      let (v, s7) = inb io com1 s6 in
      let s8 = outb io (com1 + 4) 0xF (outb io (com1 + 1) 2 (unmask io 4 s7)) in
      if v == 0xAE
      then some (init state false 0, handler_set (0x20 + 4) handler ring table, s8)
      else none
