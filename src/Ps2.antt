-- ===== src/Ps2.antt =====
-- src/ps2.c, and include/ps2.h: the keyboard's controller, its dialogue at the start, and the
-- interrupt handler that puts the typed characters into a ring. `none` is a halt, or the end of the
-- fuel of a loop that waits for the controller.
pub mod Typing
mod Tests
use Prim.Native.Nat.{bit_and, bit_or}
use banj_os.Base.{
  ℕ, zero, suc, ◌+◌, ◌-◌, Bool, true, false, not, ◌&&◌, ◌||◌, Option, none, some, List, [], ◌∷◌,
  ◌==◌, if◌then◌else◌, get_or,
}
use banj_os.Irq.{IrqTableEntry, handler_set, send_eoi}
use banj_os.Keys.Chars.{scan_code_to_char}
use banj_os.Proc.Sched.{Sched, unblock_all}
use banj_os.Printk.{Out, Printed, num, printk}
use banj_os.Ring.{RingBuffer, init, producer_add_char}
use banj_os.Ports.{Ports, inb, outb, wait, out_all, unmask, bit}

abbrev pub data_port : ℕ
data_port = 0x60

abbrev pub status_command_port : ℕ
status_command_port = 0x64

-- The bits of the status that the code looks at.
abbrev pub output_status : ℕ → Bool
output_status status = bit 0 status

abbrev pub input_status : ℕ → Bool
input_status status = bit 1 status

-- A step of the dialogue.
abbrev pub M : Type 0 → Type 0 → Type 0
M S A = S → Option (A × S)

infixl 5 ◌>>=◌ ◌>>◌
abbrev pub ◌>>=◌ : {S A B : Type 0} → M S A → (A → M S B) → M S B
◌>>=◌ m f s = elim (m s) [ none ↦ none | some (a, s') ↦ f a s' ]

abbrev pub ◌>>◌ : {S B : Type 0} → M S (Unit {0}) → M S B → M S B
m >> k = m >>= λ _. k

abbrev pub pure : {S A : Type 0} → A → M S A
pure a s = some (a, s)

-- The code leaves the system when the test fails.
abbrev pub require : {S : Type 0} → Bool → M S (Unit {0})
require ok s = if ok then some (tt, s) else none

-- The character of a key, 0 for none.
abbrev pub typed : (key : ℕ) → ℕ
typed key = if key == 0x1C then 10 else scan_code_to_char key

abbrev pub add_typed : (key : ℕ) → RingBuffer → RingBuffer
add_typed key ring = if typed key == 0 then ring else (producer_add_char ring (typed key)).1

-- What `ps2_echo` prints of a key.
unfoldable pub echoed : (key : ℕ) → Out → Printed
echoed key o =
    if key == 0x1C
    then printk (b'\n' ∷ []) [] o
    else (if scan_code_to_char key == 0
        then some (o, 0)
        else printk (b'%' ∷ (b'c' ∷ [])) (num (scan_code_to_char key) ∷ []) o)

module _ {S : Type 0} (io : Ports S) (fuel : ℕ) where
  abbrev pub ps2_get_status : M S ℕ
  ps2_get_status s = some (inb io status_command_port s)

  -- The loop until the controller takes input, and then the write.
  unfoldable pub send : (port value : ℕ) → M S (Unit {0})
  send port value s =
      let (status, s1) = inb io status_command_port s in
      elim (wait io fuel status_command_port (λ v. not (input_status v)) status s1) [
        | none ↦ none
        | some (_, s2) ↦ some (tt, outb io port value s2)
      ]

  abbrev pub ps2_send_command : (command : ℕ) → M S (Unit {0})
  ps2_send_command command = send status_command_port command

  abbrev pub ps2_send_data : (value : ℕ) → M S (Unit {0})
  ps2_send_data value = send data_port value

  -- The loop of `ps2_read_data` with a timeout; `none` inside is the result `false`.
  unfoldable pub read_data_within : (timeout status : ℕ) → S → Option ℕ × S
  read_data_within zero status s = (none, s)
  read_data_within (suc timeout) status s =
      let (status', s1) = inb io status_command_port s in
      let later = read_data_within timeout status' s1 in
      let (value, s2) = inb io data_port s in
      if output_status status then (some value, s2) else later

  abbrev pub ps2_read_data : (timeout : ℕ) → M S (Option ℕ)
  ps2_read_data timeout s =
      let (status, s1) = inb io status_command_port s in some (read_data_within timeout status s1)

  -- `ps2_read_data` with the timeout -1, which never ends.
  unfoldable pub ps2_read_data_block : M S ℕ
  ps2_read_data_block s =
      let (status, s1) = inb io status_command_port s in
      elim (wait io fuel status_command_port output_status status s1) [
        | none ↦ none
        | some (_, s2) ↦ some (inb io data_port s2)
      ]

  abbrev pub ps2_get_controller_config : M S ℕ
  ps2_get_controller_config = do ps2_send_command 0x20; ps2_read_data_block

  -- The bytes of the reset sequence, `n` turns.
  unfoldable pub read_reset : (n : ℕ) → M S (List ℕ)
  read_reset zero = pure []
  read_reset (suc n) = do
    value ← ps2_read_data 10000
    rest ← elim value [ none ↦ pure [] | some v ↦ read_reset n ]
    pure (elim value [ none ↦ [] | some v ↦ v ∷ rest ])

  -- `config` without the bits of the first port's interrupt, translation and clock.
  abbrev pub quiet_config : ℕ → ℕ
  quiet_config config = bit_and config (255 - 0x51)

  -- Up to the quiet configuration; the bytes that wait are thrown away.
  abbrev pub configure : M S ℕ
  configure = do
    ps2_send_command 0xAD
    ps2_send_command 0xA7
    status ← ps2_get_status
    flushed ← if output_status status then ps2_read_data_block else pure 0
    config ← ps2_get_controller_config
    ps2_send_command 0x60
    ps2_send_data (quiet_config config)
    pure (quiet_config config)

  abbrev pub self_test : M S (Unit {0})
  self_test = do
    ps2_send_command 0xAA
    controller ← ps2_read_data_block
    require (controller == 0x55)
    ps2_send_command 0xAB
    first_port ← ps2_read_data_block
    require (first_port == 0)

  -- `unset` are the bytes of the array that no read has set.
  abbrev pub reset_device : (unset : ℕ) → M S (Unit {0})
  reset_device unset = do
    ps2_send_data 0xFF
    seq ← read_reset 4
    require (
        ((get_or seq 0 unset == 0xFA) && (get_or seq 1 unset == 0xAA))
        || ((get_or seq 0 unset == 0xAA) && (get_or seq 1 unset == 0xFA)))

  abbrev pub set_scan_code : M S (Unit {0})
  set_scan_code = do
    ps2_send_data 0xF0
    scan ← ps2_read_data_block
    require ((scan == 0xFA) || (scan == 0xFE))
    ps2_send_data 1
    answer ← ps2_read_data_block
    require (answer == 0xFA)

  abbrev pub enable : M S (Unit {0})
  enable = do
    config ← ps2_get_controller_config
    ps2_send_command 0x60
    ps2_send_data (bit_or config 1)
    ps2_send_command 0xAE

  -- The ring, whose queue is at the address `queue`, and the table of handlers.
  pub ps2_initialize :
      (unset queue handler : ℕ)
      → RingBuffer
      → List IrqTableEntry
      → M S (RingBuffer × List IrqTableEntry)
  ps2_initialize unset queue handler ring table = do
    config ← configure
    self_test
    reset_device unset
    set_scan_code
    unmasked ← (λ s. some (tt, unmask io 1 s))
    enable
    pure (init ring true queue, handler_set (0x20 + 1) handler 0 table)

  -- `rounds` is the fuel of `PROC_unblock_all`.
  unfoldable pub ps2_irq_handler :
      (rounds number : ℕ) → RingBuffer → Sched → M S (RingBuffer × Sched)
  ps2_irq_handler rounds number ring procs = do
    key ← ps2_read_data_block
    procs' ←
        (λ s. elim (unblock_all rounds (ring.blocked) procs) [ none ↦ none | some p ↦ some (p, s) ])
    acknowledged ← (λ s. some (tt, out_all io (send_eoi number) s))
    pure (add_typed key ring, procs')

  -- What it prints of the key that it reads.
  unfoldable pub ps2_echo : Out → M S Out
  ps2_echo o = do
    key ← ps2_read_data_block
    (λ s. elim (echoed key o) [ none ↦ none | some (o', _) ↦ some (o', s) ])
