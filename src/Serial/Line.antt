-- ===== src/Serial/Line.antt =====
-- What is written to the serial line is sent, in order.
use banj_os.Base.{
  ℕ, zero, suc, ◌+◌, ◌%◌, ◌^◌, ◌≤◌, ◌≡◌, ◌≢◌, ◌∙◌, refl, ap, sym, true, List, [], ◌∷◌, ◌++◌, map,
  append-nil, append_assoc, arith, leb, length, take, length-take, Bool-cases, inl, inr,
}
use mathlib.Core.Path.{subst}
use banj_os.Irq.{send_eoi}
use banj_os.Ring.{RingBuffer, consumer_next, add_all}
use banj_os.Ring.Fifo.{IsValid, contents, next-IsValid}
use banj_os.Ring.Blocking.{next-cons, is_empty_iff, add_all-IsValid, contents-add_all}
use banj_os.Ports.{Ports, inb, outb, out_all, bit}
use banj_os.Serial.{
  com1, write_next, serial_ring_consumer_serial_write, serial_transmit_ready_handler, ser_write,
}

-- A chip that is always ready to transmit, with what it has sent: a write to its first port is sent,
-- and nothing else is.
pub record IsChip {S : Type 0} (io : Ports S) (sent : S → List ℕ) : Type 0 where
  pub ready : (s : S) → bit 5 ((inb io (com1 + 5) s).0) ≡ true
  pub quiet : (port : ℕ) (s : S) → sent ((io.inp port s).1) ≡ sent s
  pub sends : (val : ℕ) (s : S) → sent (io.out com1 val s) ≡ sent s ++ (val ∷ [])
  pub others : (port val : ℕ) (s : S) → port ≢ com1 → sent (io.out port val s) ≡ sent s

abbrev pub bytes : List ℕ → List ℕ
bytes xs = map (λ c. c % 2 ^ 8) xs

module _ {S : Type 0} (io : Ports S) (sent : S → List ℕ) (chip : IsChip io sent) where
  -- A ring that holds `xs` after `cs` were sent.
  pub record Sent (cs xs : List ℕ) (s : S) (o : RingBuffer × S) : Type 0 where
    pub valid : IsValid (o.0)
    pub left : contents (o.0) ≡ xs
    pub on_line : sent (o.1) ≡ sent s ++ bytes cs

  opened :
      (r : RingBuffer) (s : S)
      → serial_ring_consumer_serial_write io r s
        ≡ write_next io (consumer_next r) ((inb io (com1 + 5) s).1)
  unfolding serial_ring_consumer_serial_write
  opened r s = rw (serial_ring_consumer_serial_write, chip.ready s) refl

  write-cons :
      (r : RingBuffer) (c : ℕ) (cs : List ℕ) (s : S)
      → IsValid r
      → contents r ≡ c ∷ cs
      → Sent (c ∷ []) cs s (serial_ring_consumer_serial_write io r s)
  write-cons r c cs s v e =
      let (now, rest) = next-cons r c cs v e in
      let s1 = (inb io (com1 + 5) s).1 in
      let step : write_next io (consumer_next r) s1 ≡ ((consumer_next r).1, outb io com1 c s1) =
        ap (λ o. write_next io (o, (consumer_next r).1) s1) now in
      subst (λ o. Sent (c ∷ []) cs s o) (sym (opened r s ∙ step))
        (record {
          valid = next-IsValid r v;
          left = rest;
          on_line =
              chip.sends (c % 2 ^ 8) s1 ∙ ap (λ t. t ++ (c % 2 ^ 8 ∷ [])) (chip.quiet (com1 + 5) s);
        })

  write-nil :
      (r : RingBuffer) (s : S)
      → IsValid r
      → contents r ≡ []
      → Sent [] [] s (serial_ring_consumer_serial_write io r s)
  unfolding consumer_next
  write-nil r s v e =
      let s1 = (inb io (com1 + 5) s).1 in
      let test = is_empty_iff r v e in
      let step : write_next io (consumer_next r) s1 ≡ (r, s1) = rw (consumer_next, test) refl in
      subst (λ o. Sent [] [] s o) (sym (opened r s ∙ step))
        (record {
          valid = v;
          left = e;
          on_line = chip.quiet (com1 + 5) s ∙ sym (append-nil (sent s));
        })

  eoi_quiet : (num : ℕ) (s : S) → sent (out_all io (send_eoi num) s) ≡ sent s
  unfolding send_eoi
  eoi_quiet num s = elim (Bool-cases (leb 8 num)) [
    | inl y ↦ rw y (
        chip.others 0x20 0x20 (io.out 0xA0 0x20 s) (λ e. omega (arith, e))
        ∙ chip.others 0xA0 0x20 s (λ e. omega (arith, e)))
    | inr n ↦ rw n (chip.others 0x20 0x20 s (λ e. omega (arith, e)))
  ]

  -- `n` interrupts of the chip.
  abbrev pub handle : (n num : ℕ) → RingBuffer → S → RingBuffer × S
  handle zero num r s = (r, s)
  handle (suc n) num r s =
      let (r', s') = serial_transmit_ready_handler io num r s in handle n num r' s'

  after_eoi :
      (num : ℕ) (r : RingBuffer) (cs xs : List ℕ) (s : S)
      → Sent cs xs s (serial_ring_consumer_serial_write io r s)
      → Sent cs xs s (serial_transmit_ready_handler io num r s)
  unfolding serial_transmit_ready_handler
  after_eoi num r cs xs s h = record {
    valid = h.valid;
    left = h.left;
    on_line = eoi_quiet num ((serial_ring_consumer_serial_write io r s).1) ∙ h.on_line;
  }

  then_Sent :
      (c : ℕ) (cs : List ℕ) (s s' : S) (o : RingBuffer × S)
      → sent s' ≡ sent s ++ bytes (c ∷ [])
      → Sent cs [] s' o
      → Sent (c ∷ cs) [] s o
  then_Sent c cs s s' o e h = record {
    valid = h.valid;
    left = h.left;
    on_line =
        h.on_line ∙ ap (λ t. t ++ bytes cs) e ∙ append_assoc (sent s) (bytes (c ∷ [])) (bytes cs);
  }

  handle-Sent :
      (n num : ℕ) (r : RingBuffer) (xs : List ℕ) (s : S)
      → IsValid r
      → contents r ≡ xs
      → length xs ≤ n
      → Sent xs [] s (handle n num r s)
  handle-Sent zero num r [] s v e h = record {
    valid = v;
    left = e;
    on_line = sym (append-nil (sent s));
  }
  handle-Sent zero num r (x ∷ xs) s v e h = absurd (omega (arith, h))
  handle-Sent (suc n) num r [] s v e h =
      let (r', s') = serial_transmit_ready_handler io num r s in
      let one = after_eoi num r [] [] s (write-nil r s v e) in
      let rest = handle-Sent n num r' [] s' (one.valid) (one.left) (omega arith) in
      record {
        valid = rest.valid;
        left = rest.left;
        on_line = rest.on_line ∙ append-nil (sent s') ∙ one.on_line;
      }
  handle-Sent (suc n) num r (x ∷ xs) s v e h =
      let (r', s') = serial_transmit_ready_handler io num r s in
      let one = after_eoi num r (x ∷ []) xs s (write-cons r x xs s v e) in
      then_Sent x xs s s' (handle n num r' s') (one.on_line)
        (handle-Sent n num r' xs s' (one.valid) (one.left) (omega (arith, h)))

  -- On a valid ring and a chip that is always ready: after `SER_write` and as many interrupts of the
  -- chip as characters can wait, the chip has sent the characters that waited and then those written,
  -- as far as the ring holds them, which is the first fifteen, and none waits.
  pub ser_write-Sent :
      (num : ℕ) (buff : List ℕ) (r : RingBuffer) (s : S)
      → IsValid r
      → let (len, r', s') = ser_write io buff r s in
        (len ≡ length buff) × Sent (take 15 (contents r ++ buff)) [] s (handle 15 num r' s')
  unfolding ser_write
  ser_write-Sent num buff r s v = (
    refl,
    go (take 15 (contents r ++ buff)) (contents-add_all r buff v)
        (length-take 15 (contents r ++ buff)),
  )
    where
      go :
          (xs : List ℕ)
          → contents (add_all r buff) ≡ xs
          → length xs ≤ 15
          → Sent xs [] s (
              handle 15 num
                ((serial_ring_consumer_serial_write io (add_all r buff) s).0)
                ((serial_ring_consumer_serial_write io (add_all r buff) s).1))
      go [] e h =
          let one = write-nil (add_all r buff) s (add_all-IsValid r buff v) e in
          let rest = handle-Sent 15 num _ [] _ (one.valid) (one.left) (omega arith) in
          record {
            valid = rest.valid;
            left = rest.left;
            on_line = rest.on_line ∙ append-nil _ ∙ one.on_line;
          }
      go (x ∷ xs) e h =
          let one = write-cons (add_all r buff) x xs s (add_all-IsValid r buff v) e in
          then_Sent x xs s _ _ (one.on_line)
            (handle-Sent 15 num _ xs _ (one.valid) (one.left) (omega (arith, h)))
