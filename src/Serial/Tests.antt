-- ===== src/Serial/Tests.antt =====
-- Three characters on a chip that is always ready.
use banj_os.Base.{ℕ, ◌≡◌, refl, List, [], ◌∷◌, ◌++◌, arith, ◌==◌, if◌then◌else◌, replicate, take}
use banj_os.Ring.{RingBuffer}
use banj_os.Ring.Fifo.{contents}
use banj_os.Ports.{Ports}
use banj_os.Serial.{com1, ser_write}
use banj_os.Serial.Line.{IsChip, Sent, handle, ser_write-Sent}

abbrev chip : Ports (List ℕ)
chip = record {
  inp = λ port s. (0x20, s);
  out = λ port val s. if port == com1 then s ++ (val ∷ []) else s;
  inp_word = λ port s. (0, s);
  out_word = λ port val s. s;
}

chip-IsChip : IsChip chip (λ s. s)
chip-IsChip = record {
  ready = λ s. refl;
  quiet = λ port s. refl;
  sends = λ val s. refl;
  others = λ port val s h. ground (arith, h);
}

abbrev empty : RingBuffer
empty = record { buff = replicate 16 0; consumer = 0; producer = 0; blocked = 0 }

ser_write-Sent_example :
    let (len, r', s') = ser_write chip (66 ∷ 97 ∷ 110 ∷ []) empty [] in
    (len ≡ 3)
    × Sent chip
        (λ s. s)
        chip-IsChip
        (take 15 (contents empty ++ (66 ∷ 97 ∷ 110 ∷ [])))
        []
        []
        (handle chip (λ s. s) chip-IsChip 15 0x24 r' s')
ser_write-Sent_example =
    ser_write-Sent chip (λ s. s) chip-IsChip 0x24 (66 ∷ 97 ∷ 110 ∷ []) empty []
      (record { storage = refl; consumer_in = omega arith; producer_in = omega arith })
