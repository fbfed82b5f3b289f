-- ===== src/Ps2/Typing.antt =====
-- A key press reaches the ring and wakes the readers.
use banj_os.Base.{
  ℕ, ◌<◌, ◌≡◌, ◌∙◌, refl, ap, none, some, List, [], ◌++◌, ◌==◌, if◌then◌else◌, length, Bool-cases,
  inl, inr,
}
use banj_os.Proc.Sched.{Sched, unblock_all}
use banj_os.Proc.Sched.View.{IsView, at}
use banj_os.Proc.Sched.Blocking.{unblock_all_lem}
use banj_os.Ring.{RingBuffer}
use banj_os.Ring.Fifo.{IsValid, contents, enqueue, add_char_refines, add_char-IsValid}
use banj_os.Irq.{send_eoi}
use banj_os.Ports.{Ports, inb, out_all}
use banj_os.Ports.Polling.{StopsWithin, wait-stops}
use banj_os.Ps2.{
  M, data_port, status_command_port, output_status, ◌>>=◌, ps2_read_data_block, typed, add_typed,
  ps2_irq_handler,
}

-- The queue of characters after a key: its character is the last one, unless the key has none or the
-- queue is full.
abbrev pub type_key : (key : ℕ) → List ℕ → List ℕ
type_key key q = if typed key == 0 then q else (enqueue q (typed key)).1

add_typed-IsValid :
    (key : ℕ) (ring : RingBuffer)
    → IsValid ring
    → IsValid (add_typed key ring) × (contents (add_typed key ring) ≡ type_key key (contents ring))
add_typed-IsValid key ring v = elim (Bool-cases (typed key == 0)) [
  | inl y ↦ rw y (v, refl)
  | inr n ↦
      rw n
        (add_char-IsValid ring (typed key) v, ap (λ p. p.1) (add_char_refines ring (typed key) v))
]

bind-some :
    {S A B : Type 0} (m : M S A) (f : A → M S B) (s s' : S) (a : A)
    → m s ≡ some (a, s')
    → (m >>= f) s ≡ f a s'
bind-some m f s s' a e = ap (λ o. elim o [ none ↦ none | some (b, t) ↦ f b t ]) e

-- A controller holds a byte for the data port, which reads of the status leave.
pub record HasKey {S : Type 0} (io : Ports S) (pending : S → ℕ) : Type 0 where
  pub kept : (s : S) → pending ((inb io status_command_port s).1) ≡ pending s
  pub gives : (s : S) → (inb io data_port s).0 ≡ pending s

module _ {S : Type 0} (io : Ports S) (pending : S → ℕ) (keyboard : HasKey io pending) where
  read_key :
      (k fuel : ℕ) (s : S)
      → let (status, s1) = inb io status_command_port s in
        StopsWithin io status_command_port output_status k status s1
        → k < fuel
        → (s' : S) × (ps2_read_data_block io fuel s ≡ some (pending s, s'))
  unfolding ps2_read_data_block
  read_key k fuel s h l =
      let (v, s2, e, f, q) =
        wait-stops io status_command_port output_status (λ t. pending t ≡ pending s)
          (λ t p. keyboard.kept t ∙ p) k fuel ((inb io status_command_port s).0)
          ((inb io status_command_port s).1) h l (keyboard.kept s) in
      (
        (inb io data_port s2).1,
        rw (ps2_read_data_block, e)
            (ap (λ c. some (c, (inb io data_port s2).1)) (keyboard.gives s2 ∙ q)),
      )

  -- From a controller that holds the byte of a key and says so within `k` more reads of its status,
  -- with more fuel than `k` and than there are readers that wait: the handler ends, the character of
  -- the key is in the ring behind the others, if it has one and there is room, and the readers are
  -- ready to run, behind the others.
  pub ps2_irq_handler_lem :
      (k fuel rounds num : ℕ) (ring : RingBuffer) (procs : Sched) (ready : List ℕ)
      (waiting : ℕ → List ℕ) (s : S)
      → let (status, s1) = inb io status_command_port s in
        StopsWithin io status_command_port output_status k status s1
        → k < fuel
        → IsValid ring
        → IsView procs ready waiting
        → length (waiting (ring.blocked)) < rounds
        → (ring' : RingBuffer) × (procs' : Sched) × (s' : S) × (ps2_irq_handler io fuel rounds num
              ring procs s
            ≡ some ((ring', procs'), s'))
          × IsValid ring'
          × (contents ring' ≡ type_key (pending s) (contents ring))
          × IsView procs' (ready ++ waiting (ring.blocked)) (at waiting (ring.blocked) [])
  unfolding ps2_irq_handler
  ps2_irq_handler_lem k fuel rounds num ring procs ready waiting s h l v w r =
      let (s1, e) = read_key k fuel s h l in
      let (procs', u, w') = unblock_all_lem rounds (ring.blocked) w r in
      let (v', c) = add_typed-IsValid (pending s) ring v in
      (
        add_typed (pending s) ring,
        procs',
        out_all io (send_eoi num) s1,
        bind-some (ps2_read_data_block io fuel) _ s s1 (pending s) e
            ∙ bind-some
                (λ t. elim (unblock_all rounds (ring.blocked) procs) [
                  | none ↦ none
                  | some p ↦ some (p, t)
                ])
                _ s1 s1 procs' (rw u refl),
        v',
        c,
        w',
      )
