-- ===== src/Proc/Sched/View.antt =====
-- What the scheduler stands for: a list of ready processes and a list for each queue.
use banj_os.Base.{
  has, erase, has-append, has-erase, erase_self, ℕ, ◌≡◌, ◌≢◌, true, false, List, [], ◌∷◌, ◌++◌,
  arith, ◌==◌, if◌then◌else◌, inl, inr, Bool-cases,
}
use banj_os.Proc.Queue.{IsQueue, append_proc_lem, unlink_proc_lem, IsQueue-frame, IsQueue-Distinct}
use banj_os.Proc.Sched.{Sched, unlink_avail, append_avail, unlink_queue, append_queue}

-- The queues hold these processes, each process in at most one queue.
pub record IsView (s : Sched) (ready : List ℕ) (waiting : ℕ → List ℕ) : Type 0 where
  pub avail : IsQueue s.nodes s.avail ready
  pub queues : (q : ℕ) → IsQueue s.nodes (s.queues q) (waiting q)
  pub apart : (q a : ℕ) → has a (waiting q) ≡ true → has a ready ≡ false
  pub separate : (p q a : ℕ) → p ≢ q → has a (waiting p) ≡ true → has a (waiting q) ≡ false

-- The lists with the one of queue `q` changed.
abbrev pub at : (ℕ → List ℕ) → ℕ → List ℕ → ℕ → List ℕ
at waiting q xs p = if q == p then xs else waiting p

-- A process in no queue.
abbrev pub Loose : ℕ → List ℕ → (ℕ → List ℕ) → Type 0
Loose a ready waiting = (has a ready ≡ false) × ((q : ℕ) → has a (waiting q) ≡ false)

has-at :
    (waiting : ℕ → List ℕ) (q p b : ℕ) (xs : List ℕ)
    → has b (at waiting q xs p) ≡ (if q == p then has b xs else has b (waiting p))
has-at waiting q p b xs = elim (Bool-cases (q == p)) [ inl e ↦ rw e | inr e ↦ rw e ]

module _ {s : Sched} {ready : List ℕ} {waiting : ℕ → List ℕ} (v : IsView s ready waiting) where
  -- Taking a ready process out leaves it in no queue.
  pub unlink_avail-IsView :
      (a : ℕ)
      → has a ready ≡ true
      → IsView (unlink_avail a s) (erase a ready) waiting × Loose a (erase a ready) waiting
  unfolding unlink_avail
  unlink_avail-IsView a i =
      let (q, same) = unlink_proc_lem s.nodes s.avail a ready v.avail i in
      let d = IsQueue-Distinct s.nodes s.avail ready v.avail in
      (
        record {
          avail = q;
          queues = λ p.
              IsQueue-frame s.nodes _ (s.queues p) (waiting p) ready same (v.apart p) (v.queues p);
          apart = λ p b i. has-erase b a ready (v.apart p b i);
          separate = v.separate;
        },
        (erase_self a ready d, λ p. ground (arith, v.apart p a)),
      )

  pub append_avail-IsView :
      (a : ℕ)
      → a ≢ 0
      → Loose a ready waiting
      → IsView (append_avail a s) (ready ++ (a ∷ [])) waiting
  unfolding append_avail
  append_avail-IsView a n0 (o, w) =
      let (q, same) = append_proc_lem s.nodes s.avail a ready v.avail n0 o in
      record {
        avail = q;
        queues = λ p.
            IsQueue-frame s.nodes _ (s.queues p) (waiting p) (a ∷ ready) same
              (λ b i. ground (arith, v.apart p b, w p)) (v.queues p);
        apart = λ p b i. ground (arith, v.apart p b, w p, has-append b ready (a ∷ []));
        separate = v.separate;
      }

  -- The same for a queue of waiting processes.
  pub unlink_queue-IsView :
      (a q : ℕ)
      → has a (waiting q) ≡ true
      → IsView (unlink_queue a q s) ready (at waiting q (erase a (waiting q)))
        × Loose a ready (at waiting q (erase a (waiting q)))
  unfolding unlink_queue
  unlink_queue-IsView a q i =
      let (l, same) = unlink_proc_lem s.nodes (s.queues q) a (waiting q) (v.queues q) i in
      let d = IsQueue-Distinct s.nodes (s.queues q) (waiting q) (v.queues q) in
      let out : has a ready ≡ false = v.apart q a i in
      (
        record {
          avail =
              IsQueue-frame s.nodes _ s.avail ready (waiting q) same
                (λ b j. ground (arith, v.apart q b)) v.avail;
          queues = λ p. elim (Bool-cases (q == p)) [
            | inl e ↦ rw e l
            | inr e ↦ rw e (
                IsQueue-frame s.nodes _ (s.queues p) (waiting p) (waiting q) same
                  (λ b. v.separate p q b (ground arith)) (v.queues p))
          ];
          apart = λ p b j. ground (
            arith,
            has-at waiting q p b (erase a (waiting q)),
            v.apart p b,
            v.apart q b,
            has-erase b a (waiting q),
          );
          separate = λ p r b ne j. ground (
            arith,
            has-at waiting q p b (erase a (waiting q)),
            has-at waiting q r b (erase a (waiting q)),
            v.separate p r b,
            has-erase b a (waiting q),
          );
        },
        (
          out,
          λ p. ground (
            arith,
            has-at waiting q p a (erase a (waiting q)),
            erase_self a (waiting q) d,
            v.separate q p a,
          ),
        ),
      )

  pub append_queue-IsView :
      (a q : ℕ)
      → a ≢ 0
      → Loose a ready waiting
      → IsView (append_queue a q s) ready (at waiting q (waiting q ++ (a ∷ [])))
  unfolding append_queue
  append_queue-IsView a q n0 (o, w) =
      let (l, same) = append_proc_lem s.nodes (s.queues q) a (waiting q) (v.queues q) n0 (w q) in
      record {
        avail =
            IsQueue-frame s.nodes _ s.avail ready (a ∷ waiting q) same
              (λ b j. ground (arith, v.apart q b)) v.avail;
        queues = λ p. elim (Bool-cases (q == p)) [
          | inl e ↦ rw e l
          | inr e ↦ rw e (
              IsQueue-frame s.nodes _ (s.queues p) (waiting p) (a ∷ waiting q) same
                (λ b j. ground (arith, v.separate p q b, w p)) (v.queues p))
        ];
        apart = λ p b j. ground (
          arith,
          has-at waiting q p b (waiting q ++ (a ∷ [])),
          has-append b (waiting q) (a ∷ []),
          v.apart p b,
        );
        separate = λ p r b ne j. ground (
          arith,
          has-at waiting q p b (waiting q ++ (a ∷ [])),
          has-at waiting q r b (waiting q ++ (a ∷ [])),
          has-append b (waiting q) (a ∷ []),
          v.separate p r b,
          w p,
          w r,
        );
      }

-- The view is about the nodes and the heads of the queues alone.
pub IsView-same :
    {s : Sched} (t : Sched) {ready : List ℕ} {waiting : ℕ → List ℕ}
    → IsView s ready waiting
    → t.nodes ≡ s.nodes
    → t.avail ≡ s.avail
    → t.queues ≡ s.queues
    → IsView t ready waiting
IsView-same t v en ea eq = record {
  avail = rw (en, ea) v.avail;
  queues = rw (en, eq) v.queues;
  apart = v.apart;
  separate = v.separate;
}

pub IsView-ready :
    {s : Sched} (t : Sched) {ready : List ℕ} {waiting : ℕ → List ℕ} (ready' : List ℕ)
    → IsView s ready waiting
    → t.nodes ≡ s.nodes
    → t.queues ≡ s.queues
    → ((a : ℕ) → has a ready' ≡ has a ready)
    → IsQueue t.nodes t.avail ready'
    → IsView t ready' waiting
IsView-ready t ready' v en eq same q = record {
  avail = q;
  queues = rw (en, eq) v.queues;
  apart = λ p a i. ground (arith, same a, v.apart p a);
  separate = v.separate;
}
