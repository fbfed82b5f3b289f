-- ===== src/Ata/Requests.antt =====
-- The requests of a disk are a first-in first-out queue.
use banj_os.Base.{
  ℕ, ◌≡◌, ◌≢◌, refl, sym, true, false, List, [], ◌∷◌, ◌++◌, arith, ◌==◌, if◌then◌else◌, has,
  has-append, Distinct, update, update_self,
}
use mathlib.Core.Path.{subst}
use banj_os.Frames.Alloc.{FreeChain, FreeChain-frame}
use banj_os.Proc.Links.{last, ne-last}
use banj_os.Ata.{AtaBlockDevice, AtaRequests, ata_req_queue, ata_req_unqueue}

-- The last request, 0 if there is none.
abbrev pub tail_of : List ℕ → ℕ
tail_of [] = 0
tail_of (x ∷ xs) = last x xs

-- The queue holds these requests, the first one first.
pub record IsRequests (ata : AtaBlockDevice) (reqs : AtaRequests) (xs : List ℕ) : Type 0 where
  pub chain : FreeChain (reqs.next) (ata.req_head) xs
  pub tail : ata.req_tail ≡ tail_of xs
  pub once : Distinct xs

-- A chain whose last link is led to a new node, which ends it.
chain_snoc :
    (next : ℕ → ℕ) (head req : ℕ) (x : ℕ) (xs : List ℕ)
    → FreeChain next head (x ∷ xs)
    → Distinct (x ∷ xs)
    → has req (x ∷ xs) ≡ false
    → req ≢ 0
    → FreeChain (update (update next req 0) (last x xs) req) head (x ∷ (xs ++ (req ∷ [])))
chain_snoc next head req x [] (e, n, c) d f z = (e, n, (ground (arith, f), z, ground (arith, f)))
chain_snoc next head req x (y ∷ xs) (e, n, c) d f z =
    let off : req ≢ x = (λ q. ground (arith, q, f)) in
    let nl = ne-last x y xs (d.0) in
    let same : update (update next req 0) (last y xs) req x ≡ next x = ground (arith, off, nl) in
    (e, n, rw same (chain_snoc next (next x) req y xs c (d.1) (ground (arith, f)) z))

-- `a` at the end of a queue that lacks it.
Distinct-snoc : (a : ℕ) (xs : List ℕ) → Distinct xs → has a xs ≡ false → Distinct (xs ++ (a ∷ []))
Distinct-snoc a [] d h = (refl, tt)
Distinct-snoc a (x ∷ xs) d h =
    let d0 = d.0 in
    (ground (arith, has-append x xs (a ∷ []), d0, h), Distinct-snoc a xs (d.1) (ground (arith, h)))

last-snoc : (x a : ℕ) (xs : List ℕ) → last x (xs ++ (a ∷ [])) ≡ a
last-snoc x a [] = refl
last-snoc x a (y ∷ xs) = last-snoc y a xs

last_nonzero :
    (next : ℕ → ℕ) (head x : ℕ) (xs : List ℕ) → FreeChain next head (x ∷ xs) → last x xs ≢ 0
last_nonzero next head x [] c = c.1
last_nonzero next head x (y ∷ xs) c = last_nonzero next (next x) y xs (c.2)

queue_behind :
    (ata : AtaBlockDevice) (reqs : AtaRequests) (req : ℕ)
    → (ata.req_tail == 0) ≡ false
    → ata_req_queue req ata reqs ≡ (
      record ata { req_tail = req },
      record reqs { next = update (update (reqs.next) req 0) (ata.req_tail) req },
    )
unfolding ata_req_queue
queue_behind ata reqs req e = rw (ata_req_queue, e) refl

-- The tail after the first request has left.
tail_after :
    (next : ℕ → ℕ) (tail x : ℕ) (xs : List ℕ)
    → FreeChain next (next x) xs
    → tail ≡ last x xs
    → (if next x == 0 then next x else tail) ≡ tail_of xs
tail_after next tail x [] c e = ground (arith, c)
tail_after next tail x (y ∷ xs) c e = let h = c.0 in let n = c.1 in ground (arith, h, n, e)

-- A request that is not NULL and not in the queue becomes its last one, and the queue is well
-- formed.
pub ata_req_queue-IsRequests :
    (ata : AtaBlockDevice) (reqs : AtaRequests) (xs : List ℕ) (req : ℕ)
    → IsRequests ata reqs xs
    → has req xs ≡ false
    → req ≢ 0
    → let (ata', reqs') = ata_req_queue req ata reqs in IsRequests ata' reqs' (xs ++ (req ∷ []))
unfolding ata_req_queue
ata_req_queue-IsRequests ata reqs [] req ok f z =
    let t = ok.tail in
    let test : (ata.req_tail == 0) ≡ true = ground (arith, t) in
    rw test
      (record { chain = (refl, z, update_self (reqs.next) req 0); tail = refl; once = (refl, tt) })
ata_req_queue-IsRequests ata reqs (x ∷ xs) req ok f z =
    let t = ok.tail in
    let nz = last_nonzero (reqs.next) (ata.req_head) x xs (ok.chain) in
    let test : (ata.req_tail == 0) ≡ false = ground (arith, t, nz) in
    subst (λ p. IsRequests (p.0) (p.1) (x ∷ (xs ++ (req ∷ []))))
      (sym (queue_behind ata reqs req test))
      (record {
        chain =
            subst
              (λ q.
                FreeChain (update (update (reqs.next) req 0) q req) (ata.req_head)
                  (x ∷ (xs ++ (req ∷ []))))
              (sym t) (chain_snoc (reqs.next) (ata.req_head) req x xs (ok.chain) (ok.once) f z);
        tail = sym (last-snoc x req xs);
        once = Distinct-snoc req (x ∷ xs) (ok.once) f;
      })

-- From a queue with requests, `ata_req_unqueue` returns the first one and leaves the others, well
-- formed.
pub ata_req_unqueue-IsRequests :
    (ata : AtaBlockDevice) (reqs : AtaRequests) (x : ℕ) (xs : List ℕ)
    → IsRequests ata reqs (x ∷ xs)
    → let (req, ata', reqs') = ata_req_unqueue ata reqs in (req ≡ x) × IsRequests ata' reqs' xs
unfolding ata_req_unqueue
ata_req_unqueue-IsRequests ata reqs x xs ok =
    let (e, n, c) = ok.chain in
    let d = ok.once in
    let d0 = d.0 in
    let test : (ata.req_head == 0) ≡ false = ground (arith, e, n) in
    rw test (
      e,
      rw e (record {
        chain =
            FreeChain-frame (reqs.next) (update (reqs.next) x 0) (reqs.next x) xs
              (λ b y. ground (arith, d0, y)) c;
        tail = (tail_after (reqs.next) (ata.req_tail) x xs c (ok.tail));
        once = d.1;
      }),
    )
