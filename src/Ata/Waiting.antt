-- ===== src/Ata/Waiting.antt =====
-- The loop that waits for the drive, while other processes queue their requests.
use banj_os.Base.{
  ℕ, ◌≡◌, ◌≢◌, refl, false, some, List, [], ◌∷◌, ◌++◌, arith, ◌==◌, has, inl, inr, Bool-cases,
  append-nil, append_assoc, ◌⊎◌, ◌∙◌, ap, sym, zero, suc, ◌≤◌, length,
}
use mathlib.Core.Path.{subst}
use banj_os.Ports.{Ports, inb}
use banj_os.Ata.{AtaBlockDevice, AtaRequests, ata_req_queue}
use banj_os.Ata.Driver.{Wake, not_ready, queue_all, await}
use banj_os.Ata.Requests.{IsRequests, ata_req_queue-IsRequests}

-- Requests that are not NULL, and neither in the queue nor among those before them.
abbrev pub Fresh : (xs rs : List ℕ) → Type 0
Fresh xs [] = Unit
Fresh xs (r ∷ rs) = (has r xs ≡ false) × (r ≢ 0) × Fresh (xs ++ (r ∷ [])) rs

pub same_disk :
    (r : ℕ) (ata : AtaBlockDevice) (reqs : AtaRequests)
    → let ata' = (ata_req_queue r ata reqs).0 in
      (ata'.blk_size ≡ ata.blk_size)
      × (ata'.ata_base ≡ ata.ata_base)
      × (ata'.ata_master ≡ ata.ata_master)
unfolding ata_req_queue
same_disk r ata reqs = elim (Bool-cases (ata.req_tail == 0)) [
  | inl y ↦ rw y (refl, refl, refl)
  | inr n ↦ rw n (refl, refl, refl)
]

-- Requests of other processes queue up behind those that are there, and leave the disk as it is.
queue_all-IsRequests :
    (rs xs : List ℕ) (ata : AtaBlockDevice) (reqs : AtaRequests)
    → IsRequests ata reqs xs
    → Fresh xs rs
    → let (ata', reqs') = queue_all rs ata reqs in
      IsRequests ata' reqs' (xs ++ rs)
      × (ata'.blk_size ≡ ata.blk_size)
      × (ata'.ata_base ≡ ata.ata_base)
      × (ata'.ata_master ≡ ata.ata_master)
unfolding queue_all ata_req_queue
queue_all-IsRequests [] xs ata reqs ok f = (rw (append-nil) ok, refl, refl, refl)
queue_all-IsRequests (r ∷ rs) xs ata reqs ok (new, nz, f) =
    let (ata1, reqs1) = ata_req_queue r ata reqs in
    let (ok', b, c, d) =
      queue_all-IsRequests rs (xs ++ (r ∷ [])) ata1 reqs1
        (ata_req_queue-IsRequests ata reqs xs r ok new nz) f in
    let (b', c', d') = same_disk r ata reqs in (rw append_assoc at ok', b ∙ b', c ∙ c', d ∙ d')

-- The requests that come in up to each wake-up are fresh.
abbrev pub FreshWakes : {S : Type 0} → (xs : List ℕ) → List (Wake S) → Type 0
FreshWakes xs [] = Unit
FreshWakes xs (w ∷ ws) = Fresh xs (w.queued) × FreshWakes (xs ++ w.queued) ws

abbrev pub queued_by : {S : Type 0} → List (Wake S) → List ℕ
queued_by [] = []
queued_by (w ∷ ws) = w.queued ++ queued_by ws

module _ {S : Type 0} (io : Ports S) where
  -- The status that is read after the wake-ups, and the state of the drive.
  abbrev pub after_wakes : (port : ℕ) → List (Wake S) → ℕ × S → ℕ × S
  after_wakes port [] p = p
  after_wakes port (w ∷ ws) (status, s) = after_wakes port ws (inb io port (w.runs s))

  -- The drive is ready after at most `k` of the wake-ups.
  abbrev pub ReadyWithin : (port k : ℕ) → List (Wake S) → ℕ × S → Type 0
  ReadyWithin port zero ws (status, s) = not_ready status ≡ false
  ReadyWithin port (suc k) [] (status, s) = not_ready status ≡ false
  ReadyWithin port (suc k) (w ∷ ws) (status, s) =
      (not_ready status ≡ false) ⊎ ReadyWithin port k ws (inb io port (w.runs s))

  -- The loop has ended after `used`, the first of the wake-ups, of which there are `k` at most: the
  -- drive is ready then, and the requests that came in meanwhile are behind those in the queue.
  pub record Awaited (k : ℕ) (wakes : List (Wake S)) (status : ℕ) (ata : AtaBlockDevice)
      (reqs : AtaRequests) (s : S) (xs : List ℕ) : Type 0 where
    pub used : List (Wake S)
    pub rest : List (Wake S)
    pub parts : used ++ rest ≡ wakes
    pub few : length used ≤ k
    pub is_ready : not_ready ((after_wakes (ata.ata_master) used (status, s)).0) ≡ false
    pub disk : AtaBlockDevice
    pub queue : AtaRequests
    pub ended :
        await io wakes status ata reqs s
        ≡ some (disk, queue, (after_wakes (ata.ata_master) used (status, s)).1)
    pub kept : IsRequests disk queue (xs ++ queued_by used)
    pub same_size : disk.blk_size ≡ ata.blk_size
    pub same_base : disk.ata_base ≡ ata.ata_base

  at_once :
      (k : ℕ) (wakes : List (Wake S)) (status : ℕ) (ata : AtaBlockDevice) (reqs : AtaRequests)
      (s : S) (xs : List ℕ)
      → IsRequests ata reqs xs
      → not_ready status ≡ false
      → Awaited k wakes status ata reqs s xs
  unfolding await
  at_once k wakes status ata reqs s xs ok e = record {
    used = [];
    rest = wakes;
    parts = refl;
    few = omega arith;
    is_ready = e;
    disk = ata;
    queue = reqs;
    ended = go wakes;
    kept = rw append-nil ok;
    same_size = refl;
    same_base = refl;
  }
    where
      go : (ws : List (Wake S)) → await io ws status ata reqs s ≡ some (ata, reqs, s)
      go [] = rw e refl
      go (w ∷ ws) = rw (await, e) refl

  pub await-Awaited :
      (k : ℕ) (wakes : List (Wake S)) (status : ℕ) (ata : AtaBlockDevice) (reqs : AtaRequests)
      (s : S) (xs : List ℕ)
      → IsRequests ata reqs xs
      → FreshWakes xs wakes
      → ReadyWithin (ata.ata_master) k wakes (status, s)
      → Awaited k wakes status ata reqs s xs
  unfolding await
  await-Awaited zero wakes status ata reqs s xs ok f h =
      at_once zero wakes status ata reqs s xs ok h
  await-Awaited (suc k) [] status ata reqs s xs ok f h =
      at_once (suc k) [] status ata reqs s xs ok h
  await-Awaited (suc k) (w ∷ ws) status ata reqs s xs ok (f, fs) h =
      elim (Bool-cases (not_ready status)) [
        | inr e ↦ at_once (suc k) (w ∷ ws) status ata reqs s xs ok e
        | inl busy_yet ↦
            let (ata1, reqs1) = queue_all (w.queued) ata reqs in
            let (ok1, b, c, d) = queue_all-IsRequests (w.queued) xs ata reqs ok f in
            let p = inb io (ata.ata_master) (w.runs s) in
            let later : ReadyWithin (ata.ata_master) k ws p = elim h [
              | inl e ↦ absurd (ground (arith, busy_yet, e))
              | inr r ↦ r
            ] in
            let r =
              await-Awaited k ws (p.0) ata1 reqs1 (p.1) (xs ++ w.queued) ok1 fs
                (subst (λ m. ReadyWithin m k ws p) (sym d) later) in
            record {
              used = w ∷ r.used;
              rest = r.rest;
              parts = ap (λ l. w ∷ l) (r.parts);
              few = let l = r.few in omega (arith, l);
              is_ready =
                  subst (λ m. not_ready ((after_wakes m (r.used) p).0) ≡ false) d (r.is_ready);
              disk = r.disk;
              queue = r.queue;
              ended =
                  rw (await, busy_yet)
                    (subst
                      (λ m.
                        await io ws (p.0) ata1 reqs1 (p.1)
                        ≡ some (r.disk, r.queue, (after_wakes m (r.used) p).1))
                      d (r.ended));
              kept = let q = r.kept in rw append_assoc at q;
              same_size = r.same_size ∙ b;
              same_base = r.same_base ∙ c;
            }
      ]
