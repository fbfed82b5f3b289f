-- ===== src/Ata/Reads.antt =====
-- Reading a block: the request is served and leaves the queue.
use banj_os.Base.{
  ℕ, ◌/◌, ◌≡◌, ◌≢◌, refl, true, false, some, List, [], ◌∷◌, ◌++◌, arith, ◌==◌, if◌then◌else◌,
  update, has, inl, inr, Bool-cases, ◌∙◌, sym, ◌≤◌, length,
}
use mathlib.Core.Path.{subst}
use banj_os.Ports.{Ports, inb, read_words}
use banj_os.Ata.{
  AtaBlockDevice, AtaRequests, ata_req_queue, ata_req_unqueue, ata_req_execute,
  ata_req_queue_execute,
}
use banj_os.Ata.Driver.{Wake, not_ready, ata_48_read_block}
use banj_os.Ata.Requests.{IsRequests, ata_req_queue-IsRequests, ata_req_unqueue-IsRequests}
use banj_os.Ata.Waiting.{same_disk, FreshWakes, queued_by, after_wakes, ReadyWithin, await-Awaited}

-- A request of a free disk is sent at once; one of a disk with requests only waits.
pub ata_req_queue_execute-IsRequests :
    {S : Type 0} (io : Ports S) (fuel req : ℕ) (ata : AtaBlockDevice) (reqs : AtaRequests)
    (xs : List ℕ) (s s' : S)
    → IsRequests ata reqs xs
    → has req xs ≡ false
    → req ≢ 0
    → let (ata1, reqs1) = ata_req_queue req ata reqs in
      ata_req_execute io fuel ata1 (reqs1.blk_num req) s ≡ some s'
      → (ata' : AtaBlockDevice) × (reqs' : AtaRequests) × (ata_req_queue_execute io fuel req ata
            reqs s
          ≡ some (ata', reqs', if ata.req_head == 0 then s' else s))
        × IsRequests ata' reqs' (xs ++ (req ∷ []))
unfolding ata_req_queue_execute
ata_req_queue_execute-IsRequests io fuel req ata reqs xs s s' ok f z e =
    let (ata1, reqs1) = ata_req_queue req ata reqs in
    let kept = ata_req_queue-IsRequests ata reqs xs req ok f z in
    elim (Bool-cases (ata.req_head == 0)) [
      | inl y ↦ (ata1, reqs1, rw (ata_req_queue_execute, y, e) refl, kept)
      | inr n ↦ (ata1, reqs1, rw (ata_req_queue_execute, n) refl, kept)
    ]

module _ {S : Type 0} (io : Ports S) where
  -- What the read of a block leaves, after `used`, the first of the wake-ups, of which there are `k` at
  -- most: the drive was ready then, the words are those of the data port behind that status, and the
  -- requests that came in meanwhile are in the queue, without the one that was served.
  pub record Serves (k fuel req blk_num : ℕ) (wakes : List (Wake S)) (ata : AtaBlockDevice)
      (reqs : AtaRequests) (s s1 : S) : Type 0 where
    pub used : List (Wake S)
    pub rest : List (Wake S)
    pub parts : used ++ rest ≡ wakes
    pub few : length used ≤ k
    pub is_ready :
        not_ready ((after_wakes io (ata.ata_master) used (inb io (ata.ata_master) s1)).0) ≡ false
    pub disk : AtaBlockDevice
    pub queue : AtaRequests
    pub ended :
        let (words, s') =
          read_words io
            (ata.blk_size / 2)
            (ata.ata_base)
            ((after_wakes io (ata.ata_master) used (inb io (ata.ata_master) s1)).1) in
        ata_48_read_block io fuel req blk_num wakes ata reqs s ≡ some (words, disk, queue, s')
    pub kept : IsRequests disk queue (queued_by used)

  -- With no request in the queue, when the request can be sent, the requests that come in up to each
  -- wake-up are new ones, and the drive is ready after at most `k` wake-ups: `ata_48_read_block` ends
  -- as soon as it finds the drive ready, gives the words that the data port then delivers, and leaves
  -- in the queue the requests that came in meanwhile, the first one first, and not its own.
  pub ata_48_read_block-Serves :
      (k fuel req blk_num : ℕ) (wakes : List (Wake S)) (ata : AtaBlockDevice) (reqs : AtaRequests)
      (s s1 : S)
      → IsRequests ata reqs []
      → req ≢ 0
      → let (ata1, reqs1) =
          ata_req_queue req ata (record reqs { blk_num = update (reqs.blk_num) req blk_num }) in
        ata_req_execute io fuel ata1 (reqs1.blk_num req) s ≡ some s1
        → FreshWakes (req ∷ []) wakes
        → ReadyWithin io (ata.ata_master) k wakes (inb io (ata.ata_master) s1)
        → Serves k fuel req blk_num wakes ata reqs s s1
  unfolding ata_48_read_block ata_req_queue_execute
  ata_48_read_block-Serves k fuel req blk_num wakes ata reqs s s1 ok z e fresh h =
      let free = ok.chain in
      let reqs0 = record reqs { blk_num = update (reqs.blk_num) req blk_num } in
      let ok0 : IsRequests ata reqs0 [] = record {
        chain = ok.chain;
        tail = ok.tail;
        once = ok.once;
      } in
      let (ata1, reqs1) = ata_req_queue req ata reqs0 in
      let (size, base, master) = same_disk req ata reqs0 in
      let ok1 = ata_req_queue-IsRequests ata reqs0 [] req ok0 refl z in
      let sent : ata_req_queue_execute io fuel req ata reqs0 s ≡ some (ata1, reqs1, s1) =
        (let t : (ata.req_head == 0) ≡ true = ground (arith, free) in
          rw (ata_req_queue_execute, t, e) refl) in
      let p = inb io (ata1.ata_master) s1 in
      let w =
        await-Awaited io k wakes (p.0) ata1 reqs1 (p.1) (req ∷ []) ok1 fresh
          (subst (λ m. ReadyWithin io m k wakes (inb io m s1)) (sym master) h) in
      let (_, disk, queue) = ata_req_unqueue (w.disk) (w.queue) in
      let ended = w.ended in
      let Ends : (size base master : ℕ) → List (Wake S) → AtaBlockDevice → AtaRequests → Type 0 =
        (λ size base master used disk queue.
          let (words, s') =
            read_words io (size / 2) base ((after_wakes io master used (inb io master s1)).1) in
          ata_48_read_block io fuel req blk_num wakes ata reqs s ≡ some (words, disk, queue, s')) in
      record {
        used = w.used;
        rest = w.rest;
        parts = w.parts;
        few = w.few;
        is_ready =
            subst (λ m. not_ready ((after_wakes io m (w.used) (inb io m s1)).0) ≡ false) master
              (w.is_ready);
        disk = disk;
        queue = queue;
        ended =
            subst (λ m. Ends (ata.blk_size) (ata.ata_base) m (w.used) disk queue) master
              (subst (λ b. Ends (ata.blk_size) b (ata1.ata_master) (w.used) disk queue)
                (w.same_base ∙ base)
                (subst (λ n. Ends n ((w.disk).ata_base) (ata1.ata_master) (w.used) disk queue)
                  (w.same_size ∙ size) (rw (ata_48_read_block, sent, ended) refl)));
        kept = (ata_req_unqueue-IsRequests (w.disk) (w.queue) req (queued_by (w.used)) (w.kept)).1;
      }
