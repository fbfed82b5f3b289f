-- ===== src/Frames/Memtest/Words.antt =====
-- What the loops over a page's words leave and find.
use banj_os.Base.{
  ℕ, zero, suc, ◌+◌, ◌<◌, ◌≤◌, ◌≡◌, ◌≢◌, ◌⊎◌, refl, sym, ◌∙◌, true, false, List, arith, ◌==◌, inl,
  inr, Bool-cases, ltb, ltb→lt, ltb→le, has, eq→==, ==→eq,
}
use banj_os.Frames.{write}
use banj_os.Frames.Alloc.{IsFrames, write-IsFrames}
use banj_os.Frames.Memtest.{Memory, read_word, write_word, fill_page, check_page}
use banj_os.Frames.Memtest.Capacity.{capacity}

write_self : (p j v : ℕ) (m : Memory) → read_word (write_word p j v m) p j ≡ v
write_self p j v m = elim (Bool-cases (j == 0)) [
  | inl y ↦ rw y (ground arith)
  | inr n ↦ rw n (ground arith)
]

write_other :
    (p j v q i : ℕ) (m : Memory)
    → (q ≢ p) ⊎ (i ≢ j)
    → read_word (write_word p j v m) q i ≡ read_word m q i
write_other p j v q i m h = elim (Bool-cases (j == 0)) [
  | inl y ↦ rw y (elim h [ inl a ↦ ground (arith, a, y) | inr a ↦ ground (arith, a, y) ])
  | inr n ↦ rw n (elim h [ inl a ↦ ground (arith, a, n) | inr a ↦ ground (arith, a, n) ])
]

pub fill_page-other :
    (n j p q i : ℕ) (m : Memory) → q ≢ p → read_word (fill_page n j p m) q i ≡ read_word m q i
unfolding fill_page
fill_page-other zero j p q i m h = refl
fill_page-other (suc n) j p q i m h =
    fill_page-other n (suc j) p q i (write_word p j p m) h ∙ write_other p j p q i m (inl h)

fill_page-before :
    (n j p i : ℕ) (m : Memory) → i < j → read_word (fill_page n j p m) p i ≡ read_word m p i
unfolding fill_page
fill_page-before zero j p i m h = refl
fill_page-before (suc n) j p i m h =
    fill_page-before n (suc j) p i (write_word p j p m) (omega (arith, h))
    ∙ write_other p j p p i m (inr (λ e. omega (arith, e, h)))

pub fill_page-inside :
    (n j p i : ℕ) (m : Memory) → j ≤ i → i < j + n → read_word (fill_page n j p m) p i ≡ p
unfolding fill_page
fill_page-inside zero j p i m h l = absurd (omega (arith, h, l))
fill_page-inside (suc n) j p i m h l = elim (Bool-cases (ltb j i)) [
  | inl later ↦
      fill_page-inside n (suc j) p i (write_word p j p m) (omega (arith, ltb→lt _ _ later))
        (omega (arith, l))
  | inr here ↦
      let e : i ≡ j = omega (arith, h, ltb→le _ _ here) in
      rw e (fill_page-before n (suc j) p j (write_word p j p m) (omega arith) ∙ write_self p j p m)
]

write_word-IsFrames :
    (p j v : ℕ) (m : Memory) (free out : List ℕ)
    → IsFrames (m.frames) free out
    → has p free ≡ false
    → IsFrames ((write_word p j v m).frames) free out
write_word-IsFrames p j v m free out f h = elim (Bool-cases (j == 0)) [
  | inl y ↦ rw y (
      write-IsFrames (m.frames) free out f (write (m.frames.link) p v) (λ a i.
        elim (Bool-cases (p == a)) [
          | inl e ↦
              absurd (let q = ==→eq p a e in let i' = rw (sym q) at i in ground (arith, i', h))
          | inr e ↦ rw e refl
        ]))
  | inr n ↦ rw n f
]

-- Filling a page that is not free leaves the allocator's frames as they are.
pub fill_page-IsFrames :
    (n j p : ℕ) (m : Memory) (free out : List ℕ)
    → IsFrames (m.frames) free out
    → has p free ≡ false
    → IsFrames ((fill_page n j p m).frames) free out
      × (capacity ((fill_page n j p m).frames) free ≡ capacity (m.frames) free)
unfolding fill_page
fill_page-IsFrames zero j p m free out f h = (f, refl)
fill_page-IsFrames (suc n) j p m free out f h =
    let (a, b) =
      fill_page-IsFrames n (suc j) p (write_word p j p m) free out
        (write_word-IsFrames p j p m free out f h) h in
    (a, b ∙ same)
  where
    same : capacity ((write_word p j p m).frames) free ≡ capacity (m.frames) free
    same = elim (Bool-cases (j == 0)) [ inl y ↦ rw y refl | inr n' ↦ rw n' refl ]

pub check_page_lem :
    (n j p : ℕ) (m : Memory)
    → ((i : ℕ) → i < j + n → read_word m p i ≡ p)
    → check_page n j p m ≡ true
unfolding check_page
check_page_lem zero j p m h = refl
check_page_lem (suc n) j p m h =
    rw (eq→== _ p (h j (omega arith)))
      (check_page_lem n (suc j) p m (λ i l. h i (omega (arith, l))))
