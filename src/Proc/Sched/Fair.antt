-- ===== src/Proc/Sched/Fair.antt =====
-- Every ready process gets its turn.
use banj_os.Base.{ℕ, zero, suc, ◌≡◌, ◌≢◌, List, [], ◌∷◌, ◌++◌, arith, length, append_assoc}
use banj_os.Proc.Queue.{IsQueue-ne_zero}
use banj_os.Proc.Sched.{Sched, yield_proc}
use banj_os.Proc.Sched.View.{IsView}
use banj_os.Proc.Sched.Blocking.{rotate, first_or, yield_proc_lem}

-- That many yields, one after the other.
unfoldable pub yields : ℕ → Sched → Sched
yields zero s = s
yields (suc k) s = yields k (yield_proc s)

yields_go :
    (xs ys : List ℕ) (p : ℕ) (s : Sched) (waiting : ℕ → List ℕ)
    → IsView s (xs ++ (p ∷ ys)) waiting
    → s.cur_proc ≢ 0
    → (yields (suc (length xs)) s).cur_proc ≡ p
unfolding yields first_or rotate
yields_go [] ys p s waiting v h = (yield_proc_lem v h).1
yields_go (x ∷ xs) ys p s waiting v h =
    let (w, e) = yield_proc_lem v h in
    let x0 : x ≢ 0 =
      IsQueue-ne_zero s.nodes s.avail x (x ∷ (xs ++ (p ∷ ys))) v.avail (ground arith) in
    yields_go xs (ys ++ (x ∷ [])) p (yield_proc s) waiting (rw append_assoc at w) (rw e x0)

-- A ready process with `length xs` ready ones before it runs after `length xs + 1` yields.
pub yields_fair :
    {s : Sched} {waiting : ℕ → List ℕ} (xs ys : List ℕ) (p : ℕ)
    → IsView s (xs ++ (p ∷ ys)) waiting
    → s.cur_proc ≢ 0
    → (yields (suc (length xs)) s).cur_proc ≡ p
yields_fair {s} {waiting} xs ys p v h = yields_go xs ys p s waiting v h
