-- ===== src/Fs.antt =====
-- src/fs.c: the registered file systems. The list of implementations is a value, and a probe is a
-- function that finds a superblock or returns NULL.
mod Tests
use banj_os.Base.{Option, none, some, List, [], ◌∷◌, ◌++◌, ◌≡◌, ◌∙◌, refl, All}

module _ {ℓ κ} {D : Type ℓ} {S : Type κ} where
  pub fs_register : (D → Option S) → List (D → Option S) → List (D → Option S)
  fs_register probe impls = probe ∷ impls

  pub fs_probe : List (D → Option S) → D → Option S
  fs_probe [] dev = none
  fs_probe (impl ∷ impls) dev = elim (impl dev) [ none ↦ fs_probe impls dev | some sb ↦ some sb ]

  -- Registered one after the other.
  pub register_all : List (D → Option S) → List (D → Option S) → List (D → Option S)
  register_all [] impls = impls
  register_all (p ∷ ps) impls = register_all ps (fs_register p impls)

  register_all-append :
      (ps qs impls : List (D → Option S))
      → register_all (ps ++ qs) impls ≡ register_all qs (register_all ps impls)
  unfolding register_all
  register_all-append [] qs impls = refl
  register_all-append (p ∷ ps) qs impls = register_all-append ps qs (fs_register p impls)

  skip :
      (dev : D) (ps impls : List (D → Option S))
      → All (λ p. p dev ≡ none) ps
      → fs_probe (register_all ps impls) dev ≡ fs_probe impls dev
  unfolding register_all fs_register fs_probe
  skip dev [] impls h = refl
  skip dev (p ∷ ps) impls (h, hs) = skip dev ps (fs_register p impls) hs ∙ rw h refl

  -- When the file systems that were registered after `p` do not know a device and `p` does, then
  -- `FS_probe` gives the superblock of `p`, whatever was registered before.
  pub fs_probe-register_all :
      (dev : D) (sb : S) (ps qs impls : List (D → Option S)) (p : D → Option S)
      → p dev ≡ some sb
      → All (λ q. q dev ≡ none) qs
      → fs_probe (register_all (ps ++ (p ∷ qs)) impls) dev ≡ some sb
  unfolding register_all fs_register fs_probe
  fs_probe-register_all dev sb ps qs impls p h hs =
      rw (register_all-append ps (p ∷ qs) impls)
        (skip dev qs (fs_register p (register_all ps impls)) hs ∙ rw h refl)
