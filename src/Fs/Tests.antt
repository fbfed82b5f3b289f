-- ===== src/Fs/Tests.antt =====
-- Three file systems on a device.
use banj_os.Base.{ℕ, Option, none, some, [], ◌∷◌, ◌≡◌, refl}
use banj_os.Fs.{fs_probe, register_all, fs_probe-register_all}

abbrev knows : ℕ → ℕ → Option ℕ
knows sb dev = some sb

abbrev refuses : ℕ → Option ℕ
refuses dev = none

fs_probe-register_all_example :
    fs_probe (register_all (knows 1 ∷ knows 2 ∷ refuses ∷ []) []) 7 ≡ some 2
fs_probe-register_all_example =
    fs_probe-register_all 7 2 (knows 1 ∷ []) (refuses ∷ []) [] (knows 2) refl (refl, tt)
