-- ===== src/Keys/Tests.antt =====
-- Some keys, and the theorems at concrete scan codes.
use banj_os.Base.{◌≡◌, refl}
use banj_os.Keys.{enter_pressed, q_pressed}
use banj_os.Keys.Codes.{code}
use banj_os.Keys.Chars.{cases, switch, scan_code_to_char}

q_key : scan_code_to_char (code q_pressed) ≡ b'q'
unfolding scan_code_to_char switch cases code
q_key = refl

enter_key : scan_code_to_char (code enter_pressed) ≡ 0
unfolding scan_code_to_char switch cases code
enter_key = refl
