-- ===== src/Vga/Tests.antt =====
-- A text at the corner of a blank screen, and the theorems on that screen.
use banj_os.Base.{ℕ, ◌≡◌, refl, [], replicate, length-replicate, arith}
use banj_os.Vga.{Vga, size, display_char}
use banj_os.Vga.Cursor.{IsScreen, display_char-IsScreen}

abbrev blank : Vga
blank = record { buf = replicate size 0; cursor = 3 }

blank-IsScreen : IsScreen blank
blank-IsScreen = record { cells = length-replicate {A = ℕ} size 0; on_screen = omega arith }

-- A carriage return in the third row goes to cell 2.
carriage_return : (display_char 0x0d (record { buf = []; cursor = 165 })).cursor ≡ 2
unfolding display_char
carriage_return = refl

display_char-IsScreen_example : IsScreen (display_char b'a' blank)
display_char-IsScreen_example = display_char-IsScreen b'a' blank blank-IsScreen
