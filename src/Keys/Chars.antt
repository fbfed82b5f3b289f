-- ===== src/Keys/Chars.antt =====
-- src/keycodes.c: the character of a scan code.
use banj_os.Base.{ℕ, List, [], ◌∷◌, ◌==◌, if◌then◌else◌}
use banj_os.Keys.{
  a_pressed, backslash_pressed, b_pressed, comma_pressed, c_pressed, d_pressed, eight_pressed,
  equals_pressed, e_pressed, five_pressed, four_pressed, f_pressed, grave_accent_pressed, g_pressed,
  h_pressed, i_pressed, j_pressed, keypad_eight_pressed, keypad_five_pressed, keypad_four_pressed,
  keypad_minus_pressed, keypad_nine_pressed, keypad_one_pressed, keypad_period_pressed,
  keypad_seven_pressed, keypad_six_pressed, keypad_star_pressed, keypad_three_pressed,
  keypad_two_pressed, keypad_zero_pressed, k_pressed, left_bracket_pressed, l_pressed,
  minus_pressed, m_pressed, nine_pressed, n_pressed, one_pressed, o_pressed, period_pressed,
  p_pressed, q_pressed, right_bracket_pressed, r_pressed, semicolon_pressed, seven_pressed,
  single_quote_pressed, six_pressed, slash_pressed, space_pressed, s_pressed, tab_pressed,
  three_pressed, two_pressed, t_pressed, u_pressed, v_pressed, w_pressed, x_pressed, y_pressed,
  zero_zero_pressed, z_pressed, KeyCode,
}
use banj_os.Keys.Codes.{code}

-- The cases of the switch with what each returns.
unfoldable pub cases : List (KeyCode × ℕ)
cases =
    (a_pressed, b'a')
    ∷ (backslash_pressed, 0x5c)
    ∷ (b_pressed, b'b')
    ∷ (comma_pressed, b',')
    ∷ (c_pressed, b'c')
    ∷ (d_pressed, b'd')
    ∷ (eight_pressed, b'8')
    ∷ (equals_pressed, b'=')
    ∷ (e_pressed, b'e')
    ∷ (five_pressed, b'5')
    ∷ (four_pressed, b'4')
    ∷ (f_pressed, b'f')
    ∷ (grave_accent_pressed, b'`')
    ∷ (g_pressed, b'g')
    ∷ (h_pressed, b'h')
    ∷ (i_pressed, b'i')
    ∷ (j_pressed, b'j')
    ∷ (keypad_eight_pressed, b'8')
    ∷ (keypad_five_pressed, b'5')
    ∷ (keypad_four_pressed, b'4')
    ∷ (keypad_minus_pressed, b'-')
    ∷ (keypad_nine_pressed, b'9')
    ∷ (keypad_one_pressed, b'1')
    ∷ (keypad_period_pressed, b'.')
    ∷ (keypad_seven_pressed, b'7')
    ∷ (keypad_six_pressed, b'6')
    ∷ (keypad_star_pressed, b'*')
    ∷ (keypad_three_pressed, b'3')
    ∷ (keypad_two_pressed, b'2')
    ∷ (keypad_zero_pressed, b'0')
    ∷ (k_pressed, b'k')
    ∷ (left_bracket_pressed, b'[')
    ∷ (l_pressed, b'l')
    ∷ (minus_pressed, b'-')
    ∷ (m_pressed, b'm')
    ∷ (nine_pressed, b'9')
    ∷ (n_pressed, b'n')
    ∷ (one_pressed, b'1')
    ∷ (o_pressed, b'o')
    ∷ (period_pressed, b'.')
    ∷ (p_pressed, b'p')
    ∷ (q_pressed, b'q')
    ∷ (right_bracket_pressed, b']')
    ∷ (r_pressed, b'r')
    ∷ (semicolon_pressed, b';')
    ∷ (seven_pressed, b'7')
    ∷ (single_quote_pressed, 0x27)
    ∷ (six_pressed, b'6')
    ∷ (slash_pressed, b'/')
    ∷ (space_pressed, b' ')
    ∷ (s_pressed, b's')
    ∷ (tab_pressed, 0x09)
    ∷ (three_pressed, b'3')
    ∷ (two_pressed, b'2')
    ∷ (t_pressed, b't')
    ∷ (u_pressed, b'u')
    ∷ (v_pressed, b'v')
    ∷ (w_pressed, b'w')
    ∷ (x_pressed, b'x')
    ∷ (y_pressed, b'y')
    ∷ (zero_zero_pressed, b'0')
    ∷ (z_pressed, b'z')
    ∷ []

-- `switch (scan_code)`: the case with this value, and the null character by default.
unfoldable pub switch : List (KeyCode × ℕ) → ℕ → ℕ
switch [] scan_code = 0
switch ((k, c) ∷ rest) scan_code = if scan_code == code k then c else switch rest scan_code

unfoldable pub scan_code_to_char : ℕ → ℕ
scan_code_to_char scan_code = switch cases scan_code
