-- ===== src/Keys/Codes.antt =====
-- include/keycodes.h: the value of each key code.
use banj_os.Base.{ℕ}
use banj_os.Keys.{
  escape_pressed, one_pressed, two_pressed, three_pressed, four_pressed, five_pressed, six_pressed,
  seven_pressed, eight_pressed, nine_pressed, zero_zero_pressed, minus_pressed, equals_pressed,
  backspace_pressed, tab_pressed, q_pressed, w_pressed, e_pressed, r_pressed, t_pressed, y_pressed,
  u_pressed, i_pressed, o_pressed, p_pressed, left_bracket_pressed, right_bracket_pressed,
  enter_pressed, left_control_pressed, a_pressed, s_pressed, d_pressed, f_pressed, g_pressed,
  h_pressed, j_pressed, k_pressed, l_pressed, semicolon_pressed, single_quote_pressed,
  grave_accent_pressed, left_shift_pressed, backslash_pressed, z_pressed, x_pressed, c_pressed,
  v_pressed, b_pressed, n_pressed, m_pressed, comma_pressed, period_pressed, slash_pressed,
  right_shift_pressed, keypad_star_pressed, left_alt_pressed, space_pressed, capslock_pressed,
  f_one_pressed, f_two_pressed, f_three_pressed, f_four_pressed, f_five_pressed, f_six_pressed,
  f_seven_pressed, f_eight_pressed, f_nine_pressed, f_ten_pressed, numberlock_pressed,
  scrolllock_pressed, keypad_seven_pressed, keypad_eight_pressed, keypad_nine_pressed,
  keypad_minus_pressed, keypad_four_pressed, keypad_five_pressed, keypad_six_pressed,
  keypad_pressed, keypad_one_pressed, keypad_two_pressed, keypad_three_pressed, keypad_zero_pressed,
  keypad_period_pressed, f_eleven_pressed, f_twelve_pressed, escape_released, one_released,
  two_released, three_released, four_released, five_released, six_released, seven_released,
  eight_released, nine_released, zero_zero_released, minus_released, pound_signnamequestion_mark,
  backspace_released, tab_released, q_released, w_released, e_released, r_released, t_released,
  y_released, u_released, i_released, o_released, p_released, left_bracket_released,
  right_bracket_released, enter_released, left_control_released, a_released, s_released, d_released,
  f_released, g_released, h_released, j_released, k_released, l_released, semicolon_released,
  single_quote_released, grave_accent_back_tick_released, left_shift_released, backslash_released,
  z_released, x_released, c_released, v_released, b_released, n_released, m_released,
  comma_released, period_released, slash_released, right_shift_released, keypad_star_released,
  left_alt_released, space_released, capslock_released, f_one_released, f_two_released,
  f_three_released, f_four_released, f_five_released, f_six_released, f_seven_released,
  f_eight_released, f_nine_released, f_ten_released, numberlock_released, scrolllock_released,
  keypad_seven_released, keypad_eight_released, keypad_nine_released, keypad_minus_released,
  keypad_four_released, keypad_five_released, keypad_six_released, keypad_released,
  keypad_one_released, keypad_two_released, keypad_three_released, keypad_zero_released,
  keypad_period_released, f_eleven_released, f_twelve_released, KeyCode,
}

unfoldable pub code : KeyCode → ℕ
code escape_pressed = 0x01
code one_pressed = 0x02
code two_pressed = 0x03
code three_pressed = 0x04
code four_pressed = 0x05
code five_pressed = 0x06
code six_pressed = 0x07
code seven_pressed = 0x08
code eight_pressed = 0x09
code nine_pressed = 0x0A
code zero_zero_pressed = 0x0B
code minus_pressed = 0x0C
code equals_pressed = 0x0D
code backspace_pressed = 0x0E
code tab_pressed = 0x0F
code q_pressed = 0x10
code w_pressed = 0x11
code e_pressed = 0x12
code r_pressed = 0x13
code t_pressed = 0x14
code y_pressed = 0x15
code u_pressed = 0x16
code i_pressed = 0x17
code o_pressed = 0x18
code p_pressed = 0x19
code left_bracket_pressed = 0x1A
code right_bracket_pressed = 0x1B
code enter_pressed = 0x1C
code left_control_pressed = 0x1D
code a_pressed = 0x1E
code s_pressed = 0x1F
code d_pressed = 0x20
code f_pressed = 0x21
code g_pressed = 0x22
code h_pressed = 0x23
code j_pressed = 0x24
code k_pressed = 0x25
code l_pressed = 0x26
code semicolon_pressed = 0x27
code single_quote_pressed = 0x28
code grave_accent_pressed = 0x29
code left_shift_pressed = 0x2A
code backslash_pressed = 0x2B
code z_pressed = 0x2C
code x_pressed = 0x2D
code c_pressed = 0x2E
code v_pressed = 0x2F
code b_pressed = 0x30
code n_pressed = 0x31
code m_pressed = 0x32
code comma_pressed = 0x33
code period_pressed = 0x34
code slash_pressed = 0x35
code right_shift_pressed = 0x36
code keypad_star_pressed = 0x37
code left_alt_pressed = 0x38
code space_pressed = 0x39
code capslock_pressed = 0x3A
code f_one_pressed = 0x3B
code f_two_pressed = 0x3C
code f_three_pressed = 0x3D
code f_four_pressed = 0x3E
code f_five_pressed = 0x3F
code f_six_pressed = 0x40
code f_seven_pressed = 0x41
code f_eight_pressed = 0x42
code f_nine_pressed = 0x43
code f_ten_pressed = 0x44
code numberlock_pressed = 0x45
code scrolllock_pressed = 0x46
code keypad_seven_pressed = 0x47
code keypad_eight_pressed = 0x48
code keypad_nine_pressed = 0x49
code keypad_minus_pressed = 0x4A
code keypad_four_pressed = 0x4B
code keypad_five_pressed = 0x4C
code keypad_six_pressed = 0x4D
code keypad_pressed = 0x4E
code keypad_one_pressed = 0x4F
code keypad_two_pressed = 0x50
code keypad_three_pressed = 0x51
code keypad_zero_pressed = 0x52
code keypad_period_pressed = 0x53
code f_eleven_pressed = 0x57
code f_twelve_pressed = 0x58
code escape_released = 0x81
code one_released = 0x82
code two_released = 0x83
code three_released = 0x84
code four_released = 0x85
code five_released = 0x86
code six_released = 0x87
code seven_released = 0x88
code eight_released = 0x89
code nine_released = 0x8A
code zero_zero_released = 0x8B
code minus_released = 0x8C
code pound_signnamequestion_mark = 0x8D
code backspace_released = 0x8E
code tab_released = 0x8F
code q_released = 0x90
code w_released = 0x91
code e_released = 0x92
code r_released = 0x93
code t_released = 0x94
code y_released = 0x95
code u_released = 0x96
code i_released = 0x97
code o_released = 0x98
code p_released = 0x99
code left_bracket_released = 0x9A
code right_bracket_released = 0x9B
code enter_released = 0x9C
code left_control_released = 0x9D
code a_released = 0x9E
code s_released = 0x9F
code d_released = 0xA0
code f_released = 0xA1
code g_released = 0xA2
code h_released = 0xA3
code j_released = 0xA4
code k_released = 0xA5
code l_released = 0xA6
code semicolon_released = 0xA7
code single_quote_released = 0xA8
code grave_accent_back_tick_released = 0xA9
code left_shift_released = 0xAA
code backslash_released = 0xAB
code z_released = 0xAC
code x_released = 0xAD
code c_released = 0xAE
code v_released = 0xAF
code b_released = 0xB0
code n_released = 0xB1
code m_released = 0xB2
code comma_released = 0xB3
code period_released = 0xB4
code slash_released = 0xB5
code right_shift_released = 0xB6
code keypad_star_released = 0xB7
code left_alt_released = 0xB8
code space_released = 0xB9
code capslock_released = 0xBA
code f_one_released = 0xBB
code f_two_released = 0xBC
code f_three_released = 0xBD
code f_four_released = 0xBE
code f_five_released = 0xBF
code f_six_released = 0xC0
code f_seven_released = 0xC1
code f_eight_released = 0xC2
code f_nine_released = 0xC3
code f_ten_released = 0xC4
code numberlock_released = 0xC5
code scrolllock_released = 0xC6
code keypad_seven_released = 0xC7
code keypad_eight_released = 0xC8
code keypad_nine_released = 0xC9
code keypad_minus_released = 0xCA
code keypad_four_released = 0xCB
code keypad_five_released = 0xCC
code keypad_six_released = 0xCD
code keypad_released = 0xCE
code keypad_one_released = 0xCF
code keypad_two_released = 0xD0
code keypad_three_released = 0xD1
code keypad_zero_released = 0xD2
code keypad_period_released = 0xD3
code f_eleven_released = 0xD7
code f_twelve_released = 0xD8
