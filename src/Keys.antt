-- ===== src/Keys.antt =====
-- src/keycodes.c, include/keycodes.h: the scan codes of a key pressed or released, and the
-- character a scan code stands for.
pub mod Codes
pub mod Chars
pub mod Typed
mod Tests

pub data KeyCode : Type 0 where
  escape_pressed one_pressed two_pressed three_pressed : KeyCode
  four_pressed five_pressed six_pressed seven_pressed : KeyCode
  eight_pressed nine_pressed zero_zero_pressed minus_pressed : KeyCode
  equals_pressed backspace_pressed tab_pressed q_pressed : KeyCode
  w_pressed e_pressed r_pressed t_pressed : KeyCode
  y_pressed u_pressed i_pressed o_pressed : KeyCode
  p_pressed left_bracket_pressed right_bracket_pressed enter_pressed : KeyCode
  left_control_pressed a_pressed s_pressed d_pressed : KeyCode
  f_pressed g_pressed h_pressed j_pressed : KeyCode
  k_pressed l_pressed semicolon_pressed single_quote_pressed : KeyCode
  grave_accent_pressed left_shift_pressed backslash_pressed z_pressed : KeyCode
  x_pressed c_pressed v_pressed b_pressed : KeyCode
  n_pressed m_pressed comma_pressed period_pressed : KeyCode
  slash_pressed right_shift_pressed keypad_star_pressed left_alt_pressed : KeyCode
  space_pressed capslock_pressed f_one_pressed f_two_pressed : KeyCode
  f_three_pressed f_four_pressed f_five_pressed f_six_pressed : KeyCode
  f_seven_pressed f_eight_pressed f_nine_pressed f_ten_pressed : KeyCode
  numberlock_pressed scrolllock_pressed keypad_seven_pressed keypad_eight_pressed : KeyCode
  keypad_nine_pressed keypad_minus_pressed keypad_four_pressed keypad_five_pressed : KeyCode
  keypad_six_pressed keypad_pressed keypad_one_pressed keypad_two_pressed : KeyCode
  keypad_three_pressed keypad_zero_pressed keypad_period_pressed f_eleven_pressed : KeyCode
  f_twelve_pressed escape_released one_released two_released : KeyCode
  three_released four_released five_released six_released : KeyCode
  seven_released eight_released nine_released zero_zero_released : KeyCode
  minus_released pound_signnamequestion_mark backspace_released tab_released : KeyCode
  q_released w_released e_released r_released : KeyCode
  t_released y_released u_released i_released : KeyCode
  o_released p_released left_bracket_released right_bracket_released : KeyCode
  enter_released left_control_released a_released s_released : KeyCode
  d_released f_released g_released h_released : KeyCode
  j_released k_released l_released semicolon_released : KeyCode
  single_quote_released grave_accent_back_tick_released left_shift_released backslash_released :
      KeyCode
  z_released x_released c_released v_released : KeyCode
  b_released n_released m_released comma_released : KeyCode
  period_released slash_released right_shift_released keypad_star_released : KeyCode
  left_alt_released space_released capslock_released f_one_released : KeyCode
  f_two_released f_three_released f_four_released f_five_released : KeyCode
  f_six_released f_seven_released f_eight_released f_nine_released : KeyCode
  f_ten_released numberlock_released scrolllock_released keypad_seven_released : KeyCode
  keypad_eight_released keypad_nine_released keypad_minus_released keypad_four_released : KeyCode
  keypad_five_released keypad_six_released keypad_released keypad_one_released : KeyCode
  keypad_two_released keypad_three_released keypad_zero_released keypad_period_released : KeyCode
  f_eleven_released f_twelve_released : KeyCode
