-- ===== src/RequestParser/Chars.antt =====
-- The classes of bytes. Their parameter is an `int`, to which a `char` is promoted with its sign.
use cs_3_boost_echo_static_s.Base.{Bool, ◌&&◌, ◌||◌}
use cs_3_boost_echo_static_s.Base.Int.{ℤ, ge_pos, le_pos, eq_pos}

unfoldable pub is_char : ℤ → Bool
is_char c = ge_pos c 0 && le_pos c 127

unfoldable pub is_ctl : ℤ → Bool
is_ctl c = ge_pos c 0 && le_pos c 31 || eq_pos c 127

unfoldable pub is_tspecial : ℤ → Bool
is_tspecial c =
    eq_pos c b'('
    || eq_pos c b')'
    || eq_pos c b'<'
    || eq_pos c b'>'
    || eq_pos c b'@'
    || eq_pos c b','
    || eq_pos c b';'
    || eq_pos c b':'
    || eq_pos c b'\\'
    || eq_pos c b'"'
    || eq_pos c b'/'
    || eq_pos c b'['
    || eq_pos c b']'
    || eq_pos c b'?'
    || eq_pos c b'='
    || eq_pos c b'{'
    || eq_pos c b'}'
    || eq_pos c b' '
    || eq_pos c b'\t'

unfoldable pub is_digit : ℤ → Bool
is_digit c = ge_pos c b'0' && le_pos c b'9'
