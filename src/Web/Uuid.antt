-- ===== src/Web/Uuid.antt =====
-- `uuid.UUID(text)` of Python, as a test: it raises ValueError where this is false.
use claw_mux.Base.{
  ℕ, ◌+◌, Bool, true, false, ◌&&◌, ◌||◌, List, [], ◌∷◌, nat_eq, leb, any, if◌then◌else◌, Text,
  codes, strip, starts_with, length, drop,
}
use claw_mux.Web.Text.{replace, strip_chars}

-- The zeros of the decimal digits beyond ASCII: nine more digits follow each.
abbrev pub digit_zeros : List ℕ
digit_zeros =
    0x660 ∷ 0x6f0 ∷ 0x7c0 ∷ 0x966 ∷ 0x9e6 ∷ 0xa66 ∷ 0xae6 ∷ 0xb66 ∷ 0xbe6 ∷ 0xc66 ∷ 0xce6 ∷ 0xd66
    ∷ 0xde6 ∷ 0xe50 ∷ 0xed0 ∷ 0xf20 ∷ 0x1040 ∷ 0x1090 ∷ 0x17e0 ∷ 0x1810 ∷ 0x1946 ∷ 0x19d0 ∷ 0x1a80
    ∷ 0x1a90 ∷ 0x1b50 ∷ 0x1bb0 ∷ 0x1c40 ∷ 0x1c50 ∷ 0xa620 ∷ 0xa8d0 ∷ 0xa900 ∷ 0xa9d0 ∷ 0xa9f0
    ∷ 0xaa50 ∷ 0xabf0 ∷ 0xff10 ∷ 0x104a0 ∷ 0x10d30 ∷ 0x11066 ∷ 0x110f0 ∷ 0x11136 ∷ 0x111d0 ∷ 0x112f0
    ∷ 0x11450 ∷ 0x114d0 ∷ 0x11650 ∷ 0x116c0 ∷ 0x11730 ∷ 0x118e0 ∷ 0x11950 ∷ 0x11c50 ∷ 0x11d50
    ∷ 0x11da0 ∷ 0x16a60 ∷ 0x16ac0 ∷ 0x16b50 ∷ 0x1d7ce ∷ 0x1d7d8 ∷ 0x1d7e2 ∷ 0x1d7ec ∷ 0x1d7f6
    ∷ 0x1e140 ∷ 0x1e2f0 ∷ 0x1e950 ∷ 0x1fbf0 ∷ []

-- A digit that `int(text, 16)` takes.
unfoldable pub is_hex_digit : ℕ → Bool
is_hex_digit c =
    (leb b'0' c && leb c b'9')
    || (leb b'a' c && leb c b'f')
    || (leb b'A' c && leb c b'F')
    || any (λ z. leb z c && leb c (z + 9)) digit_zeros

-- Digits, with single underscores between them.
unfoldable pub is_digits : Bool → Text → Bool
is_digits behind [] = behind
is_digits behind (c ∷ s) =
    if nat_eq c b'_' then behind && is_digits false s else is_hex_digit c && is_digits true s

abbrev pub drop_sign : Text → Text
drop_sign [] = []
drop_sign (c ∷ s) = if nat_eq c b'+' || nat_eq c b'-' then s else c ∷ s

-- int(text, 16) does not raise.
unfoldable pub is_int16 : Text → Bool
unfolding is_digits is_hex_digit
is_int16 text =
    let body = drop_sign (strip text) in
    let bare = drop 2 body in
    if starts_with body (codes "0x") || starts_with body (codes "0X")
    then is_digits false (if starts_with bare (codes "_") then drop 1 bare else bare)
    else is_digits false body

unfoldable pub is_uuid : Text → Bool
unfolding is_int16 replace strip_chars
is_uuid text =
    let bare = replace (replace text (codes "urn:") []) (codes "uuid:") [] in
    let hex = replace (strip_chars (λ c. nat_eq c b'{' || nat_eq c b'}') bare) (codes "-") [] in
    nat_eq (length hex) 32 && is_int16 hex
