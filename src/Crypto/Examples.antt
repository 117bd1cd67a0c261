-- ===== src/Crypto/Examples.antt =====
-- A column of encrypted texts at concrete inputs.
use claw_mux.Base.{
  ◌≡◌, refl, Option, none, some, [], ◌∷◌, ◌++◌, ◌==◌, text_key, list_eq, if◌then◌else◌, Text, codes,
  strip, lstrip, is_space, starts_with, ok,
}
use claw_mux.Crypto.{
  Fernet, starting, encrypt_secret, get_fernet, process_bind_param, process_result_value,
  is_encrypted,
}
use claw_mux.Crypto.Laws.{IsSound, column_round_trip}

-- A cipher that puts the number and its key before the text.
abbrev take_text : Text → Text → Option Text
take_text c [] = none
take_text c (n ∷ t) = some t

abbrev toy : Fernet Text
toy = record {
  make = λ key. if key == codes "bad" then none else some key;
  encrypt = λ c n t. n ∷ t;
  decrypt = take_text;
  decrypt-encrypt = λ c n t. refl;
}

abbrev secret : Text
secret = codes " k "

starting-IsSound : IsSound toy starting
starting-IsSound s c h = cc

bind_secret :
    (process_bind_param toy secret (some (codes "token")) starting).0
    ≡ ok (some (codes "fernet:v1:" ++ 0 ∷ codes "token"))
unfolding process_bind_param encrypt_secret get_fernet is_encrypted starts_with strip lstrip
    is_space list_eq
bind_secret = refl

column_round_trip_example :
    ((process_result_value toy secret (some (codes "fernet:v1:" ++ 0 ∷ codes "token")) starting).0
      ≡ ok (some (codes "token")))
    × ((process_bind_param toy secret (some (codes "fernet:v1:" ++ 0 ∷ codes "token")) starting).0
        ≡ ok (some (codes "fernet:v1:" ++ 0 ∷ codes "token")))
unfolding is_encrypted starts_with
column_round_trip_example =
    column_round_trip toy secret (codes "token") (codes "fernet:v1:" ++ 0 ∷ codes "token") starting
      starting-IsSound refl bind_secret starting starting-IsSound
