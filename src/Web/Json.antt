-- ===== src/Web/Json.antt =====
-- Decoded JSON, and what Python does with it. None is an exception (AttributeError, KeyError).
use claw_mux.Base.{
  ℕ, Bool, true, false, not, Option, none, some, List, [], ◌∷◌, nat_eq, if◌then◌else◌, ◌==◌,
  text_key, Text, is_empty,
}

mutual
  pub data Json : Type 0 where
    null : Json
    bool : Bool → Json
    num : ℕ → Json
    number : Text → Json  -- any other number, none of which is zero, by its text
    str : Text → Json
    arr : Items → Json
    obj : Fields → Json

  pub data Items : Type 0 where
    nil : Items
    cons : Json → Items → Items

  pub data Fields : Type 0 where
    end : Fields
    field : Text → Json → Fields → Fields

infixl 5 ◌>>=◌ ◌>>◌
abbrev pub ◌>>=◌ {ℓ κ} : {A : Type ℓ} {B : Type κ} → Option A → (A → Option B) → Option B
none >>= f = none
some a >>= f = f a

abbrev pub ◌>>◌ {ℓ κ} : {A : Type ℓ} {B : Type κ} → Option A → Option B → Option B
m >> n = m >>= λ _. n

-- bool(j)
unfoldable pub truthy : Json → Bool
truthy null = false
truthy (bool b) = b
truthy (num n) = not (nat_eq n 0)
truthy (number t) = true
truthy (str t) = not (is_empty t)
truthy (arr nil) = false
truthy (arr (cons j js)) = true
truthy (obj end) = false
truthy (obj (field k j fs)) = true

unfoldable pub find_field : Text → Fields → Option Json
find_field k end = none
find_field k (field j v fs) = if j == k then some v else find_field k fs

abbrev pub default_to : Option Json → Json → Json
default_to none d = d
default_to (some j) d = j

-- j.get(k, d)
unfoldable pub get_or : Json → Text → Json → Option Json
unfolding find_field
get_or (obj fs) k d = some (default_to (find_field k fs) d)
get_or _ k d = none

-- j.get(k)
abbrev pub get : Json → Text → Option Json
get j k = get_or j k null

-- j[k]
unfoldable pub index : Json → Text → Option Json
unfolding find_field
index (obj fs) k = find_field k fs
index _ k = none

-- a or b
abbrev pub or_else : Json → Json → Json
or_else a b = if truthy a then a else b

-- The text of a value that is used as one.
unfoldable pub text_of : Json → Option Text
text_of (str t) = some t
text_of _ = none

-- The elements that a loop runs over, each of which it calls `.get` on.
abbrev pub to_list : Items → List Json
to_list nil = []
to_list (cons j js) = j ∷ to_list js

-- Of a dictionary and a text there are keys and characters, on which `.get` raises.
unfoldable pub elements : Json → Option (List Json)
elements (arr js) = some (to_list js)
elements (obj end) = some []
elements (str []) = some []
elements _ = none

-- js[-1]
unfoldable pub last : Json → Option Json
last (arr (cons j nil)) = some j
last (arr (cons j (cons k js))) = last (arr (cons k js))
last _ = none

-- str(j), where `render` is Python's text of a value that is no text.
unfoldable pub str_of : (Json → Text) → Json → Text
str_of render (str t) = t
str_of render j = render j
