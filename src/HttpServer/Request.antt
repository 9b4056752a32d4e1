-- ===== src/HttpServer/Request.antt =====
-- The parsing of a request in backend/src/http_server.cpp, and the conversions of <string> that its handlers
-- call. A request is the bytes of its buffer; the parameters are a list of keys and values, of which
-- only the value of a key is ever asked.

use ai_solo_coder_task_b.Prelude.{
  ℕ, ◌+◌, ◌-◌, ◌*◌, ◌%◌, ◌^◌, Bool, true, false, ◌&&◌, ◌||◌, Option, none, some, List, [], ◌∷◌, ltb,
  leb, ◌==◌, if◌then◌else◌,
}
use ai_solo_coder_task_b.Prelude.Int.{ℤ, pos, sub_ℕ}
use ai_solo_coder_task_b.Prelude.Bytes.{Bytes, ◌=ᵇ◌, split_at}

abbrev pub Params : Type 0
Params = List (Bytes × Bytes)

-- `params.find(key)`.
unfoldable pub param : Bytes → Params → Option Bytes
param key [] = none
param key ((k, v) ∷ params) = if k =ᵇ key then some v else param key params

-- `params[key] = val`.
unfoldable pub put : Bytes → Bytes → Params → Params
put key val [] = (key, val) ∷ []
put key val ((k, v) ∷ params) =
    if k =ᵇ key then (key, val) ∷ params else (k, v) ∷ put key val params

abbrev pub onto_first : ℕ → List Bytes → List Bytes
onto_first b [] = (b ∷ []) ∷ []
onto_first b (pair ∷ pairs) = (b ∷ pair) ∷ pairs

-- The parts that `find('&', pos)` cuts off one by one; there is none behind a last '&'.
unfoldable pub pairs_of : Bytes → List Bytes
pairs_of [] = []
pairs_of (b ∷ s) = let rest = pairs_of s in if b == b'&' then [] ∷ rest else onto_first b rest

-- A part with no '=' is passed over.
unfoldable pub put_pair : Bytes → Params → Params
unfolding split_at put
put_pair pair params = elim (split_at b'=' pair) [
  | none ↦ params
  | some (key, val) ↦ put key val params
]

unfoldable pub put_pairs : List Bytes → Params → Params
unfolding put_pair
put_pairs [] params = params
put_pairs (pair ∷ pairs) params = put_pairs pairs (put_pair pair params)

-- `parse_url_params`, whose argument is called `path`.
unfoldable pub parse_url_params : Bytes → Params
unfolding split_at pairs_of put_pairs
parse_url_params path = elim (split_at b'?' path) [
  | none ↦ []
  | some (before, query) ↦ put_pairs (pairs_of query) []
]

abbrev slash : Bytes
slash = b'/' ∷ []

unfoldable pub get_path : Bytes → Bytes
unfolding split_at
get_path request = elim (split_at b' ' request) [
  | none ↦ slash
  | some (verb, rest) ↦ elim (split_at b' ' rest) [
    | none ↦ slash
    | some (path, version) ↦ elim (split_at b'?' path) [
      | none ↦ path
      | some (before, query) ↦ before
    ]
  ]
]

abbrev pub is_digit : ℕ → Bool
is_digit b = leb b'0' b && leb b b'9'

-- `isspace`: the blank and the five control characters from tab to carriage return.
abbrev is_space : ℕ → Bool
is_space b = b == 32 || (leb 9 b && leb b 13)

-- The digits at the front, behind the value so far; `none` where there was no digit at all.
unfoldable pub read_digits : Bool → ℕ → Bytes → Option ℕ
read_digits seen value [] = if seen then some value else none
read_digits seen value (b ∷ s) =
    if is_digit b
    then read_digits true (value * 10 + (b - b'0')) s
    else if seen
    then some value
    else none

-- The sign and the number; what follows the digits is not looked at.
unfoldable pub read_number : Bytes → Option (Bool × ℕ)
unfolding read_digits
read_number [] = none
read_number (b ∷ s) =
    let blank = read_number s in
    let number = λ (negative : Bool) (digits : Bytes).
      elim (read_digits false 0 digits) as (λ _. Option (Bool × ℕ)) [
        | none ↦ none
        | some n ↦ some (negative, n)
      ] in
    if is_space b
    then blank
    else if b == b'-'
    then number true s
    else if b == b'+'
    then number false s
    else number false (b ∷ s)

-- `std::stoul`, `none` where it throws. A minus sign is applied modulo 2 ^ 64.
unfoldable pub stoul : Bytes → Option ℕ
unfolding read_number
stoul s = elim (read_number s) [
  | none ↦ none
  | some (negative, n) ↦
      if leb (2 ^ 64) n then none else some (if negative then (2 ^ 64 - n) % 2 ^ 64 else n)
]

-- `std::stoi`.
unfoldable pub stoi : Bytes → Option ℤ
unfolding read_number
stoi s = elim (read_number s) [
  | none ↦ none
  | some (true, n) ↦ if ltb (2 ^ 31) n then none else some (sub_ℕ 0 n)
  | some (false, n) ↦ if leb (2 ^ 31) n then none else some (pos n)
]
