-- ===== src/HttpServer/Json.antt =====
-- The values of nlohmann::json that the handlers of backend/src/http_server.cpp build. What `dump` makes of a
-- value is the library's.
use Prim.Native.String.{String}
use ai_solo_coder_task_b.Prelude.{ℕ, Bool, Option, List, [], ◌∷◌}
use ai_solo_coder_task_b.Prelude.Int.{ℤ, pos}
use ai_solo_coder_task_b.Prelude.Bytes.{Bytes}

mutual
  pub data Json (W : Type 0) : Type 0 where
    text : String → Json W
    num : W → Json W
    int : ℤ → Json W
    flag : Bool → Json W
    arr : Items W → Json W
    obj : Fields W → Json W

  pub data Items (W : Type 0) : Type 0 where
    nil : Items W
    cons : Json W → Items W → Items W

  pub data Fields (W : Type 0) : Type 0 where
    end : Fields W
    field : String → Json W → Fields W → Fields W

module _ {W : Type 0} where
  abbrev pub items : List (Json W) → Items W
  items [] = nil
  items (j ∷ js) = cons j (items js)

  abbrev pub fields : List (String × Json W) → Fields W
  fields [] = end
  fields ((k, j) ∷ js) = field k j (fields js)

  abbrev pub array : List (Json W) → Json W
  array js = arr (items js)

  abbrev pub object : List (String × Json W) → Json W
  object js = obj (fields js)

  abbrev pub nat : ℕ → Json W
  nat n = int (pos n)

-- What the handlers call that is not in the repository: `std::stod`, `none` where it throws; `dump`; and
-- the local time in which `format_timestamp` writes a time.
pub record Library (W : Type 0) : Type 0 where
  pub stod : Bytes → Option W
  pub dump : Json W → Bytes
  pub format_timestamp : ℕ → String
