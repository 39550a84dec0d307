-- ===== src/Queue/Json.antt =====
-- The values that `json.dumps` writes into a task, and Python's conversions that read them back. A
-- text that `dumps` wrote stands for the value it encodes, so the two are not told apart; floats
-- and arrays are left out, since no task of the program carries one.
use speaker_attributed_stt.Prelude.{
  ℕ, String, Bool, true, false, ◌&&◌, ◌≡◌, ◌↔◌, refl, str_eq, ◌==◌, arith, eq_iff, ==_iff,
}

-- An object keeps the order of its keys.
mutual
  pub data Json : Type 0 where
    null : Json
    boolean : Bool → Json
    number : ℕ → Json
    text : String → Json
    object : Fields → Json

  pub data Fields : Type 0 where
    end : Fields
    field : String → Json → Fields → Fields

pub bool_eq : Bool → Bool → Bool
bool_eq true b = b
bool_eq false true = false
bool_eq false false = true

bool_eq_iff : (a b : Bool) → (bool_eq a b ≡ true) ↔ (a ≡ b)
unfolding bool_eq
bool_eq_iff true true = ground arith
bool_eq_iff true false = ground arith
bool_eq_iff false true = ground arith
bool_eq_iff false false = ground arith

-- Whether two values have the same text.
unfoldable mutual
  unfolding bool_eq

  pub json_eq : Json → Json → Bool
  json_eq null null = true
  json_eq (boolean a) (boolean b) = bool_eq a b
  json_eq (number a) (number b) = a == b
  json_eq (text a) (text b) = str_eq a b
  json_eq (object a) (object b) = fields_eq a b
  json_eq _ _ = false

  pub fields_eq : Fields → Fields → Bool
  fields_eq end end = true
  fields_eq (field j v a) (field k w b) = str_eq j k && json_eq v w && fields_eq a b
  fields_eq _ _ = false

mutual
  unfolding json_eq fields_eq

  pub json_eq_refl : (v : Json) → json_eq v v ≡ true
  json_eq_refl null = refl
  json_eq_refl (boolean a) = (bool_eq_iff a a).1 refl
  json_eq_refl (number a) = (==_iff a a).1 refl
  json_eq_refl (text a) = (eq_iff a a).1 refl
  json_eq_refl (object a) = fields_eq_refl a

  pub fields_eq_refl : (a : Fields) → fields_eq a a ≡ true
  fields_eq_refl end = refl
  fields_eq_refl (field k v a) = ground (arith, eq_iff k k, json_eq_refl v, fields_eq_refl a)
