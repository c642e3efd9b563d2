-- ===== src/Value.antt =====
-- Values of Python's dynamic types, as claim attributes, adjudication facts and rule constants
-- (domain/models.py, adjudication.py) hold them, with `==`, truth and the comparisons of floats.
-- A finite double is an integer multiple of 2 ^ -1074: `finite k` holds that multiple.
pub mod Conversion
use insurance_claim_ai.Prelude.{
  ℕ, zero, suc, ◌+◌, ◌*◌, ◌^◌, String, Bool, true, false, not, ◌&&◌, ◌||◌, Option, none, some, List,
  [], ◌∷◌, ◌==◌, if◌then◌else◌, Dict, ◌≡◌, refl, arith, nat_eq,
}
use insurance_claim_ai.Prelude.Int.{ℤ, pos, negsuc, ltbℤ, lebℤ, eqbℤ, scale}

pub data Float : Type 0 where
  nan : Float
  finite : ℤ → Float
  inf neg_inf : Float

-- 1.0 in units of 2 ^ -1074; shut, so that no tactic multiplies it out.
unfoldable pub unit : ℕ
unit = 2 ^ 1074

-- A double with an integral value.
abbrev pub whole : ℤ → Float
whole n = finite (scale unit n)

-- `a < b` and `a <= b` on floats: every comparison with a NaN is false.
abbrev pub ltf : Float → Float → Bool
ltf (finite a) (finite b) = ltbℤ a b
ltf (finite a) inf = true
ltf neg_inf (finite b) = true
ltf neg_inf inf = true
ltf _ _ = false

abbrev pub lef : Float → Float → Bool
lef (finite a) (finite b) = lebℤ a b
lef (finite a) inf = true
lef inf inf = true
lef neg_inf (finite b) = true
lef neg_inf inf = true
lef neg_inf neg_inf = true
lef _ _ = false

abbrev pub eqf : Float → Float → Bool
eqf (finite a) (finite b) = eqbℤ a b
eqf inf inf = true
eqf neg_inf neg_inf = true
eqf _ _ = false

mutual
  pub data Value : Type 0 where
    null : Value
    bool : Bool → Value
    int : ℤ → Value
    float : Float → Value
    str : String → Value
    list : Values → Value
    dict : Fields → Value

  pub data Values : Type 0 where
    nil : Values
    cons : Value → Values → Values

  pub data Fields : Type 0 where
    end : Fields
    field : String → Value → Fields → Fields

-- `bool` is a subclass of `int`: `True == 1`.
abbrev pub int_of_bool : Bool → ℤ
int_of_bool true = pos 1
int_of_bool false = pos 0

-- A number compares by its exact value, whatever its type.
abbrev pub exact : Value → Option Float
exact (bool b) = some (whole (int_of_bool b))
exact (int n) = some (whole n)
exact (float x) = some x
exact _ = none

abbrev pub eq_exact : Option Float → Option Float → Bool
eq_exact (some a) (some b) = eqf a b
eq_exact _ _ = false

abbrev pub lookup_field : Fields → String → Option Value
lookup_field end k = none
lookup_field (field j v d) k = if j == k then some v else lookup_field d k

abbrev pub count_fields : Fields → ℕ
count_fields end = 0
count_fields (field k v d) = suc (count_fields d)

-- `a == b`. Lists are equal item by item; dicts if they have equal values at equal keys.
unfoldable mutual
  pub eq : Value → Value → Bool
  eq null null = true
  eq (str s) (str t) = s == t
  eq (list xs) (list ys) = eq_items xs ys
  eq (dict d) (dict e) = eq_fields d e && nat_eq (count_fields d) (count_fields e)
  eq (bool b) w = eq_exact (exact (bool b)) (exact w)
  eq (int n) w = eq_exact (exact (int n)) (exact w)
  eq (float x) w = eq_exact (exact (float x)) (exact w)
  eq _ _ = false

  pub eq_items : Values → Values → Bool
  eq_items nil nil = true
  eq_items (cons v xs) (cons w ys) = eq v w && eq_items xs ys
  eq_items _ _ = false

  pub eq_fields : Fields → Fields → Bool
  eq_fields end e = true
  eq_fields (field k v d) e =
      elim (lookup_field e k) [ none ↦ false | some w ↦ eq v w ] && eq_fields d e
