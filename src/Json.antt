-- ===== src/Json.antt =====
-- JSON values as `json.loads` returns them: the raw registry and plans that callers hand in. A
-- number that is no integer keeps its decimal digits, and the program only ever refuses it.
use orchestrator_engine.Prelude.{
  ℕ, suc, String, ◌≡◌, ap, Bool, true, false, ◌&&◌, Option, none, some, List, [], ◌∷◌, ◌==◌,
  eq_of_test, test_self, eqb, if◌then◌else◌,
}

-- `negsuc n` is -(n + 1).
pub data ℤ : Type 0 where
  pos : ℕ → ℤ
  negsuc : ℕ → ℤ

mutual
  pub data Json : Type 0 where
    null : Json
    bool : Bool → Json
    num : ℤ → Json
    decimal : ℤ → ℤ → Json
    str : String → Json
    arr : Items → Json
    obj : Fields → Json

  pub data Items : Type 0 where
    nil : Items
    cons : Json → Items → Items

  pub data Fields : Type 0 where
    end : Fields
    field : String → Json → Fields → Fields

-- value.get(key)
unfoldable pub get : String → Fields → Option Json
get k end = none
get k (field j v fs) = if j == k then some v else get k fs

-- value.get(key, default)
unfoldable pub get_or : String → Json → Fields → Json
get_or k d end = d
get_or k d (field j v fs) = if j == k then v else get_or k d fs

unfoldable pub to_list : Items → List Json
to_list nil = []
to_list (cons v vs) = v ∷ to_list vs

-- Python's `==`: objects compare as maps, whatever the order of their keys. `True == 1` and
-- `False == 0` hold there too.
unfoldable pub int_eq : ℤ → ℤ → Bool
int_eq (pos m) (pos n) = eqb m n
int_eq (negsuc m) (negsuc n) = eqb m n
int_eq _ _ = false

unfoldable pub bool_int : Bool → ℤ
bool_int true = pos 1
bool_int false = pos 0

unfoldable pub size : Fields → ℕ
size end = 0
size (field k v fs) = suc (size fs)

unfoldable mutual
  pub eq : Json → Json → Bool
  eq null null = true
  eq (bool a) (bool b) = int_eq (bool_int a) (bool_int b)
  eq (bool a) (num n) = int_eq (bool_int a) n
  eq (num m) (bool b) = int_eq m (bool_int b)
  eq (num m) (num n) = int_eq m n
  eq (decimal m e) (decimal n f) = int_eq m n && int_eq e f
  eq (str s) (str t) = s == t
  eq (arr xs) (arr ys) = items_eq xs ys
  eq (obj fs) (obj gs) = eqb (size fs) (size gs) && fields_in fs gs
  eq _ _ = false

  items_eq : Items → Items → Bool
  items_eq nil nil = true
  items_eq (cons v vs) (cons w ws) = eq v w && items_eq vs ws
  items_eq _ _ = false

  pub fields_in : Fields → Fields → Bool
  fields_in end gs = true
  fields_in (field k v fs) gs =
      elim (get k gs) [ none ↦ false | some w ↦ eq v w ] && fields_in fs gs

pub eq-str : (v : Json) (s : String) → eq v (str s) ≡ true → v ≡ str s
unfolding eq
eq-str (str t) s h = ap str (eq_of_test t s h)
eq-str _ s h = cc

pub eq-str_self : (s : String) → eq (str s) (str s) ≡ true
unfolding eq
eq-str_self s = test_self s
