-- ===== src/Resolve.antt =====
-- fast_uuid.c, shared helpers: `fu_resolve_uuid`, which reads a UUID from an argument, and what it
-- asks about the methods of foreign objects. Classes are handles. What the engine answers about them
-- is a parameter, and what a call of a foreign method ends with stands in the object.
pub mod MayReturn
use fast_uuid.Common.{
  ℕ, zero, suc, ◌≡◌, ◌↔◌, Bool, true, false, not, ◌&&◌, ◌||◌, ◌==◌, Option, none, some, List, [],
  ◌∷◌, map, length, if◌then◌else◌, bit_and, bit_or, Result, ok, err, Exception,
}
use fast_uuid.Common.Int.{ℤ, pos}
use fast_uuid.Uuid.{Uuid}
use fast_uuid.Zend.{Zend, to_lower}
use fast_uuid.Parse.{is_zero, parse}

-- The name in a type: of a script, or the literal one of an internal function.
pub data ClassName : Type 0 where
  script literal : List ℕ → ClassName

-- `zend_type`: a mask of primitive types with nothing else, with a class name, or with a list.
mutual
  pub data ZendType : Type 0 where
    primitive : ℕ → ZendType
    named : ℕ → ClassName → ZendType
    union intersection : ℕ → TypeList → ZendType

  pub data TypeList : Type 0 where
    nil : TypeList
    part : ZendType → TypeList → TypeList

-- The class table, without autoloading, `zend_binary_strcasecmp`, and the flags of the engine's
-- headers.
pub record Classes : Type 0 where
  pub class_name : ℕ → List ℕ
  pub parent : ℕ → Option ℕ
  pub lookup : List ℕ → Option ℕ
  pub instanceof : ℕ → ℕ → Bool
  pub strcasecmp : List ℕ → List ℕ → ℤ
  pub acc_public : ℕ
  pub acc_abstract : ℕ
  pub acc_static : ℕ
  pub may_be_object : ℕ

abbrev pub same_text : List ℕ → List ℕ → Bool
same_text [] [] = true
same_text [] (y ∷ ys) = false
same_text (x ∷ xs) [] = false
same_text (x ∷ xs) (y ∷ ys) = x == y && same_text xs ys

-- "self", "static" and "parent"
abbrev pub self_name : List ℕ
self_name = b's' ∷ b'e' ∷ b'l' ∷ b'f' ∷ []

abbrev pub static_name : List ℕ
static_name = b's' ∷ b't' ∷ b'a' ∷ b't' ∷ b'i' ∷ b'c' ∷ []

abbrev pub parent_name : List ℕ
parent_name = b'p' ∷ b'a' ∷ b'r' ∷ b'e' ∷ b'n' ∷ b't' ∷ []

abbrev pub spelling : ClassName → List ℕ
spelling (script s) = s
spelling (literal s) = s

module _ (c : Classes) where
  abbrev pub parent_of : Option ℕ → Option ℕ
  parent_of none = none
  parent_of (some k) = c.parent k

  -- The class that a name stands for in a method of the class `scope`.
  unfoldable pub candidate : Option ℕ → ClassName → Option ℕ
  candidate scope (literal s) = c.lookup s
  candidate scope (script s) =
      if same_text s self_name || same_text s static_name
      then scope
      else if same_text s parent_name
      then parent_of scope
      else c.lookup s

  unfoldable pub related : Option ℕ → ℕ → Bool
  related none required = false
  related (some k) required = c.instanceof required k || c.instanceof k required

  unfoldable pub name_may_be : Option ℕ → ClassName → Option ℕ → Bool
  unfolding candidate related
  name_may_be scope name none = false
  name_may_be scope name (some required) =
      if length (spelling name) == length (c.class_name required)
        && is_zero (c.strcasecmp (spelling name) (c.class_name required))
      then true
      else related (candidate scope name) required

  -- `fu_type_may_return`; the loops over a list return at the first part that decides.
  unfoldable mutual
    unfolding name_may_be

    pub type_may_return : ZendType → Option ℕ → ℕ → Option ℕ → Bool
    type_may_return (primitive mask) scope allowed required = not (bit_and mask allowed == 0)
    type_may_return (named mask name) scope allowed required =
        not (bit_and mask allowed == 0) || name_may_be scope name required
    type_may_return (union mask parts) scope allowed required =
        not (bit_and mask allowed == 0) || some_may_return parts scope allowed required
    type_may_return (intersection mask parts) scope allowed required =
        not (bit_and mask allowed == 0) || all_may_return parts scope allowed required

    pub some_may_return : TypeList → Option ℕ → ℕ → Option ℕ → Bool
    some_may_return nil scope allowed required = false
    some_may_return (part t ts) scope allowed required =
        type_may_return t scope allowed required || some_may_return ts scope allowed required

    pub all_may_return : TypeList → Option ℕ → ℕ → Option ℕ → Bool
    all_may_return nil scope allowed required = true
    all_may_return (part t ts) scope allowed required =
        type_may_return t scope allowed required && all_may_return ts scope allowed required

-- `zend_function`
pub record Method : Type 0 where
  pub has_return_type : Bool
  pub return_type : ZendType
  pub scope : Option ℕ
  pub required_num_args : ℕ
  pub fn_flags : ℕ

module _ (c : Classes) where
  unfoldable pub method_may_return : Method → ℕ → Option ℕ → Bool
  unfolding type_may_return
  method_may_return m allowed required =
      if not m.has_return_type
      then true
      else type_may_return c m.return_type m.scope allowed required

module _ (c : Classes) where
  unfoldable pub usable_method : Method → ℕ → Option ℕ → Bool
  unfolding method_may_return
  usable_method m allowed required =
      m.required_num_args == 0
      && bit_and m.fn_flags (bit_or (bit_or c.acc_public c.acc_abstract) c.acc_static)
        == c.acc_public
      && method_may_return c m allowed required

  -- `fu_find_zero_arg_method`, where `found` is the entry of the function table.
  unfoldable pub find_zero_arg_method : Option Method → ℕ → Option ℕ → Option Method
  unfolding usable_method
  find_zero_arg_method none allowed required = none
  find_zero_arg_method (some m) allowed required =
      if usable_method m allowed required then some m else none

-- An object of another class: its method getCore, what a call of that ends with (`none` is a value
-- that is no Uuid object), and, where the class is Stringable, what its conversion ends with.
pub record Foreign : Type 0 where
  pub getcore : Option Method
  pub core : Result (Option Uuid)
  pub text : Option (Result (List ℕ))

pub data Zval : Type 0 where
  uuid_object : Uuid → Zval
  object : Foreign → Zval
  string : List ℕ → Zval
  other : Zval

module _ (c : Classes) (uuid_ce : ℕ) (z : Zend) where
  -- The conversion of a Stringable object; `ok none` is the result 0 without an exception.
  unfoldable pub parse_text : Option (Result (List ℕ)) → Result (Option Uuid)
  parse_text none = ok none
  parse_text (some (err e)) = err e
  parse_text (some (ok s)) = ok (parse z s)

  -- After the call of getCore.
  unfoldable pub after_core : Foreign → Result (Option Uuid) → Result (Option Uuid)
  unfolding parse_text
  after_core o (err e) = err e
  after_core o (ok none) = parse_text o.text
  after_core o (ok (some u)) = ok (some u)

  unfoldable pub by_core : Foreign → Option Method → Result (Option Uuid)
  unfolding after_core parse_text
  by_core o none = parse_text o.text
  by_core o (some m) = after_core o o.core

  unfoldable pub resolve_uuid : Zval → Result (Option Uuid)
  unfolding by_core find_zero_arg_method
  resolve_uuid (uuid_object u) = ok (some u)
  resolve_uuid (object o) =
      by_core o (find_zero_arg_method c o.getcore c.may_be_object (some uuid_ce))
  resolve_uuid (string s) = ok (parse z s)
  resolve_uuid other = ok none
