-- ===== src/Methods/Named.antt =====
-- fast_uuid.c: the factory methods that take a namespace, and the decimal number of a UUID. The
-- digests are parameters; what resolves a namespace is `fu_resolve_uuid`.
use fast_uuid.Common.{
  ℕ, ◌≡◌, refl, Option, none, some, List, All, IsByte, Result, ok, err, invalid_argument,
}
use fast_uuid.Uuid.{Uuid}
use fast_uuid.Zend.{Zend}
use fast_uuid.Object.{Obj, return_uuid}
use fast_uuid.Resolve.{Classes, Zval, resolve_uuid}
use fast_uuid.Decimal.{to_decimal, from_decimal}
use fast_uuid.Generate.{gen_v3, gen_v5}
use fast_uuid.Generate.Bytes.{Names, gen_v3-v5-Names}

-- The namespace that an argument resolves to.
unfoldable pub namespace_arg : Result (Option Uuid) → Result Uuid
namespace_arg (err e) = err e
namespace_arg (ok none) = err (invalid_argument "Invalid namespace")
namespace_arg (ok (some u)) = ok u

unfoldable pub return_or : Result Uuid → Result Obj
return_or (err e) = err e
return_or (ok b) = ok (return_uuid b)

unfoldable pub in_namespace : (Uuid → Result Uuid) → Result Uuid → Result Obj
unfolding return_or
in_namespace gen (err e) = err e
in_namespace gen (ok ns) = return_or (gen ns)

module _ (c : Classes) (uuid_ce : ℕ) (z : Zend) (digest : List ℕ → List ℕ) where
  unfoldable pub uuid3 : Zval → List ℕ → Result Obj
  unfolding in_namespace namespace_arg
  uuid3 ns name =
      in_namespace (λ u. gen_v3 digest u name) (namespace_arg (resolve_uuid c uuid_ce z ns))

  unfoldable pub uuid5 : Zval → List ℕ → Result Obj
  unfolding in_namespace namespace_arg
  uuid5 ns name =
      in_namespace (λ u. gen_v5 digest u name) (namespace_arg (resolve_uuid c uuid_ce z ns))

unfoldable pub integer_or : Option Uuid → Result Obj
integer_or none = err (invalid_argument "Invalid integer")
integer_or (some b) = ok (return_uuid b)

unfoldable pub from_integer : List ℕ → Result Obj
unfolding integer_or
from_integer s = integer_or (from_decimal s)

unfoldable pub get_integer : Obj → List ℕ
get_integer o = to_decimal o.bytes

-- A new object of the bytes, with no text yet.
abbrev NamesObject : (List ℕ → List ℕ) → ℕ → Uuid → List ℕ → Result Obj → Type 0
NamesObject digest ver ns name (ok o) = (o.text ≡ none) × Names digest ver ns name (ok o.bytes)
NamesObject digest ver ns name (err e) = Names digest ver ns name (err e)

-- The outcome of a method by what its namespace resolves to.
abbrev pub NamedIn : (List ℕ → List ℕ) → ℕ → Result (Option Uuid) → List ℕ → Result Obj → Type 0
NamedIn digest ver (err e) name r = r ≡ err e
NamedIn digest ver (ok none) name r = r ≡ err (invalid_argument "Invalid namespace")
NamedIn digest ver (ok (some ns)) name r = NamesObject digest ver ns name r

return_or-NamesObject :
    (digest : List ℕ → List ℕ) (ver : ℕ) (ns : Uuid) (name : List ℕ) (r : Result Uuid)
    → Names digest ver ns name r
    → NamesObject digest ver ns name (return_or r)
unfolding return_or return_uuid
return_or-NamesObject digest ver ns name (ok b) h = (refl, h)
return_or-NamesObject digest ver ns name (err e) h = h

in_namespace-NamedIn :
    (digest : List ℕ → List ℕ) (ver : ℕ) (gen : Uuid → Result Uuid) (name : List ℕ)
    → ((ns : Uuid) → Names digest ver ns name (gen ns))
    → (r : Result (Option Uuid)) → NamedIn digest ver r name (in_namespace gen (namespace_arg r))
unfolding in_namespace namespace_arg
in_namespace-NamedIn digest ver gen name h (err e) = refl
in_namespace-NamedIn digest ver gen name h (ok none) = refl
in_namespace-NamedIn digest ver gen name h (ok (some ns)) =
    return_or-NamesObject digest ver ns name (gen ns) (h ns)

-- For a digest of bytes, uuid3 and uuid5 of a namespace and a name: where resolving the namespace
-- throws, they throw the same; where it gives no UUID, they refuse the namespace; where it gives a
-- UUID, they refuse a name of more than 2^24 bytes, and return for any other a new object of sixteen
-- bytes of the version, which carry the start of the digest of that UUID and the name.
pub uuid3-uuid5-NamedIn :
    (c : Classes) (uuid_ce : ℕ) (z : Zend) (digest : List ℕ → List ℕ)
    → ((xs : List ℕ) → All IsByte (digest xs))
    → (ns : Zval) (name : List ℕ)
    → NamedIn digest 3 (resolve_uuid c uuid_ce z ns) name (uuid3 c uuid_ce z digest ns name)
      × NamedIn digest 5 (resolve_uuid c uuid_ce z ns) name (uuid5 c uuid_ce z digest ns name)
unfolding uuid3 uuid5
uuid3-uuid5-NamedIn c uuid_ce z digest bytes ns name = (
  in_namespace-NamedIn digest 3 (λ u. gen_v3 digest u name) name
      (λ u. (gen_v3-v5-Names digest bytes u name).0) (resolve_uuid c uuid_ce z ns),
  in_namespace-NamedIn digest 5 (λ u. gen_v5 digest u name) name
      (λ u. (gen_v3-v5-Names digest bytes u name).1) (resolve_uuid c uuid_ce z ns),
)
