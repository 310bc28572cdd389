-- ===== src/Resolve/MayReturn.antt =====
-- The test on declared return types is only a filter: it never passes over a method that could return
-- a UUID object.
use fast_uuid.Common.{
  ℕ, ◌≡◌, ◌≢◌, refl, true, false, List, [], ◌∷◌, Bool-cases, ◌==◌, Option, some, bit_and, bit_or,
  ok, inl, inr, ◌⊎◌, arith,
}
use fast_uuid.Uuid.{Uuid}
use fast_uuid.Zend.{Zend}
use fast_uuid.Resolve.{
  ZendType, TypeList, primitive, named, union, intersection, nil, part, ClassName, Classes, script,
  literal, same_text, self_name, static_name, parent_name, candidate, related, name_may_be,
  type_may_return, some_may_return, all_may_return, Method, method_may_return, Foreign, object,
  resolve_uuid, find_zero_arg_method, usable_method, by_core, after_core,
}

-- The class `j` is what a name in the type of a method of the class `scope` stands for: `self`, `parent`
-- and, of which more is known when the method is called, `static`, written in lower case, go by that
-- class; any other name by the class table.
pub data StandsFor (c : Classes) (scope : Option ℕ) (name : ClassName) (j : ℕ) : Type 0 where
  self : name ≡ script self_name → scope ≡ some j → StandsFor c scope name j
  static : name ≡ script static_name → scope ≡ some j → StandsFor c scope name j
  parent :
      (k : ℕ)
      → name ≡ script parent_name
      → scope ≡ some k
      → c.parent k ≡ some j
      → StandsFor c scope name j
  listed :
      (s : List ℕ)
      → name ≡ script s
      → s ≢ self_name
      → s ≢ static_name
      → s ≢ parent_name
      → c.lookup s ≡ some j
      → StandsFor c scope name j
  internal : (s : List ℕ) → name ≡ literal s → c.lookup s ≡ some j → StandsFor c scope name j

same_text_sound : (xs ys : List ℕ) → same_text xs ys ≡ true → xs ≡ ys
same_text_sound [] [] h = refl
same_text_sound [] (y ∷ ys) h = absurd (ground (arith, h))
same_text_sound (x ∷ xs) [] h = absurd (ground (arith, h))
same_text_sound (x ∷ xs) (y ∷ ys) h = grind (arith, h, same_text_sound xs ys)

same_text_ne : (xs ys : List ℕ) → xs ≢ ys → same_text xs ys ≡ false
same_text_ne xs ys h = elim (Bool-cases (same_text xs ys)) [
  | inl e ↦ absurd (h (same_text_sound xs ys e))
  | inr e ↦ e
]

module _ (c : Classes) where
  candidate-StandsFor :
      (scope : Option ℕ) (name : ClassName) (j : ℕ)
      → StandsFor c scope name j
      → candidate c scope name ≡ some j
  unfolding candidate
  candidate-StandsFor scope name j (self e s) = rw (e, s) refl
  candidate-StandsFor scope name j (static e s) = rw (e, s) refl
  candidate-StandsFor scope name j (parent k e s p) = rw (e, s, p) refl
  candidate-StandsFor scope name j (listed s e n1 n2 n3 l) =
      rw
        (
          e,
          same_text_ne s self_name n1,
          same_text_ne s static_name n2,
          same_text_ne s parent_name n3,
          l,
        )
        refl
  candidate-StandsFor scope name j (internal s e l) = rw (e, l) refl

  -- An object of the class `k` meets a class name where it is an instance of a class that the name
  -- stands for.
  abbrev MeetsName : Option ℕ → ClassName → ℕ → Type 0
  MeetsName scope name k = (j : ℕ) × StandsFor c scope name j × (c.instanceof k j ≡ true)

  -- The engine's reading of a type, for an object of the class `k`.
  unfoldable mutual
    pub Meets : ZendType → Option ℕ → ℕ → Type 0
    Meets (primitive mask) scope k = (bit_and mask c.may_be_object == 0) ≡ false
    Meets (named mask name) scope k =
        ((bit_and mask c.may_be_object == 0) ≡ false) ⊎ MeetsName scope name k
    Meets (union mask parts) scope k =
        ((bit_and mask c.may_be_object == 0) ≡ false) ⊎ MeetsSome parts scope k
    Meets (intersection mask parts) scope k =
        ((bit_and mask c.may_be_object == 0) ≡ false) ⊎ MeetsAll parts scope k

    pub MeetsSome : TypeList → Option ℕ → ℕ → Type 0
    MeetsSome nil scope k = ⊥
    MeetsSome (part t ts) scope k = Meets t scope k ⊎ MeetsSome ts scope k

    pub MeetsAll : TypeList → Option ℕ → ℕ → Type 0
    MeetsAll nil scope k = Unit {0}
    MeetsAll (part t ts) scope k = Meets t scope k × MeetsAll ts scope k

  name_of_Meets :
      (scope : Option ℕ) (name : ClassName) (k : ℕ)
      → MeetsName scope name k
      → name_may_be c scope name (some k) ≡ true
  unfolding name_may_be related
  name_of_Meets scope name k (j, s, i) =
      let e : related c (candidate c scope name) k ≡ true =
        rw (candidate-StandsFor scope name j s, i) refl in
      rw e (ground arith)

  mutual
    unfolding Meets type_may_return

    pub may_return_of_Meets :
        (t : ZendType) (scope : Option ℕ) (k : ℕ)
        → Meets t scope k
        → type_may_return c t scope c.may_be_object (some k) ≡ true
    may_return_of_Meets (primitive mask) scope k h = rw h refl
    may_return_of_Meets (named mask name) scope k (inl h) = rw h refl
    may_return_of_Meets (named mask name) scope k (inr h) =
        rw (name_of_Meets scope name k h) (ground arith)
    may_return_of_Meets (union mask parts) scope k (inl h) = rw h refl
    may_return_of_Meets (union mask parts) scope k (inr h) =
        rw (some_of_Meets parts scope k h) (ground arith)
    may_return_of_Meets (intersection mask parts) scope k (inl h) = rw h refl
    may_return_of_Meets (intersection mask parts) scope k (inr h) =
        rw (all_of_Meets parts scope k h) (ground arith)

    some_of_Meets :
        (ts : TypeList) (scope : Option ℕ) (k : ℕ)
        → MeetsSome ts scope k
        → some_may_return c ts scope c.may_be_object (some k) ≡ true
    some_of_Meets nil scope k h = absurd h
    some_of_Meets (part t ts) scope k (inl h) = rw (may_return_of_Meets t scope k h) refl
    some_of_Meets (part t ts) scope k (inr h) = rw (some_of_Meets ts scope k h) (ground arith)

    all_of_Meets :
        (ts : TypeList) (scope : Option ℕ) (k : ℕ)
        → MeetsAll ts scope k
        → all_may_return c ts scope c.may_be_object (some k) ≡ true
    all_of_Meets nil scope k h = refl
    all_of_Meets (part t ts) scope k h =
        rw (may_return_of_Meets t scope k h.0, all_of_Meets ts scope k h.1) refl

  -- A method without a declared type may return anything.
  abbrev pub Declares : Method → ℕ → Type 0
  Declares m k = (m.has_return_type ≡ false) ⊎ Meets m.return_type m.scope k

  method_of_Declares :
      (m : Method) (k : ℕ) → Declares m k → method_may_return c m c.may_be_object (some k) ≡ true
  unfolding method_may_return
  method_of_Declares m k (inl h) = rw h refl
  method_of_Declares m k (inr h) = rw (may_return_of_Meets m.return_type m.scope k h) (ground arith)

  -- A foreign object whose getCore takes no argument, is public and neither static nor abstract, and
  -- has no return type or one that a UUID object meets, resolves to the UUID that the call returns. A
  -- type is met by a primitive type of objects, or by classes that `self`, `static`, `parent` or the
  -- class table give for its names.
  pub resolve_uuid-core :
      (uuid_ce : ℕ) (z : Zend) (o : Foreign) (m : Method) (u : Uuid)
      → o.getcore ≡ some m
      → m.required_num_args ≡ 0
      → bit_and m.fn_flags (bit_or (bit_or c.acc_public c.acc_abstract) c.acc_static) ≡ c.acc_public
      → Declares m uuid_ce
      → o.core ≡ ok (some u)
      → resolve_uuid c uuid_ce z (object o) ≡ ok (some u)
  unfolding resolve_uuid find_zero_arg_method usable_method by_core after_core
  resolve_uuid-core uuid_ce z o m u g n f d r =
      let w : usable_method c m c.may_be_object (some uuid_ce) ≡ true =
        rw (n, f, method_of_Declares m uuid_ce d) (ground arith) in
      rw (g, w, r) refl
