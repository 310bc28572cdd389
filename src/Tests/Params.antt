-- ===== src/Tests/Params.antt =====
-- A text comparison, an operating system and a state to try the theorems on.
use fast_uuid.Common.{
  ℕ, zero, suc, ◌<◌, ◌≡◌, refl, ap, arith, Bool, true, false, some, List, [], ◌∷◌, map, take,
  length, All, IsByte, replicate, ◌==◌, if◌then◌else◌, ◌&&◌,
}
use fast_uuid.Common.Int.{ℤ, pos, pos_part}
use mathlib.Core.Path.{subst}
use mathlib.Core.Option.{some-injective}
use fast_uuid.Zend.{Zend, to_lower}
use fast_uuid.State.{State, Os, rbuf_size, not_built}
use fast_uuid.Random.{ginit}
use fast_uuid.Args.{Process}
use fast_uuid.Decimal.Digits.{spelled}
use fast_uuid.Resolve.{Classes}
use fast_uuid.Common.{none}
use fast_uuid.Random.Valid.{IsValid}
use fast_uuid.Random.Live.{Answers}
use fast_uuid.Clock.Live.{Ticks}
use fast_uuid.V7.Increase.{V7Valid}

equal : List ℕ → List ℕ → Bool
equal [] [] = true
equal [] (y ∷ ys) = false
equal (x ∷ xs) [] = false
equal (x ∷ xs) (y ∷ ys) = x == y && equal xs ys

equal_sound : (xs ys : List ℕ) → equal xs ys ≡ true → xs ≡ ys
unfolding equal
equal_sound [] [] h = refl
equal_sound [] (y ∷ ys) h = absurd (ground arith)
equal_sound (x ∷ xs) [] h = absurd (ground arith)
equal_sound (x ∷ xs) (y ∷ ys) h = grind (arith, equal_sound xs ys)

equal_refl : (xs : List ℕ) → equal xs xs ≡ true
unfolding equal
equal_refl [] = refl
equal_refl (x ∷ xs) = ground (arith, equal_refl xs)

compare_folded : List ℕ → List ℕ → ℕ → ℤ
unfolding equal
compare_folded s t n =
    if equal (map to_lower (take n s)) (map to_lower (take n t)) then pos 0 else pos 1

pos_one : (b : Bool) → (if b then pos 0 else pos 1) ≡ pos 0 → b ≡ true
pos_one true h = refl
pos_one false h = absurd (ground (arith, ap pos_part h))

pub zend : Zend
unfolding compare_folded
zend = record {
  strncasecmp = compare_folded;
  strncasecmp_zero = λ s t n. (
    (λ h. equal_sound (map to_lower (take n s)) (map to_lower (take n t)) (pos_one _ h)),
    (λ h. rw h (rw (equal_refl (map to_lower (take n t))) refl)),
  );
}

-- Random bytes that are all 7, a clock that stands still, and a cipher of ones.
pub length-replicate : (n x : ℕ) → length (replicate n x) ≡ n
length-replicate zero x = refl
length-replicate (suc n) x = ap suc (length-replicate n x)

pub All-replicate : (n x : ℕ) → x < 256 → All IsByte (replicate n x)
All-replicate zero x h = tt
All-replicate (suc n) x h = (h, All-replicate n x h)

abbrev second : ℤ
second = pos 1700000000

pub os : Os
os = record {
  random_bytes = λ draw n. some (replicate n 7);
  clock_gettime = λ reading. some (second, 123456789);
  aes = λ key block. replicate 16 1;
  random_bytes_size = λ draw n xs h.
      subst (λ ys. (length ys ≡ n) × All IsByte ys) (some-injective _ _ h)
        (length-replicate n 7, All-replicate n 7 (omega arith));
  clock_gettime_range = λ reading sec nsec h.
      subst (λ k. k < 1000000000) (ap (λ x. x.1) (some-injective _ _ h)) (omega arith);
  aes_size = λ key block. (refl, All-replicate 16 1 (omega arith));
}

pub os-Answers : Answers os
unfolding os
os-Answers = λ draw n h. absurd (ground (arith, h))

pub os-Ticks : Ticks os
unfolding os
os-Ticks = λ reading. (1700000000, 123456789, refl, omega arith)

abbrev pub start : State
start = ginit not_built

pub start-IsValid : IsValid start
unfolding ginit
start-IsValid = record {
  buffer = (length-replicate rbuf_size 0, All-replicate rbuf_size 0 (omega arith));
  position = omega arith;
}

pub start-V7Valid : V7Valid start
unfolding ginit
start-V7Valid = record { random = start-IsValid; marked = λ h. absurd (ground (arith, h)) }

-- A process whose `strtoull` takes every text for digits.
pub process : Process
process = record {
  getuid = 1000;
  getgid = 100;
  strtoull = λ s. some (spelled s 0, length s);
  strtoull_law = λ s d l h. refl;
}

-- Classes that are related to themselves only; every name in the table is that of the class 3.
abbrev pub classes : Classes
classes = record {
  class_name = λ k. [];
  parent = λ k. none;
  lookup = λ name. some 3;
  instanceof = λ k j. k == j;
  strcasecmp = λ s t. pos 1;
  acc_public = 1;
  acc_abstract = 64;
  acc_static = 16;
  may_be_object = 256;
}
