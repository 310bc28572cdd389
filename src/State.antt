-- ===== src/State.antt =====
-- php_fast_uuid.h: the module globals of one thread, and the operations on them as functions that
-- return the next state. An exception does not undo what was written before it.
use fast_uuid.Common.{
  ℕ, ◌<◌, ◌≡◌, refl, Bool, Option, some, List, All, IsByte, length, Result, ok, err, Exception,
}
use fast_uuid.Common.Int.{ℤ}

-- `fu_aes_state`, set once in MINIT.
pub data AesState : Type 0 where
  not_built no_cpu no_detect selftest_failed active : AesState

-- The module globals; `draws` and `reads` count the calls of the OS generator and of the clock.
pub record State : Type 0 where
  pub rbuf : List ℕ
  pub rpos : ℕ
  pub drbg_key : List ℕ
  pub drbg_ctr : List ℕ
  pub drbg_since_seed : ℕ
  pub drbg_seeded : Bool
  pub v7_key : ℕ
  pub v7_randb : ℕ
  pub v7_initialized : Bool
  pub prng_s0 : ℕ
  pub prng_s1 : ℕ
  pub prng_s2 : ℕ
  pub prng_s3 : ℕ
  pub prng_seeded : Bool
  pub greg_last : ℕ
  pub v2_last : ℕ
  pub aes_state : AesState
  pub draws : ℕ
  pub reads : ℕ

-- `sizeof(FAST_UUID_G(rbuf))`
abbrev pub rbuf_size : ℕ
rbuf_size = 8192

-- What the operating system and the processor provide: the random bytes of the draw with a number,
-- the wall clock of a reading with a number (`none` is a failing call), and AES-256 on one block.
pub record Os : Type 0 where
  pub random_bytes : ℕ → ℕ → Option (List ℕ)
  pub clock_gettime : ℕ → Option (ℤ × ℕ)
  pub aes : List ℕ → List ℕ → List ℕ
  pub random_bytes_size :
      (draw n : ℕ) (xs : List ℕ) → random_bytes draw n ≡ some xs → (length xs ≡ n) × All IsByte xs
  pub clock_gettime_range :
      (reading : ℕ) (sec : ℤ) (nsec : ℕ)
      → clock_gettime reading ≡ some (sec, nsec)
      → nsec < 1000000000
  pub aes_size : (key block : List ℕ) → (length (aes key block) ≡ 16) × All IsByte (aes key block)

abbrev pub M : Type 0 → Type 0
M A = State → Result A × State

module _ {A : Type 0} where
  abbrev pub pure : A → M A
  pure a s = (ok a, s)

  abbrev pub throw : Exception → M A
  throw e s = (err e, s)

-- What follows a call: an exception is passed on, with the state at that point.
abbrev pub continue : {A B : Type 0} → Result A × State → (A → M B) → Result B × State
continue (ok a, s) f = f a s
continue (err e, s) f = (err e, s)

infixl 5 ◌>>=◌ ◌>>◌
abbrev pub ◌>>=◌ : {A B : Type 0} → M A → (A → M B) → M B
◌>>=◌ m f s = continue (m s) f

abbrev pub ◌>>◌ : {A B : Type 0} → M A → M B → M B
m >> k = m >>= λ _. k

abbrev pub get : M State
get s = (ok s, s)

abbrev pub put : State → M (Unit {0})
put t s = (ok tt, t)

-- A property of what a call ends with, from one of its first part.
pub continue_rule :
    {A B : Type 0} (P : Result A × State → Type 0) (Q : Result B × State → Type 0)
    (r : Result A × State) (f : A → M B)
    → P r
    → ((a : A) (t : State) → P (ok a, t) → Q (f a t))
    → ((e : Exception) (t : State) → P (err e, t) → Q (err e, t))
    → Q (continue r f)
continue_rule P Q (ok a, t) f p onward passed = onward a t p
continue_rule P Q (err e, t) f p onward passed = passed e t p

pub continue_assoc :
    {A B C : Type 0} (r : Result A × State) (f : A → M B) (g : B → M C)
    → continue (continue r f) g ≡ continue r (λ a t. continue (f a t) g)
continue_assoc (ok a, t) f g = refl
continue_assoc (err e, t) f g = refl
