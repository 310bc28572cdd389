-- ===== src/Zend.antt =====
-- What the extension calls in the PHP engine and in the operating system: parameters of the model,
-- with the documented behaviour that the code relies on.
use fast_uuid.Common.{ℕ, ◌+◌, ◌≡◌, ◌↔◌, List, map, take, ◌&&◌, leb, if◌then◌else◌}
use fast_uuid.Common.Int.{ℤ, pos}

-- ASCII lower case.
abbrev pub to_lower : ℕ → ℕ
to_lower c = if leb b'A' c && leb c b'Z' then c + 32 else c

-- Text comparison of the engine: `zend_binary_strncasecmp(s, len, t, n, n)` is 0 exactly when the
-- first `n` bytes of `s` and `t` differ in case at most.
pub record Zend : Type 0 where
  pub strncasecmp : List ℕ → List ℕ → ℕ → ℤ
  pub strncasecmp_zero :
      (s t : List ℕ) (n : ℕ)
      → (strncasecmp s t n ≡ pos 0) ↔ (map to_lower (take n s) ≡ map to_lower (take n t))
