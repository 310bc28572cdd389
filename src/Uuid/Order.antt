-- ===== src/Uuid/Order.antt =====
-- The order of UUIDs: `memcmp` on sixteen bytes is the order of the 128-bit numbers.
use fast_uuid.Common.{ℕ, ◌+◌, ◌*◌, ◌≡◌, sym, List, [], ◌∷◌, length, tabulate, tabulate-get_or}
use fast_uuid.Uuid.{Uuid, to_list, of_list}

-- The number of big-endian bytes.
abbrev pub be_value : List ℕ → ℕ → ℕ
be_value [] acc = acc
be_value (x ∷ xs) acc = be_value xs (acc * 256 + x)

-- The 128-bit number of a UUID.
unfoldable pub value : Uuid → ℕ
value u = be_value (to_list u) 0

-- A list of sixteen entries is an array.
pub to_list-of_list : (xs : List ℕ) → length xs ≡ 16 → to_list (of_list xs) ≡ xs
unfolding tabulate
to_list-of_list xs h = sym (tabulate-get_or 16 xs 0 h)
