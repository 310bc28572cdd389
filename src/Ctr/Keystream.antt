-- ===== src/Ctr/Keystream.antt =====
-- `fu_aes_ctr` against plain counter mode: the output is the start of the keystream, the next two
-- blocks are the new key, and the counter stands behind them.
use fast_uuid.Common.{
  ℕ, zero, suc, ◌+◌, ◌-◌, ◌*◌, ◌/◌, ◌%◌, ◌≤◌, ◌<◌, ◌≡◌, refl, ap, sym, arith, true, false, List, [],
  ◌++◌, take, length, length-append, take-append_left, take-append_right, take_all, ltb, leb, ◌==◌,
  ◌⊎◌, inl, inr,
}
use Prim.Native.Nat.add
use native.Mathlib.Decide.{dec_lt}
use mathlib.Core.Path.{subst}
use mathlib.Core.List.{append-nil, append_assoc}
use fast_uuid.Ctr.{Block, Stream, add_one, eight_lanes, two_blocks, aes_ctr}

-- The counter after `n` blocks.
unfoldable pub advance : ℕ → Block → Block
advance zero c = c
advance (suc n) c = advance n (add_one c)

pub advance_add : (m n : ℕ) (c : Block) → advance n (advance m c) ≡ advance (m + n) c
unfolding advance
advance_add zero n c = rw (add.zero n)
advance_add (suc m) n c = rw (add.suc m n) (advance_add m n (add_one c))

module _ (aes : List ℕ → Block → Block) where
  -- `n` blocks of keystream from the counter `c` on.
  unfoldable pub keystream : ℕ → List ℕ → Block → List ℕ
  keystream zero key c = []
  keystream (suc n) key c = aes key c ++ keystream n key (add_one c)

  keystream_add :
      (m n : ℕ) (key : List ℕ) (c : Block)
      → keystream m key c ++ keystream n key (advance m c) ≡ keystream (m + n) key c
  unfolding keystream advance
  keystream_add zero n key c = rw (add.zero n)
  keystream_add (suc m) n key c =
      rw (add.suc m n, append_assoc) (ap (λ t. aes key c ++ t) (keystream_add m n key (add_one c)))

-- Eight at a time.
abbrev eights : ℕ → ℕ
eights zero = zero
eights (suc r) = suc (suc (suc (suc (suc (suc (suc (suc (eights r))))))))

eights-mul : (r : ℕ) → eights r ≡ 8 * r
eights-mul zero = refl
eights-mul (suc r) = omega (arith, eights-mul r)

module _ (aes : List ℕ → Block → Block) where
  eight_lanes_lem :
      (fuel r rem : ℕ) (key : List ℕ) (c : Block) (len : ℕ)
      → len ≡ 128 * r + rem
      → rem < 128
      → r ≤ fuel
      → eight_lanes aes fuel key c len ≡ (keystream aes (eights r) key c, advance (eights r) c, rem)
  unfolding eight_lanes keystream advance
  eight_lanes_lem zero zero rem key c len e h f = λ i. ([], c, ends i)
    where
      ends : len ≡ rem
      ends = omega arith
  eight_lanes_lem zero (suc r) rem key c len e h f = absurd (omega arith)
  eight_lanes_lem (suc fuel) zero rem key c len e h f = rw (few, all_left)
    where
      few : leb 128 len ≡ false
      few = ground arith

      all_left : len ≡ rem
      all_left = omega arith
  eight_lanes_lem (suc fuel) (suc r) rem key c len e h f =
      rw (
        many,
        eight_lanes_lem fuel r rem key (advance 8 c) (len - 128) (omega arith) h (omega arith),
      )
    where
      many : leb 128 len ≡ true
      many = ground arith

  -- Every block has sixteen bytes.
  module _ (size : (key : List ℕ) (c : Block) → length (aes key c) ≡ 16) where
    pub length-keystream :
        (n : ℕ) (key : List ℕ) (c : Block) → length (keystream aes n key c) ≡ 16 * n
    unfolding keystream
    length-keystream zero key c = refl
    length-keystream (suc n) key c = omega (
      arith,
      length-append (aes key c) (keystream aes n key (add_one c)),
      length-keystream n key (add_one c),
      size key c,
    )

    -- Plain counter mode over `n` blocks: the first `len` bytes, and what stands behind them.
    abbrev pub plain : List ℕ → Block → ℕ → ℕ → Stream
    plain key c len n = record {
      out = take len (keystream aes n key c);
      key = aes key (advance n c) ++ aes key (add_one (advance n c));
      ctr = add_one (add_one (advance n c));
    }

    -- The last round, and the rounds that write into one block, into two, and two whole blocks.
    last_round :
        (fuel : ℕ) (key : List ℕ) (c : Block) → two_blocks aes (suc fuel) key c 0 ≡ plain key c 0 0
    unfolding two_blocks keystream advance
    last_round fuel key c = refl

    one_block_round :
        (fuel : ℕ) (key : List ℕ) (c : Block) (len : ℕ)
        → 0 < len
        → len ≤ 16
        → two_blocks aes (suc (suc fuel)) key c len ≡ plain key c len 1
    unfolding two_blocks keystream advance
    one_block_round fuel key c len lo hi =
        rw (below, some_left, one, none_left, append-nil, append-nil)
          (rw (take-append_left len (aes key c) (aes key (add_one c)) (rw (size key c) hi)))
      where
        below : ltb len 32 ≡ true
        below = ground arith

        some_left : (len == 0) ≡ false
        some_left = ground arith

        one : ltb 16 len ≡ false
        one = ground arith

        none_left : len - len ≡ 0
        none_left = omega arith

    short_round :
        (fuel : ℕ) (key : List ℕ) (c : Block) (len : ℕ)
        → 16 < len
        → len < 32
        → two_blocks aes (suc (suc fuel)) key c len ≡ plain key c len 2
    unfolding two_blocks keystream advance
    short_round fuel key c len lo hi = rw (below, some_left, two, none_left, append-nil, append-nil)
      where
        below : ltb len 32 ≡ true
        below = ground arith

        some_left : (len == 0) ≡ false
        some_left = ground arith

        two : ltb 16 len ≡ true
        two = ground arith

        none_left : len - len ≡ 0
        none_left = omega arith

    two_blocks_size : (key : List ℕ) (c d : Block) → length (aes key c ++ aes key d) ≡ 32
    two_blocks_size key c d =
        omega (arith, length-append (aes key c) (aes key d), size key c, size key d)

    long_round :
        (fuel : ℕ) (key : List ℕ) (c : Block) (len n : ℕ)
        → two_blocks aes fuel key (advance 2 c) len ≡ plain key (advance 2 c) len n
        → two_blocks aes (suc fuel) key c (32 + len) ≡ plain key c (32 + len) (suc (suc n))
    unfolding two_blocks keystream advance
    long_round fuel key c len n ih =
        rw
          (
            full,
            rest,
            ih,
            take_all 32 (aes key c ++ aes key (add_one c))
                (omega (arith, two_blocks_size key c (add_one c))),
          )
          (rw (
            ← append_assoc,
            take-append_right 32 len (aes key c ++ aes key (add_one c)) _
                (two_blocks_size key c (add_one c)),
          ))
      where
        full : ltb (32 + len) 32 ≡ false
        full = ground arith

        rest : 32 + len - 32 ≡ len
        rest = omega arith

    empty_or_not : (len : ℕ) → (len ≡ 0) ⊎ (0 < len)
    empty_or_not zero = inl refl
    empty_or_not (suc len) = inr (omega arith)

    two_blocks_lem :
        (fuel : ℕ) (key : List ℕ) (c : Block) (len : ℕ)
        → len < fuel
        → two_blocks aes fuel key c len ≡ plain key c len ((len + 15) / 16)
    two_blocks_lem zero key c len h = absurd (omega arith)
    two_blocks_lem (suc zero) key c len h =
        let none_left : len ≡ 0 = omega arith in rw none_left (last_round zero key c)
    two_blocks_lem (suc (suc fuel)) key c len h = elim (empty_or_not len) [
      | inl none_left ↦ rw none_left (last_round (suc fuel) key c)
      | inr some_left ↦ elim (dec_lt len 32) [
        | yes below ↦ elim (dec_lt len 17) [
          | yes small ↦
              let count : (len + 15) / 16 ≡ 1 = omega arith in
              rw count (one_block_round fuel key c len some_left (omega arith))
          | no large ↦
              let count : (len + 15) / 16 ≡ 2 = omega arith in
              rw count (short_round fuel key c len (omega arith) below)
        ]
        | no above ↦
            let split : len ≡ 32 + (len - 32) = omega arith in
            let count : (32 + (len - 32) + 15) / 16 ≡ suc (suc ((len - 32 + 15) / 16)) =
              omega arith in
            subst (λ m. two_blocks aes (suc (suc fuel)) key c m ≡ plain key c m ((m + 15) / 16))
              (sym split)
              (rw count (
                long_round (suc fuel) key c (len - 32) ((len - 32 + 15) / 16)
                  (two_blocks_lem (suc fuel) key (advance 2 c) (len - 32) (omega arith))))
      ]
    ]

    -- Whole blocks and the rest of the output.
    join_out :
        (n m rem len : ℕ) (key : List ℕ) (c : Block)
        → len ≡ 16 * n + rem
        → keystream aes n key c ++ take rem (keystream aes m key (advance n c))
          ≡ take len (keystream aes (n + m) key c)
    join_out n m rem len key c e =
        rw (e, ← keystream_add aes n m key c)
          (sym (
            take-append_right (16 * n) rem (keystream aes n key c)
              (keystream aes m key (advance n c)) (length-keystream n key c)))

    join :
        (n m rem len : ℕ) (key : List ℕ) (c : Block)
        → len ≡ 16 * n + rem
        → ◌≡◌ {A = Stream}
            (record {
              out = keystream aes n key c ++ (plain key (advance n c) rem m).out;
              key = (plain key (advance n c) rem m).key;
              ctr = (plain key (advance n c) rem m).ctr;
            })
            (plain key c len (n + m))
    join n m rem len key c e = rw (advance_add n m c, join_out n m rem len key c e)

    -- For a block cipher that gives 16 bytes, a call for `len` bytes gives the first `len` bytes of the
    -- keystream; the next two blocks of it are the new key, and the new counter stands behind them.
    pub aes_ctr-plain :
        (key : List ℕ) (c : Block) (len : ℕ)
        → aes_ctr aes key c len ≡ plain key c len ((len + 15) / 16)
    unfolding aes_ctr
    aes_ctr-plain key c len =
        let n = eights (len / 128) in
        let m = (len % 128 + 15) / 16 in
        let whole : len ≡ 16 * n + len % 128 = omega (arith, eights-mul (len / 128)) in
        let count : (len + 15) / 16 ≡ n + m = omega (arith, eights-mul (len / 128)) in
        rw
          (eight_lanes_lem len (len / 128) (len % 128) key c len (omega arith) (omega arith)
            (omega arith))
          (rw (two_blocks_lem (len + 1) key (advance n c) (len % 128) (omega arith), count)
            (join n m (len % 128) len key c whole))
