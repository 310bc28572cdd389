-- ===== src/SelfTest/Cases.antt =====
-- What a case of the self test compares, and what holds of every case in the table.
use fast_uuid.Common.{
  ℕ, zero, suc, ◌+◌, ◌-◌, ◌*◌, ◌/◌, ◌<◌, ◌≤◌, ◌≡◌, refl, ap, ◌∙◌, arith, Bool, true, false, ◌&&◌,
  List, [], ◌∷◌, ◌++◌, take, drop, length, length-take, replicate, get_or, get_or-append,
  take-append_left, take-append_right, take_all, ltb, ◌==◌, if◌then◌else◌,
}
use Prim.Native.Nat.add
use mathlib.Core.List.{append_assoc}
use fast_uuid.Common.{length-append}
use fast_uuid.Ctr.{Block, Stream, add_one}
use fast_uuid.Ctr.Keystream.{keystream, advance, advance_add, plain, length-keystream}
use fast_uuid.Compare.{memcmp, is_zero_ℤ}
use fast_uuid.Compare.Equal.{memcmp_zero}
use fast_uuid.SelfTest.{fips_key, fips_pt, fips_ct, cases, start_ctr, block_matches, counter_moved}

take-take : (m n : ℕ) (xs : List ℕ) → m ≤ n → take m (take n xs) ≡ take m xs
take-take zero n xs h = refl
take-take (suc m) zero xs h = absurd (omega arith)
take-take (suc m) (suc n) [] h = refl
take-take (suc m) (suc n) (x ∷ xs) h = ap (λ t. x ∷ t) (take-take m n xs (omega arith))

drop_add : (m n : ℕ) (xs ys : List ℕ) → length xs ≡ m → drop (m + n) (xs ++ ys) ≡ drop n ys
drop_add zero n [] ys h = rw (add.zero n) refl
drop_add zero n (x ∷ xs) ys h = absurd (omega arith)
drop_add (suc m) n [] ys h = absurd (omega arith)
drop_add (suc m) n (x ∷ xs) ys h = rw (add.suc m n) (drop_add m n xs ys (omega arith))

module _ (aes : List ℕ → Block → Block)
    (size : (key : List ℕ) (c : Block) → length (aes key c) ≡ 16) where
  -- A block of the output, whatever stands behind the output.
  output_block :
      (n blk len cmp : ℕ) (key : List ℕ) (c : Block) (rest : List ℕ)
      → blk < n
      → cmp ≤ 16
      → blk * 16 + cmp ≤ len
      → len ≤ 16 * n
      → take cmp (drop (blk * 16) (take len (keystream aes n key c) ++ rest))
        ≡ take cmp (aes key (advance blk c))
  unfolding keystream advance
  output_block zero blk len cmp key c rest b k l f = absurd (omega arith)
  output_block (suc n) zero len cmp key c rest b k l f =
      let a = aes key c in
      let ks = keystream aes n key (add_one c) in
      let enough : cmp ≤ length (take len (a ++ ks)) =
        omega (arith, length-take len (a ++ ks), length-append a ks, size key c) in
      take-append_left cmp (take len (a ++ ks)) rest enough
      ∙ take-take cmp len (a ++ ks) (omega (arith, l))
      ∙ take-append_left cmp a ks (omega (arith, size key c))
  output_block (suc n) (suc blk) len cmp key c rest b k l f =
      let a = aes key c in
      let ks = keystream aes n key (add_one c) in
      let m = len - 16 in
      let split : len ≡ 16 + m = omega (arith, l) in
      let step : suc blk * 16 ≡ 16 + blk * 16 = omega arith in
      rw (split, step, take-append_right 16 m a ks (size key c), append_assoc)
        (rw (drop_add 16 (blk * 16) a (take m ks ++ rest) (size key c)) (
          output_block n blk m cmp key (add_one c) rest (omega arith) k (omega (arith, l))
            (omega (arith, f))))

  -- A block of the new key.
  key_block :
      (d : ℕ) (key : List ℕ) (c : Block)
      → d ≤ 1
      → take 16 (drop (d * 16) (aes key c ++ aes key (add_one c))) ≡ aes key (advance d c)
  unfolding advance
  key_block zero key c h =
      take-append_left 16 (aes key c) (aes key (add_one c)) (omega (arith, size key c))
      ∙ take_all 16 (aes key c) (omega (arith, size key c))
  key_block (suc zero) key c h =
      ap (take 16) (drop_add 16 0 (aes key c) (aes key (add_one c)) (size key c))
      ∙ take_all 16 (aes key (add_one c)) (omega (arith, size key (add_one c)))
  key_block (suc (suc d)) key c h = absurd (omega (arith, h))

-- What the code's comment says of a case: the plaintext is the counter of the compared block, which
-- is a block of the output or of the new key, the output leaves room behind it, and two blocks more
-- than the output are counted.
abbrev pub blocks : ℕ → ℕ
blocks len = (len + 15) / 16

unfoldable pub ready : ℕ → ℕ → Bool
ready len blk =
    (is_zero_ℤ (memcmp (advance blk (start_ctr blk)) fips_pt)
      && length (advance blk (start_ctr blk)) == 16)
    && (counter_moved len blk (add_one (add_one (advance (blocks len) (start_ctr blk))))
        && (ltb len 272 && (ltb 0 len && ltb blk (blocks len + 2))))

pub record Ready (len blk : ℕ) : Type 0 where
  pub counts : advance blk (start_ctr blk) ≡ fips_pt
  pub moves :
      counter_moved len blk (add_one (add_one (advance (blocks len) (start_ctr blk)))) ≡ true
  pub room : len < 272
  pub near : blk < blocks len + 2

pub ready-Ready : (len blk : ℕ) → ready len blk ≡ true → Ready len blk
unfolding ready
ready-Ready len blk h = record {
  counts =
      memcmp_zero (advance blk (start_ctr blk)) fips_pt (ground (arith, h)) (ground (arith, h));
  moves = ground (arith, h);
  room = ground (arith, h);
  near = ground (arith, h);
}

unfoldable pub all_ready : List (ℕ × ℕ) → Bool
unfolding ready
all_ready [] = true
all_ready ((len, blk) ∷ cs) = ready len blk && all_ready cs

pub cases_ready : all_ready cases ≡ true
unfolding all_ready advance counter_moved start_ctr memcmp add_one
cases_ready = refl

drop-replicate : (k n x : ℕ) → k < n → get_or (drop k (replicate n x)) 0 0 ≡ x
drop-replicate k zero x h = absurd (omega arith)
drop-replicate zero (suc n) x h = refl
drop-replicate (suc k) (suc n) x h = drop-replicate k n x (omega arith)

module _ (aes : List ℕ → Block → Block)
    (size : (key : List ℕ) (c : Block) → length (aes key c) ≡ 16) (len blk : ℕ)
    (r : Ready len blk) where
  abbrev pub result : Stream
  result = plain aes size fips_key (start_ctr blk) len (blocks len)

  length-result : length result.out ≡ len
  length-result = omega (
    arith,
    length-take len (keystream aes (blocks len) fips_key (start_ctr blk)),
    length-keystream aes size (blocks len) fips_key (start_ctr blk),
  )

  -- What a case compares is the cipher's answer, as many bytes of it as the output holds.
  abbrev pub compared : ℕ
  compared = if ltb (len - blk * 16) 16 then len - blk * 16 else 16

  pub matches_output :
      (rest : List ℕ)
      → ltb blk (blocks len) ≡ true
      → block_matches result.key (result.out ++ rest) len blk
        ≡ is_zero_ℤ (memcmp (take compared (aes fips_key fips_pt)) (take compared fips_ct))
  unfolding block_matches
  matches_output rest e =
      let block : take compared (drop (blk * 16) (result.out ++ rest))
          ≡ take compared (aes fips_key fips_pt) =
        output_block aes size (blocks len) blk len compared fips_key (start_ctr blk) rest
          (ground (arith, e)) (ground arith) (ground (arith, e)) (omega arith)
        ∙ ap (λ c. take compared (aes fips_key c)) r.counts in
      rw (e, block) refl

  pub matches_key :
      (out : List ℕ)
      → ltb blk (blocks len) ≡ false
      → block_matches result.key out len blk ≡ is_zero_ℤ (memcmp (aes fips_key fips_pt) fips_ct)
  unfolding block_matches
  matches_key out e =
      let d = blk - blocks len in
      let block : take 16 (drop (d * 16) result.key) ≡ aes fips_key fips_pt =
        key_block aes size d fips_key (advance (blocks len) (start_ctr blk)) (omega (arith, r.near))
        ∙ ap (aes fips_key) (advance_add (blocks len) d (start_ctr blk) ∙ rw behind r.counts) in
      rw (e, block) refl
    where
      behind : blocks len + (blk - blocks len) ≡ blk
      behind = ground (arith, e)

  pub room_behind :
      get_or (result.out ++ drop (length result.out) (replicate 272 0xa5)) len 0 ≡ 0xa5
  room_behind =
      get_or-append len result.out (drop (length result.out) (replicate 272 0xa5)) 0 length-result
      ∙ rw length-result (drop-replicate len 272 0xa5 r.room)
