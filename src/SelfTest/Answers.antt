-- ===== src/SelfTest/Answers.antt =====
-- What the self test decides: it passes exactly when the cipher gives the two published answers.
use fast_uuid.Common.{
  ℕ, ◌≡◌, ◌↔◌, refl, sym, ap, ◌∙◌, arith, Bool, true, false, not, List, [], ◌∷◌, ◌++◌, take, length,
  take_all, ltb, if◌then◌else◌, Bool-cases, inl, inr,
}
use mathlib.Core.List.{append-nil}
use fast_uuid.Ctr.{Block, aes_ctr}
use fast_uuid.Ctr.Keystream.{keystream, aes_ctr-plain}
use fast_uuid.Compare.{memcmp, is_zero_ℤ}
use fast_uuid.Compare.Equal.{memcmp_self, memcmp_zero}
use fast_uuid.SelfTest.{
  fips_key, fips_pt, fips_ct, sp_key, sp_in, sp_out, cases, start_ctr, block_matches, case_passes,
  cases_pass, aes_selftest,
}
use fast_uuid.SelfTest.Cases.{
  Ready, ready, ready-Ready, all_ready, cases_ready, blocks, result, matches_output, matches_key,
  room_behind,
}

memcmp_same : (xs : List ℕ) → is_zero_ℤ (memcmp xs xs) ≡ true
memcmp_same xs = ap is_zero_ℤ (memcmp_self xs)

module _ (aes : List ℕ → Block → Block)
    (size : (key : List ℕ) (c : Block) → length (aes key c) ≡ 16) where
  matches_answer :
      (len blk : ℕ) (r : Ready len blk) (rest : List ℕ)
      → aes fips_key fips_pt ≡ fips_ct
      → block_matches
          (result aes size len blk r).key
          ((result aes size len blk r).out ++ rest)
          len
          blk
        ≡ true
  matches_answer len blk r rest a = elim (Bool-cases (ltb blk (blocks len))) [
    | inl e ↦ matches_output aes size len blk r rest e ∙ rw a (memcmp_same _)
    | inr e ↦
        matches_key aes size len blk r ((result aes size len blk r).out ++ rest) e
        ∙ rw a (memcmp_same fips_ct)
  ]

  case_passes_lem :
      (len blk : ℕ)
      → Ready len blk
      → aes fips_key fips_pt ≡ fips_ct
      → case_passes aes len blk ≡ true
  unfolding case_passes
  case_passes_lem len blk r a =
      rw
        (
          aes_ctr-plain aes size fips_key (start_ctr blk) len,
          matches_answer len blk r _ a,
          room_behind aes size len blk r,
          r.moves,
        )
        refl

  cases_pass_lem :
      (cs : List (ℕ × ℕ))
      → all_ready cs ≡ true
      → aes fips_key fips_pt ≡ fips_ct
      → cases_pass aes cs ≡ true
  unfolding cases_pass all_ready
  cases_pass_lem [] h a = refl
  cases_pass_lem ((len, blk) ∷ cs) h a =
      let first : ready len blk ≡ true = ground (arith, h) in
      let others : all_ready cs ≡ true = ground (arith, h) in
      rw (case_passes_lem len blk (ready-Ready len blk first) a, cases_pass_lem cs others a) refl

if_both : (b c : Bool) → (if b then c else false) ≡ true → (b ≡ true) × (c ≡ true)
if_both true c h = (refl, h)
if_both false c h = absurd (ground (arith, h))

-- A test that ends early where the check fails.
if_not : (b c : Bool) → (if not b then false else c) ≡ true → (b ≡ true) × (c ≡ true)
if_not true c h = (refl, h)
if_not false c h = absurd (ground (arith, h))

first_of_cases : ready 128 0 ≡ true
unfolding all_ready
first_of_cases = ground (arith, cases_ready)

first-Ready : Ready 128 0
first-Ready = ready-Ready 128 0 first_of_cases

module _ (aes : List ℕ → Block → Block)
    (size : (key : List ℕ) (c : Block) → length (aes key c) ≡ 16) where
  sp_matches :
      is_zero_ℤ (memcmp (take 16 (aes_ctr aes sp_key sp_in 16).out) sp_out)
      ≡ is_zero_ℤ (memcmp (aes sp_key sp_in) sp_out)
  unfolding keystream
  sp_matches =
      let whole : take 16 (aes sp_key sp_in) ≡ aes sp_key sp_in =
        take_all 16 (aes sp_key sp_in) (omega (arith, size sp_key sp_in)) in
      rw (aes_ctr-plain aes size sp_key sp_in 16, append-nil, whole, whole) refl

  first_answers : case_passes aes 128 0 ≡ true → aes fips_key fips_pt ≡ fips_ct
  unfolding case_passes
  first_answers h =
      let plainly = rw (aes_ctr-plain aes size fips_key (start_ctr 0) 128) at h in
      let matches =
        (if_not (block_matches (result aes size 128 0 first-Ready).key _ 128 0) _ plainly).0 in
      let same =
        memcmp_zero (take 16 (aes fips_key fips_pt)) fips_ct sixteen
          (sym (matches_output aes size 128 0 first-Ready _ refl) ∙ matches) in
      sym whole ∙ same
    where
      whole : take 16 (aes fips_key fips_pt) ≡ aes fips_key fips_pt
      whole = take_all 16 (aes fips_key fips_pt) (omega (arith, size fips_key fips_pt))

      sixteen : length (take 16 (aes fips_key fips_pt)) ≡ 16
      sixteen = rw whole (size fips_key fips_pt)

  -- For a cipher of blocks of sixteen bytes, the self test, which runs counter mode over its nineteen
  -- cases, passes exactly when the cipher gives the two published answers: the FIPS-197 ciphertext and
  -- the SP 800-38A output block.
  pub aes_selftest_iff :
      (aes_selftest aes ≡ true) ↔ ((aes fips_key fips_pt ≡ fips_ct) × (aes sp_key sp_in ≡ sp_out))
  unfolding aes_selftest cases_pass
  aes_selftest_iff = (
    (λ h.
        let parts = if_not (cases_pass aes cases) _ h in
        (
          first_answers (if_both (case_passes aes 128 0) _ parts.0).0,
          memcmp_zero (aes sp_key sp_in) sp_out (size sp_key sp_in) (sym sp_matches ∙ parts.1),
        )),
    (λ (a, b).
        rw (cases_pass_lem aes size cases cases_ready a, sp_matches, b) (memcmp_same sp_out)),
  )
