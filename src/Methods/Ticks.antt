-- ===== src/Methods/Ticks.antt =====
-- `fromDateTime`: the ticks of a date are within a version 1 timestamp and stand for the date.
use fast_uuid.Common.{
  ℕ, suc, ◌+◌, ◌-◌, ◌*◌, ◌/◌, ◌%◌, ◌^◌, ◌<◌, ◌≤◌, ◌≡◌, refl, ◌≢◌, ap, ◌∙◌, arith, true, false, ◌||◌,
  ltb, leb, Bool-cases, inl, inr, Result, ok, err,
}
use mathlib.Core.Path.{subst}
use fast_uuid.Common.Int.{ℤ, pos, negsuc, pos_part, neg_part, sub_ℕ, ltb_ℤ, ◌+ℤ◌, ◌*ℤ◌}
use fast_uuid.Layout.{greg_unix_epoch, ticks_time}
use fast_uuid.Methods.{ticks_arg, in_range}

sub_ℕ-pos : (a b : ℕ) → b ≤ a → sub_ℕ a b ≡ pos (a - b)
sub_ℕ-pos a b h = let e : leb b a ≡ true = ground (arith, h) in rw e refl

sub_ℕ-negsuc : (a b : ℕ) → a < b → sub_ℕ a b ≡ negsuc (b - a - 1)
sub_ℕ-negsuc a b h = let e : leb b a ≡ false = ground (arith, h) in rw e refl

pos_seconds : (n : ℕ) → pos n *ℤ pos 10000000 ≡ pos (n * 10000000)
unfolding ◌*ℤ◌
pos_seconds n =
    sub_ℕ-pos (n * 10000000 + 0 * 0) (n * 0 + 0 * 10000000) (omega arith) ∙ ap pos (omega arith)

negsuc_seconds : (n : ℕ) → negsuc n *ℤ pos 10000000 ≡ negsuc (suc n * 10000000 - 1)
unfolding ◌*ℤ◌
negsuc_seconds n =
    sub_ℕ-negsuc (0 * 10000000 + suc n * 0) (0 * 0 + suc n * 10000000) (omega arith)
    ∙ ap negsuc (omega arith)

pos_add : (a b : ℕ) → pos a +ℤ pos b ≡ pos (a + b)
unfolding ◌+ℤ◌
pos_add a b = sub_ℕ-pos (a + b) (0 + 0) (omega arith) ∙ ap pos (omega arith)

negsuc_add : (a b : ℕ) → negsuc a +ℤ pos b ≡ sub_ℕ b (suc a)
unfolding ◌+ℤ◌
negsuc_add a b =
    let e : 0 + b ≡ b = omega arith in let f : suc a + 0 ≡ suc a = omega arith in rw (e, f) refl

-- The date as ticks since 1582-10-15.
abbrev ticks : ℤ → ℕ → ℤ
ticks secs micros = secs *ℤ pos 10000000 +ℤ pos (micros * 10) +ℤ pos greg_unix_epoch

ticks_pos : (n m : ℕ) → ticks (pos n) m ≡ pos (n * 10000000 + m * 10 + greg_unix_epoch)
ticks_pos n m = rw (pos_seconds n, pos_add, pos_add) refl

ticks_negsuc :
    (n m : ℕ) → m < 1000000 → ticks (negsuc n) m ≡ sub_ℕ greg_unix_epoch (suc n * 10000000 - m * 10)
ticks_negsuc n m h =
    let below : m * 10 < suc (suc n * 10000000 - 1) = omega (arith, h) in
    let count : suc (suc (suc n * 10000000 - 1) - m * 10 - 1) ≡ suc n * 10000000 - m * 10 =
      omega (arith, h) in
    rw
      (
        negsuc_seconds n,
        negsuc_add,
        sub_ℕ-negsuc (m * 10) (suc (suc n * 10000000 - 1)) below,
        negsuc_add,
        count,
      )
      refl

-- Ticks of 60 bits that are decoded to the date; a date is refused where no such ticks are.
abbrev pub TicksOf : ℤ × ℕ → Result ℕ → Type 0
TicksOf d (ok g) = (ticks_time g ≡ d) × (g < 2 ^ 60)
TicksOf d (err e) = (g : ℕ) → g < 2 ^ 60 → ticks_time g ≢ d

sub_ℕ_parts : (a b : ℕ) → pos_part (sub_ℕ a b) + b ≡ neg_part (sub_ℕ a b) + a
sub_ℕ_parts a b = ground arith

-- The date of ticks, without subtraction.
ticks_time_parts :
    (g : ℕ) (secs : ℤ) (m : ℕ)
    → ticks_time g ≡ (secs, m)
    → (pos_part secs + 12219292800 ≡ neg_part secs + g / 10000000) × (g % 10000000 / 10 ≡ m)
unfolding ticks_time
ticks_time_parts g secs m h =
    let e : sub_ℕ (g / 10000000) 12219292800 ≡ secs = ap (λ (d : ℤ × ℕ). d.0) h in
    (
      subst (λ z. pos_part z + 12219292800 ≡ neg_part z + g / 10000000) e
          (sub_ℕ_parts (g / 10000000) 12219292800),
      ap (λ (d : ℤ × ℕ). d.1) h,
    )

in_range-TicksOf :
    (n m g : ℕ)
    → ticks_time g ≡ (pos n, m)
    → g ≡ n * 10000000 + m * 10 + greg_unix_epoch
    → TicksOf (pos n, m) (in_range (pos g))
unfolding in_range
in_range-TicksOf n m g e k = elim (Bool-cases (ltb (2 ^ 60 - 1) g)) [
  | inl f ↦
      rw f (λ g' h e'.
        let p = ticks_time_parts g' (pos n) m e' in absurd (ground (arith, f, p.0, p.1)))
  | inr f ↦ rw f (e, ground (arith, f))
]

pos_time :
    (n m : ℕ) → m < 1000000 → ticks_time (n * 10000000 + m * 10 + greg_unix_epoch) ≡ (pos n, m)
unfolding ticks_time
pos_time n m h =
    let g = n * 10000000 + m * 10 + greg_unix_epoch in
    let secs : g / 10000000 ≡ n + 12219292800 = omega (arith, h) in
    let micros : g % 10000000 / 10 ≡ m = omega (arith, h) in
    let back : n + 12219292800 - 12219292800 ≡ n = omega arith in
    rw (secs, micros, sub_ℕ-pos (n + 12219292800) 12219292800 (omega arith), back) refl

negsuc_time :
    (n m : ℕ)
    → m < 1000000
    → suc n * 10000000 - m * 10 ≤ greg_unix_epoch
    → ticks_time (greg_unix_epoch - (suc n * 10000000 - m * 10)) ≡ (negsuc n, m)
unfolding ticks_time
negsuc_time n m h k =
    let g = greg_unix_epoch - (suc n * 10000000 - m * 10) in
    let secs : g / 10000000 ≡ 12219292800 - suc n = omega (arith, h, k) in
    let micros : g % 10000000 / 10 ≡ m = omega (arith, h, k) in
    let back : 12219292800 - (12219292800 - suc n) - 1 ≡ n = omega (arith, h, k) in
    rw (secs, micros, sub_ℕ-negsuc (12219292800 - suc n) 12219292800 (omega (arith, h, k)), back)
      refl

in_range-ticks : (secs : ℤ) (m : ℕ) → m < 1000000 → TicksOf (secs, m) (in_range (ticks secs m))
unfolding in_range
in_range-ticks (pos n) m h =
    rw (ticks_pos n m)
      (in_range-TicksOf n m (n * 10000000 + m * 10 + greg_unix_epoch) (pos_time n m h) refl)
in_range-ticks (negsuc n) m h =
    rw (ticks_negsuc n m h) (elim (Bool-cases (leb (suc n * 10000000 - m * 10) greg_unix_epoch)) [
      | inl e ↦
          let g = greg_unix_epoch - (suc n * 10000000 - m * 10) in
          let f : ltb (2 ^ 60 - 1) g ≡ false = ground arith in
          rw (e, f) (negsuc_time n m h (ground (arith, e)), omega arith)
      | inr e ↦ rw e (λ g' h' e'.
          let p = ticks_time_parts g' (negsuc n) m e' in absurd (ground (arith, e, p.0, p.1)))
    ])

-- The ticks of a date decode to it and fit 60 bits; a date is refused exactly where no ticks do.
pub ticks_arg-TicksOf : (secs : ℤ) (m : ℕ) → m < 1000000 → TicksOf (secs, m) (ticks_arg (secs, m))
unfolding ticks_arg
ticks_arg-TicksOf secs m h =
    elim (Bool-cases (ltb_ℤ secs (negsuc 199999999999) || ltb_ℤ (pos 200000000000) secs)) [
      | inl e ↦ rw e (λ g' h' e'.
          let p = ticks_time_parts g' secs m e' in absurd (ground (arith, e, p.0, p.1)))
      | inr e ↦ rw e (in_range-ticks secs m h)
    ]
