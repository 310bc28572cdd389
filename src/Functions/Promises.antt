-- ===== src/Functions/Promises.antt =====
-- What the procedural functions return.
use fast_uuid.Common.{
  ℕ, zero, suc, ◌-◌, ◌*◌, ◌/◌, ◌^◌, ◌≤◌, ◌≡◌, refl, sym, ap, arith, Result, ok, err, ltb,
  Bool-cases, inl, inr, ◌&&◌, ◌==◌, if◌then◌else◌, List, [], ◌∷◌, ◌++◌, length, length-append, take,
  drop, All, IsByte,
}
use fast_uuid.Common.Int.{ℤ, pos, negsuc}
use fast_uuid.State.{State, Os, continue, continue_rule, rbuf_size}
use fast_uuid.Uuid.{Uuid, IsBytes, of_list}
use fast_uuid.Layout.Decode.{IsVersion}
use fast_uuid.Random.{rand, rand_fill}
use fast_uuid.Random.Valid.{
  IsValid, Served, rand-Served, rand_fill-Draws, Draws-Served, All-take, All-drop,
}
use fast_uuid.Generate.Bytes.{mark-IsMarked, of_list-IsBytes}
use fast_uuid.Functions.{
  chunk_uuids, v4_batch_loop, gen_v4_batch_n, v4_chunk, fn_random_bytes, max_random_bytes,
}

-- n UUIDs of version 4.
abbrev pub AreV4 : List Uuid → Type 0
AreV4 us = All (λ u. IsBytes u × IsVersion 4 u) us

chunk_uuids-AreV4 :
    (n : ℕ) (chunk : List ℕ)
    → All IsByte chunk
    → (length (chunk_uuids n chunk) ≡ n) × AreV4 (chunk_uuids n chunk)
unfolding chunk_uuids
chunk_uuids-AreV4 zero chunk h = (refl, tt)
chunk_uuids-AreV4 (suc n) chunk h =
    let (e, k) = chunk_uuids-AreV4 n (drop 16 chunk) (All-drop 16 chunk h) in
    let (b, v, _) =
      mark-IsMarked (of_list (take 16 chunk)) 4
        (of_list-IsBytes (take 16 chunk) (All-take 16 chunk h)) (omega arith) in
    (ap suc e, ((b, v), k))

AreV4-append : (us vs : List Uuid) → AreV4 us → AreV4 vs → AreV4 (us ++ vs)
AreV4-append [] vs h k = k
AreV4-append (u ∷ us) vs h k = (h.0, AreV4-append us vs h.1 k)

-- What a batch ends with.
abbrev pub Fills : ℕ → Result (List Uuid) × State → Type 0
Fills n (ok us, t) = (length us ≡ n) × AreV4 us × IsValid t
Fills n (err e, t) = IsValid t

module _ (os : Os) where
  -- A round that takes some of what is left, before rounds that fill the rest.
  round-Fills :
      (taken left : ℕ) (loop : State → Result (List Uuid) × State) (s : State)
      → IsValid s
      → taken ≤ left
      → ((t : State) → IsValid t → Fills (left - taken) (loop t))
      → Fills left (
          continue
            (rand os (taken * 16) s)
            (λ chunk t. continue (loop t) (λ us t'. (ok (chunk_uuids taken chunk ++ us), t'))))
  round-Fills taken left loop s v h fills =
      continue_rule (Served os (taken * 16) s) (Fills left) (rand os (taken * 16) s) _
        (rand-Served os (taken * 16) s v)
        (λ chunk t ((_, b), i, _).
          continue_rule (Fills (left - taken)) (Fills left) (loop t) _ (fills t i)
            (λ us t' (n, k, i'). (
              omega (
                arith,
                n,
                (chunk_uuids-AreV4 taken chunk b).0,
                length-append (chunk_uuids taken chunk) us,
              ),
              AreV4-append (chunk_uuids taken chunk) us (chunk_uuids-AreV4 taken chunk b).1 k,
              i',
            ))
            (λ e t' i'. i'))
        (λ e t (i, _). i)

  v4_batch_loop-Fills :
      (fuel left : ℕ) (s : State)
      → IsValid s
      → left ≤ fuel
      → Fills left (v4_batch_loop os fuel left s)
  unfolding v4_batch_loop
  v4_batch_loop-Fills zero left s v h = (omega arith, tt, v)
  v4_batch_loop-Fills (suc fuel) left s v h = elim (Bool-cases (left == 0)) [
    | inl e ↦ rw e (ground (arith, e), tt, v)
    | inr e ↦
        let taken = if ltb v4_chunk left then v4_chunk else left in
        rw e (
          round-Fills taken left (v4_batch_loop os fuel (left - taken)) s v (ground arith)
            (λ t i. v4_batch_loop-Fills fuel (left - taken) t i (ground (arith, e))))
  ]

  -- In a valid state, a batch of n that returns gives n UUIDs of version 4; and whether it returns
  -- or fails, the state stays valid.
  pub gen_v4_batch_n-Fills : (n : ℕ) (s : State) → IsValid s → Fills n (gen_v4_batch_n os n s)
  unfolding gen_v4_batch_n
  gen_v4_batch_n-Fills n s v = v4_batch_loop-Fills n n s v (omega arith)

  -- The bytes that were asked for, or an exception.
  abbrev pub Gives : ℤ → Result (List ℕ) × State → Type 0
  Gives n (ok xs, t) = (n ≡ pos (length xs)) × (length xs ≤ 2 ^ 24) × All IsByte xs × IsValid t
  Gives n (err e, t) = IsValid t

  Served-Gives :
      (n : ℕ) (s : State) (r : Result (List ℕ) × State)
      → n ≤ 2 ^ 24
      → Served os n s r
      → Gives (pos n) r
  Served-Gives n s (ok xs, t) h ((e, b), i, _) = (ap pos (sym e), omega arith, b, i)
  Served-Gives n s (err x, t) h (i, _) = i

  -- In a valid state, a call for random bytes that returns gives as many bytes as were asked for, at
  -- most 2^24; and whether it returns or fails, the state stays valid.
  pub fn_random_bytes-Gives : (n : ℤ) (s : State) → IsValid s → Gives n (fn_random_bytes os n s)
  unfolding fn_random_bytes
  fn_random_bytes-Gives (negsuc n) s v = v
  fn_random_bytes-Gives (pos zero) s v = v
  fn_random_bytes-Gives (pos (suc m)) s v = elim (Bool-cases (ltb max_random_bytes (suc m))) [
    | inl e ↦ rw e v
    | inr e ↦ elim (Bool-cases (ltb (rbuf_size / 2) (suc m) && ltb (suc m) rbuf_size)) [
      | inl f ↦
          rw (e, f)
            (Served-Gives (suc m) s (rand_fill os (suc m) s) (ground (arith, e))
              (Draws-Served os (suc m) s (rand_fill os (suc m) s) v (rand_fill-Draws os (suc m) s)))
      | inr f ↦
          rw (e, f)
            (Served-Gives (suc m) s (rand os (suc m) s) (ground (arith, e))
              (rand-Served os (suc m) s v))
    ]
  ]
