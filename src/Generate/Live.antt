-- ===== src/Generate/Live.antt =====
-- While the operating system answers, the generators return until a timestamp is exhausted.
use fast_uuid.Common.{
  ℕ, ◌-◌, ◌^◌, ◌<◌, ◌≡◌, true, false, Bool, none, some, Option, List, ◌++◌, Result, ok,
  if◌then◌else◌,
}
use fast_uuid.Common.Int.{ℤ, pos, negsuc}
use fast_uuid.State.{State, Os, continue}
use fast_uuid.Uuid.{Uuid, of_list, set_ver_var}
use fast_uuid.Ctr.{le_bytes}
use fast_uuid.Layout.{place_node, place_dce, stamp_v1, stamp_v6}
use fast_uuid.Random.{rand, xs_next}
use fast_uuid.Random.Live.{IsOk, IsOk-returned, continue-IsOk, Answers, rand-IsOk, xs_next-IsOk}
use fast_uuid.Clock.{greg_now, greg_monotonic, v2_monotonic}
use fast_uuid.Generate.{
  choose_clockseq, choose_node, lay_clockseq_node, lay_v1, lay_v6, gen_v1_ex, gen_v6_ex, gen_v2,
  gen_v4, gen_v4_fast,
}
use fast_uuid.V7.{v7_at_ms, gen_v7}
use fast_uuid.Clock.Live.{Ticks, Keeps-IsOk, greg_now-Keeps, greg_monotonic-IsOk, v2_monotonic-IsOk}
use fast_uuid.V7.Live.{gen_v7-IsOk, v7_at_ms-IsOk}

-- The call returns a UUID.
abbrev pub Returns : Result Uuid × State → Type 0
Returns r = (u : Uuid) × (t : State) × (r ≡ (ok u, t))

module _ (os : Os) (answers : Answers os) (ticks : Ticks os) where
  choose_clockseq-IsOk : (cs : ℤ) (s : State) → IsOk (choose_clockseq os cs s)
  unfolding choose_clockseq
  choose_clockseq-IsOk (pos cs) s = tt
  choose_clockseq-IsOk (negsuc n) s =
      continue-IsOk (rand os 2 s) _ (rand-IsOk os answers 2 s) (λ r t _. tt)

  choose_node-IsOk : (node : Option (List ℕ)) (s : State) → IsOk (choose_node os node s)
  unfolding choose_node
  choose_node-IsOk (some node) s = tt
  choose_node-IsOk none s = continue-IsOk (rand os 6 s) _ (rand-IsOk os answers 6 s) (λ r t _. tt)

  -- The two choices one after the other.
  apart-IsOk :
      (b : Uuid) (node : Option (List ℕ)) (cs : ℤ) (s : State)
      → IsOk (
          continue
            (choose_clockseq os cs s)
            (λ c t. continue (choose_node os node t) (λ nd t'. (ok (place_node b c nd), t'))))
  apart-IsOk b node cs s =
      continue-IsOk (choose_clockseq os cs s)
        (λ c t. continue (choose_node os node t) (λ nd t'. (ok (place_node b c nd), t')))
        (choose_clockseq-IsOk cs s)
        λ c t _.
          continue-IsOk (choose_node os node t) (λ nd t'. (ok (place_node b c nd), t'))
            (choose_node-IsOk node t) (λ nd t' _. tt)

  lay_clockseq_node-IsOk :
      (b : Uuid) (node : Option (List ℕ)) (cs : ℤ) (s : State)
      → IsOk (lay_clockseq_node os b node cs s)
  unfolding lay_clockseq_node
  lay_clockseq_node-IsOk b none (negsuc n) s =
      continue-IsOk (rand os 8 s) _ (rand-IsOk os answers 8 s) (λ r t _. tt)
  lay_clockseq_node-IsOk b none (pos cs) s = apart-IsOk b none (pos cs) s
  lay_clockseq_node-IsOk b (some node) (pos cs) s = apart-IsOk b (some node) (pos cs) s
  lay_clockseq_node-IsOk b (some node) (negsuc n) s = apart-IsOk b (some node) (negsuc n) s

  gen_v1_ex-IsOk :
      (b : Uuid) (node : Option (List ℕ)) (cs : ℤ) (s : State)
      → s.greg_last < 2 ^ 60 - 1
      → IsOk (gen_v1_ex os b node cs s)
  unfolding gen_v1_ex lay_v1
  gen_v1_ex-IsOk b node cs s h =
      continue-IsOk (greg_monotonic os s) (λ g t. lay_v1 os b g node cs t)
        (greg_monotonic-IsOk os ticks s h)
        (λ g t _. lay_clockseq_node-IsOk (stamp_v1 b g) node cs t)

  gen_v6_ex-IsOk :
      (b : Uuid) (node : Option (List ℕ)) (cs : ℤ) (s : State)
      → s.greg_last < 2 ^ 60 - 1
      → IsOk (gen_v6_ex os b node cs s)
  unfolding gen_v6_ex lay_v6
  gen_v6_ex-IsOk b node cs s h =
      continue-IsOk (greg_monotonic os s) (λ g t. lay_v6 os b g node cs t)
        (greg_monotonic-IsOk os ticks s h)
        (λ g t _. lay_clockseq_node-IsOk (stamp_v6 b g) node cs t)

  stamp-IsOk :
      (monotonic : Bool) (s : State)
      → s.v2_last < 2 ^ 28 - 1
      → IsOk (if monotonic then v2_monotonic os s else greg_now os s)
  stamp-IsOk true s h = v2_monotonic-IsOk os ticks s h
  stamp-IsOk false s h = Keeps-IsOk (greg_now os s) (greg_now-Keeps os ticks (λ t. Unit {0}) s tt)

  gen_v2-IsOk :
      (b : Uuid) (id domain : ℕ) (node : Option (List ℕ)) (cs : ℤ) (monotonic : Bool) (s : State)
      → s.v2_last < 2 ^ 28 - 1
      → IsOk (gen_v2 os b id domain node cs monotonic s)
  unfolding gen_v2 lay_v1
  gen_v2-IsOk b id domain node cs monotonic s h =
      continue-IsOk (if monotonic then v2_monotonic os s else greg_now os s)
        (λ g t. continue (lay_v1 os b g node cs t) (λ u t'. (ok (place_dce u id domain), t')))
        (stamp-IsOk monotonic s h)
        λ g t _.
          continue-IsOk (lay_v1 os b g node cs t) (λ u t'. (ok (place_dce u id domain), t'))
            (lay_clockseq_node-IsOk (stamp_v1 b g) node cs t) (λ u t' _. tt)

  gen_v4-IsOk : (s : State) → IsOk (gen_v4 os s)
  unfolding gen_v4
  gen_v4-IsOk s = continue-IsOk (rand os 16 s) _ (rand-IsOk os answers 16 s) (λ r t _. tt)

  gen_v4_fast-IsOk : (s : State) → IsOk (gen_v4_fast os s)
  unfolding gen_v4_fast
  gen_v4_fast-IsOk s =
      continue-IsOk (xs_next os s)
        (λ a t.
          continue (xs_next os t)
            (λ c t'. (ok (set_ver_var (of_list (le_bytes 8 a ++ le_bytes 8 c)) 0x40), t')))
        (xs_next-IsOk os answers s)
        λ a t _. continue-IsOk (xs_next os t) _ (xs_next-IsOk os answers t) (λ c t' _. tt)

  -- While the generator of the operating system answers and its clock ticks, every generator returns a
  -- UUID from any state with the mark of versions 1 and 6 and the time key of version 7 below
  -- 2^60 - 1 and the mark of version 2 below 2^28 - 1, version 7 also at a given time of 48 bits.
  pub generators-Returns :
      (b : Uuid) (node : Option (List ℕ)) (cs : ℤ) (id domain ms : ℕ) (monotonic : Bool) (s : State)
      → s.greg_last < 2 ^ 60 - 1
      → s.v2_last < 2 ^ 28 - 1
      → s.v7_key < 2 ^ 60 - 1
      → ms < 2 ^ 48
      → Returns (gen_v1_ex os b node cs s)
        × Returns (gen_v2 os b id domain node cs monotonic s)
        × Returns (gen_v4 os s)
        × Returns (gen_v4_fast os s)
        × Returns (gen_v6_ex os b node cs s)
        × Returns (gen_v7 os s)
        × Returns (v7_at_ms os (pos ms) s)
  generators-Returns b node cs id domain ms monotonic s h1 h2 h7 hm = (
    IsOk-returned (gen_v1_ex os b node cs s) (gen_v1_ex-IsOk b node cs s h1),
    IsOk-returned (gen_v2 os b id domain node cs monotonic s)
        (gen_v2-IsOk b id domain node cs monotonic s h2),
    IsOk-returned (gen_v4 os s) (gen_v4-IsOk s),
    IsOk-returned (gen_v4_fast os s) (gen_v4_fast-IsOk s),
    IsOk-returned (gen_v6_ex os b node cs s) (gen_v6_ex-IsOk b node cs s h1),
    IsOk-returned (gen_v7 os s) (gen_v7-IsOk os answers ticks s h7),
    IsOk-returned (v7_at_ms os (pos ms) s) (v7_at_ms-IsOk os answers ticks ms s hm),
  )
