-- ===== src/Frameless/Slots.antt =====
-- Where the handlers of the module stand in the engine's table.
use fast_uuid.Common.{
  ℕ, zero, suc, ◌+◌, ◌-◌, ◌^◌, ◌<◌, ◌≤◌, ◌≡◌, All, ap, ◌∙◌, arith, true, false, ◌||◌, Option, none,
  some, List, ◌∷◌, ◌++◌, length, length-append, ltb, leb, ◌==◌, if◌then◌else◌, Bool-cases, inl, inr,
}
use mathlib.Core.Path.{subst, sym}
use mathlib.Core.List.{append_assoc}
use fast_uuid.Frameless.Runs.{IsEntry, StandsBehind, table_end-append, run_at_here, run_at_stands}
use fast_uuid.Frameless.{run_at, table_end, search_run, first_slot}

-- What the loops accept of the run of handlers `hs` in `table`.
abbrev Accepts : List ℕ → List ℕ → Option ℕ → Type 0
Accepts table hs none = (b : ℕ) → b + length hs ≤ table_end table → run_at table b hs ≡ false
Accepts table hs (some b) = (run_at table b hs ≡ true) × (b + length hs ≤ table_end table)

abbrev FindsFrom : List ℕ → List ℕ → ℕ → ℕ → Option ℕ → Type 0
FindsFrom table hs left base none = (b : ℕ) → base ≤ b → b < base + left → run_at table b hs ≡ false
FindsFrom table hs left base (some b) = (run_at table b hs ≡ true) × (b < base + left)

FindsFrom-suc :
    (table hs : List ℕ) (left base : ℕ) (o : Option ℕ)
    → run_at table base hs ≡ false
    → FindsFrom table hs left (base + 1) o
    → FindsFrom table hs (suc left) base o
FindsFrom-suc table hs left base none miss rest = λ b h k. elim (Bool-cases (ltb base b)) [
  | inl later ↦ rest b (ground (arith, later)) (omega arith)
  | inr here ↦
      let same : base ≡ b = ground (arith, here) in subst (λ c. run_at table c hs ≡ false) same miss
]
FindsFrom-suc table hs left base (some b) miss rest = (rest.0, omega (arith, rest.1))

search_run-FindsFrom :
    (table hs : List ℕ) (left base : ℕ)
    → FindsFrom table hs left base (search_run left base table hs)
unfolding search_run
search_run-FindsFrom table hs zero base = λ b h k. absurd (omega arith)
search_run-FindsFrom table hs (suc left) base = elim (Bool-cases (run_at table base hs)) [
  | inl found ↦
      subst (FindsFrom table hs (suc left) base)
        (sym (ap (λ t. if t then some base else search_run left (base + 1) table hs) found))
        (found, omega arith)
  | inr miss ↦
      subst (FindsFrom table hs (suc left) base)
        (sym (ap (λ t. if t then some base else search_run left (base + 1) table hs) miss))
        (FindsFrom-suc table hs left base (search_run left (base + 1) table hs) miss
          (search_run-FindsFrom table hs left (base + 1)))
]

FindsFrom-Accepts :
    (table hs : List ℕ) (o : Option ℕ)
    → length hs ≤ table_end table
    → FindsFrom table hs (table_end table - length hs + 1) 0 o
    → Accepts table hs o
FindsFrom-Accepts table hs none room found = λ b h. found b (omega arith) (omega arith)
FindsFrom-Accepts table hs (some b) room found = (found.0, omega (arith, found.1))

first_slot-Accepts :
    (table hs : List ℕ)
    → 0 < length hs
    → table_end table < 2 ^ 32 - 1
    → Accepts table hs (first_slot table hs)
unfolding first_slot
first_slot-Accepts table hs some_hs small =
    let last = table_end table - length hs in
    let search = search_run (last + 1) 0 table hs in
    elim (Bool-cases (ltb (table_end table) (length hs))) [
      | inl short ↦
          let refused : (length hs == 0 || ltb (table_end table) (length hs) || leb 4294967295 last)
              ≡ true =
            ground arith in
          subst (Accepts table hs)
            (sym (
              ap (λ t. if t then none else if run_at table last hs then some last else search)
                refused))
            (λ b h. absurd (ground (arith, h, short)))
      | inr room ↦
          let taken : (length hs == 0 || ltb (table_end table) (length hs) || leb 4294967295 last)
              ≡ false =
            ground arith in
          let fits : length hs ≤ table_end table = ground (arith, room) in
          subst (Accepts table hs)
            (sym (
              ap (λ t. if t then none else if run_at table last hs then some last else search)
                taken))
            (elim (Bool-cases (run_at table last hs)) [
              | inl tail ↦
                  subst (Accepts table hs) (sym (ap (λ t. if t then some last else search) tail))
                    (tail, omega arith)
              | inr other ↦
                  subst (Accepts table hs) (sym (ap (λ t. if t then some last else search) other)) (
                    FindsFrom-Accepts table hs search fits
                      (search_run-FindsFrom table hs (last + 1) 0))
            ])
    ]

-- Where the run of handlers `hs` stands among the entries of a table: at the slot `b`, or nowhere.
abbrev pub Finds : List ℕ → List ℕ → Option ℕ → Type 0
Finds entries hs none = (before : List ℕ) → ¬ StandsBehind entries hs before
Finds entries hs (some b) = (before : List ℕ) × (length before ≡ b) × StandsBehind entries hs before

accepted_nowhere :
    (entries rest hs : List ℕ)
    → All IsEntry entries
    → Accepts (entries ++ 0 ∷ rest) hs none
    → (before : List ℕ) → ¬ StandsBehind entries hs before
accepted_nowhere entries rest hs n a before (after, e) =
    let there : run_at (entries ++ 0 ∷ rest) (length before) hs ≡ true =
      ap (λ zs. run_at zs (length before) hs)
        (ap (λ zs. zs ++ 0 ∷ rest) e
          ∙ append_assoc before (hs ++ after) (0 ∷ rest)
          ∙ ap (λ zs. before ++ zs) (append_assoc hs after (0 ∷ rest)))
      ∙ run_at_here hs before (after ++ 0 ∷ rest) in
    let size : length entries ≡ length before + (length hs + length after) =
      ap length e
      ∙ length-append before (hs ++ after)
      ∙ ap (λ n. length before + n) (length-append hs after) in
    let end = table_end-append entries rest n in
    let refused = a (length before) (omega (arith, end, size)) in
    absurd (ground (arith, there, refused))

Accepts-Finds :
    (entries rest hs : List ℕ) (o : Option ℕ)
    → All IsEntry entries
    → Accepts (entries ++ 0 ∷ rest) hs o
    → Finds entries hs o
Accepts-Finds entries rest hs none n a =
    λ before stands. accepted_nowhere entries rest hs n a before stands
Accepts-Finds entries rest hs (some b) n a =
    run_at_stands entries (0 ∷ rest) hs b a.0 (omega (arith, a.1, table_end-append entries rest n))

-- In a table of fewer than 2^32 - 1 entries, which the first 0 ends, the first slot of one handler or
-- more is a place where all of them stand among the entries, one after the other; it is none only where
-- there is no such place.
pub first_slot-Finds :
    (entries rest hs : List ℕ)
    → All IsEntry entries
    → 0 < length hs
    → length entries < 2 ^ 32 - 1
    → Finds entries hs (first_slot (entries ++ 0 ∷ rest) hs)
first_slot-Finds entries rest hs n some_hs small =
    let end = table_end-append entries rest n in
    Accepts-Finds entries rest hs (first_slot (entries ++ 0 ∷ rest) hs) n
      (first_slot-Accepts (entries ++ 0 ∷ rest) hs some_hs (omega (arith, small, end)))
