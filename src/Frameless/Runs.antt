-- ===== src/Frameless/Runs.antt =====
-- What `fu_flf_run_at` and the end of the table say of the list of entries.
use fast_uuid.Common.{
  ℕ, zero, suc, ◌+◌, ◌≤◌, ◌≡◌, ◌≢◌, refl, ap, ◌∙◌, arith, true, false, not, List, [], ◌∷◌, ◌++◌,
  All, get_or, length, length-append, ◌==◌, if◌then◌else◌,
}
use mathlib.Core.Path.{subst, sym}
use mathlib.Core.List.{append_assoc}
use fast_uuid.Frameless.{run_at, table_end}

abbrev pub IsEntry : ℕ → Type 0
IsEntry h = h ≢ 0

-- The run `hs` stands in `entries` behind `before`.
abbrev pub StandsBehind : List ℕ → List ℕ → List ℕ → Type 0
StandsBehind entries hs before = (after : List ℕ) × (entries ≡ before ++ (hs ++ after))

pub table_end-length : (hs : List ℕ) → All IsEntry hs → table_end hs ≡ length hs
unfolding table_end
table_end-length [] h = refl
table_end-length (x ∷ hs) h =
    let rest = table_end-length hs h.1 in let nonzero = h.0 in ground arith

-- The first 0 ends the table.
pub table_end-append : (hs rest : List ℕ) → All IsEntry hs → table_end (hs ++ 0 ∷ rest) ≡ length hs
unfolding table_end
table_end-append [] rest h = refl
table_end-append (x ∷ hs) rest h =
    let e = table_end-append hs rest h.1 in let nonzero = h.0 in ground arith

get_or-append : (old hs : List ℕ) (x : ℕ) → get_or (old ++ x ∷ hs) (length old) 0 ≡ x
get_or-append [] hs x = refl
get_or-append (y ∷ old) hs x = get_or-append old hs x

pub length-snoc : (old : List ℕ) (x : ℕ) → length (old ++ x ∷ []) ≡ length old + 1
length-snoc old x = length-append old (x ∷ [])

pub run_at_here :
    (hs before after : List ℕ) → run_at (before ++ (hs ++ after)) (length before) hs ≡ true
unfolding run_at
run_at_here [] before after = refl
run_at_here (x ∷ hs) before after =
    let here = get_or-append before (hs ++ after) x in
    let rest : run_at (before ++ x ∷ (hs ++ after)) (length before + 1) hs ≡ true =
      subst (λ n. run_at (before ++ x ∷ (hs ++ after)) n hs ≡ true) (length-snoc before x)
        (ap (λ zs. run_at zs (length (before ++ x ∷ [])) hs)
            (sym (append_assoc before (x ∷ []) (hs ++ after)))
          ∙ run_at_here hs (before ++ x ∷ []) after) in
    ground arith

-- An entry before the base does not matter.
run_at_later : (x : ℕ) (xs hs : List ℕ) (b : ℕ) → run_at (x ∷ xs) (suc b) hs ≡ run_at xs b hs
unfolding run_at
run_at_later x xs [] b = refl
run_at_later x xs (h ∷ hs) b =
    let next : suc b + 1 ≡ suc (b + 1) = omega arith in
    ap (λ t. if not (get_or xs b 0 == h) then false else t)
      (ap (λ n. run_at (x ∷ xs) n hs) next ∙ run_at_later x xs hs (b + 1))

-- A run that the loop accepts stands in the entries.
stands_first :
    (xs rest hs : List ℕ)
    → run_at (xs ++ rest) 0 hs ≡ true
    → length hs ≤ length xs
    → StandsBehind xs hs []
unfolding run_at
stands_first xs rest [] e h = (xs, refl)
stands_first [] rest (y ∷ hs) e h = absurd (omega arith)
stands_first (x ∷ xs) rest (y ∷ hs) e h =
    let head : x ≡ y = ground (arith, e) in
    let tail : run_at (x ∷ (xs ++ rest)) 1 hs ≡ true = ground (arith, e) in
    let (after, q) =
      stands_first xs rest hs (sym (run_at_later x (xs ++ rest) hs 0) ∙ tail) (omega arith) in
    (after, rw (head, q) refl)

pub run_at_stands :
    (xs rest hs : List ℕ) (b : ℕ)
    → run_at (xs ++ rest) b hs ≡ true
    → b + length hs ≤ length xs
    → (before : List ℕ) × (length before ≡ b) × StandsBehind xs hs before
run_at_stands xs rest hs zero e h = ([], refl, stands_first xs rest hs e (omega arith))
run_at_stands [] rest hs (suc b) e h = absurd (omega arith)
run_at_stands (x ∷ xs) rest hs (suc b) e h =
    let (before, l, stands) =
      run_at_stands xs rest hs b (sym (run_at_later x (xs ++ rest) hs b) ∙ e) (omega arith) in
    (x ∷ before, ap suc l, (stands.0, ap (λ zs. x ∷ zs) stands.1))
