-- ===== src/Object/Cache.antt =====
-- The kept text of an object is always that of its bytes.
use fast_uuid.Common.{
  ℕ, ◌≡◌, refl, ap, ◌∙◌, Bool, true, false, Option, none, some, Result, List, [], ◌∷◌, length, ◌==◌,
  if◌then◌else◌, ok,
}
use fast_uuid.Uuid.{Uuid, of_list}
use fast_uuid.Hex.{format36}
use fast_uuid.Object.{
  Obj, built, fu_str, serialize, unserialize, clone, create, get_debug_info, return_uuid,
}

-- A text that is kept is that of the bytes.
abbrev pub Kept : Option (List ℕ) → Uuid → Type 0
Kept none u = Unit {0}
Kept (some s) u = s ≡ format36 u

abbrev pub IsCached : Obj → Type 0
IsCached o = Kept o.text o.bytes

-- The object with the text of its bytes.
abbrev pub with_text : Uuid → Obj
with_text u = record { bytes = u; text = some (format36 u) }

-- For an object whose kept text, if any, is that of its bytes, `fu_str` gives the canonical text of
-- the bytes and leaves an object with that text.
pub fu_str-IsCached : (o : Obj) → IsCached o → fu_str o ≡ (format36 o.bytes, with_text o.bytes)
unfolding fu_str built
fu_str-IsCached o h = kept o.text refl h
  where
    kept :
        (t : Option (List ℕ))
        → o.text ≡ t
        → Kept t o.bytes
        → built o t ≡ (format36 o.bytes, with_text o.bytes)
    kept none e k = refl
    kept (some s) e k =
        let same : o.text ≡ some (format36 o.bytes) = e ∙ ap (λ x. some x) k in
        ap (λ x. (x, o)) k ∙ ap (λ x. (format36 o.bytes, record o { text = x })) same

-- Unserializing into any object what an object was serialized to gives an object with the same
-- bytes and no text of the bytes that stood there before.
pub unserialize-serialize :
    (o target : Obj)
    → unserialize (serialize o) target ≡ (ok tt, record { bytes = o.bytes; text = none })
unfolding unserialize serialize
unserialize-serialize o target = refl

-- What happens to an object: its text is read, also for debugging; it is unserialized into, with a
-- payload or none; or it gives way to its clone.
pub data Call : Type 0 where
  read_text debug cloned : Call
  unserialized : Option (List ℕ) → Call

unfoldable pub step : Call → Obj → Obj
unfolding fu_str get_debug_info clone unserialize
step read_text o = (fu_str o).1
step debug o = (get_debug_info o).1
step cloned o = clone o
step (unserialized payload) o = (unserialize payload o).1

unfoldable pub run : List Call → Obj → Obj
unfolding step
run [] o = o
run (c ∷ cs) o = run cs (step c o)

-- The same without objects: the bytes, and whether the text was read since they were set.
abbrev pub next : Call → Uuid × Bool → Uuid × Bool
next read_text (u, seen) = (u, true)
next debug (u, seen) = (u, true)
next cloned (u, seen) = (u, false)
next (unserialized none) (u, seen) = (u, seen)
next (unserialized (some s)) (u, seen) = if length s == 16 then (of_list s, false) else (u, seen)

abbrev pub history : List Call → Uuid × Bool → Uuid × Bool
history [] h = h
history (c ∷ cs) h = history cs (next c h)

abbrev pub holding : Uuid × Bool → Obj
holding (u, true) = with_text u
holding (u, false) = record { bytes = u; text = none }

step-holding :
    (c : Call) (u : Uuid) (seen : Bool) → step c (holding (u, seen)) ≡ holding (next c (u, seen))
unfolding step get_debug_info clone create
step-holding read_text u true = refl
step-holding read_text u false = refl
step-holding debug u true = refl
step-holding debug u false = refl
step-holding cloned u true = refl
step-holding cloned u false = refl
step-holding (unserialized none) u seen = refl
step-holding (unserialized (some s)) u seen = tested (length s == 16) _ _ refl refl
  where
    tested :
        (t : Bool) (x y : Result (Unit {0}) × Obj)
        → x.1 ≡ holding (of_list s, false)
        → y.1 ≡ holding (u, seen)
        → (if t then x else y).1 ≡ holding (if t then (of_list s, false) else (u, seen))
    tested true x y p q = p
    tested false x y p q = q

run-holding : (cs : List Call) (h : Uuid × Bool) → run cs (holding h) ≡ holding (history cs h)
unfolding run
run-holding [] h = refl
run-holding (c ∷ cs) (u, seen) =
    ap (run cs) (step-holding c u seen) ∙ run-holding cs (next c (u, seen))

-- Whatever happens to a new object, it holds the bytes of the last payload of sixteen bytes that it was
-- unserialized from, or those it was made of, and keeps a text exactly when it was read since these
-- bytes were set and it was not cloned after that; the text that it keeps and the one that `fu_str`
-- then gives are those of the bytes that it holds.
pub run-fu_str :
    (cs : List Call) (u : Uuid)
    → (run cs (return_uuid u) ≡ holding (history cs (u, false)))
      × (fu_str (run cs (return_uuid u))
          ≡ (format36 (history cs (u, false)).0, with_text (history cs (u, false)).0))
unfolding return_uuid create
run-fu_str cs u =
    let now = history cs (u, false) in
    let e = run-holding cs (u, false) in (e, ap fu_str e ∙ read now)
  where
    read : (h : Uuid × Bool) → fu_str (holding h) ≡ (format36 h.0, with_text h.0)
    read (v, true) = fu_str-IsCached (holding (v, true)) refl
    read (v, false) = fu_str-IsCached (holding (v, false)) tt
