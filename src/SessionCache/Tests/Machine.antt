-- ===== src/SessionCache/Tests/Machine.antt =====
-- A small packer of values, in place of the library that app/session_cache.py packs with: a program for
-- a machine with a stack, and the machine.
use customer_service.Prelude.{ℕ, zero, suc, ◌≡◌, refl, ap, ◌∙◌, Option, none, some, List, [], ◌∷◌}
use customer_service.Prelude.Text.{Text}
use customer_service.SessionCache.Payloads.{
  Atom, null, integer, minus, text, bytes, Value, atom, array, object, Items, nil, cons, Fields,
  end, field,
}

data Cell : Type 0 where
  chars : Text → Cell
  value : Value → Cell
  list : Items → Cell
  entries : Fields → Cell

-- one order with its number
abbrev step : ℕ → ℕ → List Cell → List Cell
step zero a st = chars [] ∷ st
step (suc zero) a (chars s ∷ st) = chars (a ∷ s) ∷ st
step (suc (suc zero)) a st = value (atom (integer a)) ∷ st
step (suc (suc (suc zero))) a st = value (atom (minus a)) ∷ st
step (suc (suc (suc (suc zero)))) a (chars s ∷ st) = value (atom (text s)) ∷ st
step (suc (suc (suc (suc (suc zero))))) a (chars s ∷ st) = value (atom (bytes s)) ∷ st
step (suc (suc (suc (suc (suc (suc zero)))))) a (list vs ∷ st) = value (array vs) ∷ st
step (suc (suc (suc (suc (suc (suc (suc zero))))))) a st = list nil ∷ st
step (suc (suc (suc (suc (suc (suc (suc (suc zero)))))))) a (value v ∷ (list vs ∷ st)) =
    list (cons v vs) ∷ st
step (suc (suc (suc (suc (suc (suc (suc (suc (suc zero))))))))) a (entries fs ∷ st) =
    value (object fs) ∷ st
step (suc (suc (suc (suc (suc (suc (suc (suc (suc (suc zero)))))))))) a st = entries end ∷ st
step (suc (suc (suc (suc (suc (suc (suc (suc (suc (suc (suc zero))))))))))) a
      (value v ∷ (chars k ∷ (entries fs ∷ st))) =
    entries (field k v fs) ∷ st
step (suc (suc (suc (suc (suc (suc (suc (suc (suc (suc (suc (suc zero)))))))))))) a st =
    value (atom null) ∷ st
step op a st = []

abbrev run : List ℕ → List Cell → List Cell
run (op ∷ (a ∷ rest)) st = run rest (step op a st)
run rest st = st

abbrev pack_text : Text → List ℕ → List ℕ
pack_text [] rest = 0 ∷ (0 ∷ rest)
pack_text (c ∷ s) rest = pack_text s (1 ∷ (c ∷ rest))

abbrev pack_atom : Atom → List ℕ → List ℕ
pack_atom null rest = 12 ∷ (0 ∷ rest)
pack_atom (integer n) rest = 2 ∷ (n ∷ rest)
pack_atom (minus n) rest = 3 ∷ (n ∷ rest)
pack_atom (text s) rest = pack_text s (4 ∷ (0 ∷ rest))
pack_atom (bytes s) rest = pack_text s (5 ∷ (0 ∷ rest))

abbrev mutual
  pub pack : Value → List ℕ → List ℕ
  pack (atom a) rest = pack_atom a rest
  pack (array vs) rest = pack_items vs (6 ∷ (0 ∷ rest))
  pack (object fs) rest = pack_fields fs (9 ∷ (0 ∷ rest))

  pack_items : Items → List ℕ → List ℕ
  pack_items nil rest = 7 ∷ (0 ∷ rest)
  pack_items (cons v vs) rest = pack_items vs (pack v (8 ∷ (0 ∷ rest)))

  pack_fields : Fields → List ℕ → List ℕ
  pack_fields end rest = 10 ∷ (0 ∷ rest)
  pack_fields (field k v fs) rest = pack_fields fs (pack_text k (pack v (11 ∷ (0 ∷ rest))))

abbrev top : List Cell → Option Value
top (value v ∷ []) = some v
top st = none

pub unpack : List ℕ → Option Value
unpack raw = top (run raw [])

run-pack_text :
    (s : Text) (rest : List ℕ) (st : List Cell)
    → run (pack_text s rest) st ≡ run rest (chars s ∷ st)
run-pack_text [] rest st = refl
run-pack_text (c ∷ s) rest st = run-pack_text s (1 ∷ (c ∷ rest)) st

run-pack_atom :
    (a : Atom) (rest : List ℕ) (st : List Cell)
    → run (pack_atom a rest) st ≡ run rest (value (atom a) ∷ st)
run-pack_atom null rest st = refl
run-pack_atom (integer n) rest st = refl
run-pack_atom (minus n) rest st = refl
run-pack_atom (text s) rest st = run-pack_text s (4 ∷ (0 ∷ rest)) st
run-pack_atom (bytes s) rest st = run-pack_text s (5 ∷ (0 ∷ rest)) st

mutual
  run-pack :
      (v : Value) (rest : List ℕ) (st : List Cell) → run (pack v rest) st ≡ run rest (value v ∷ st)
  run-pack (atom a) rest st = run-pack_atom a rest st
  run-pack (array vs) rest st = run-pack_items vs (6 ∷ (0 ∷ rest)) st
  run-pack (object fs) rest st = run-pack_fields fs (9 ∷ (0 ∷ rest)) st

  run-pack_items :
      (vs : Items) (rest : List ℕ) (st : List Cell)
      → run (pack_items vs rest) st ≡ run rest (list vs ∷ st)
  run-pack_items nil rest st = refl
  run-pack_items (cons v vs) rest st =
      run-pack_items vs (pack v (8 ∷ (0 ∷ rest))) st ∙ run-pack v (8 ∷ (0 ∷ rest)) (list vs ∷ st)

  run-pack_fields :
      (fs : Fields) (rest : List ℕ) (st : List Cell)
      → run (pack_fields fs rest) st ≡ run rest (entries fs ∷ st)
  run-pack_fields end rest st = refl
  run-pack_fields (field k v fs) rest st =
      run-pack_fields fs (pack_text k (pack v (11 ∷ (0 ∷ rest)))) st
      ∙ run-pack_text k (pack v (11 ∷ (0 ∷ rest))) (entries fs ∷ st)
      ∙ run-pack v (11 ∷ (0 ∷ rest)) (chars k ∷ (entries fs ∷ st))

pub unpack-pack : (v : Value) → unpack (pack v []) ≡ some v
unfolding unpack
unpack-pack v = ap top (run-pack v [] [])
