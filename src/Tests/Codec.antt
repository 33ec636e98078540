-- ===== src/Tests/Codec.antt =====
-- A codec for the tests that reads back whatever it wrote. Its texts are in a postfix notation, so that
-- a stack is enough to read them: each letter pushes a value or changes the top ones.
use Prim.Native.Char.{Char, code}
use Prim.Native.String.{[] as empty, ◌∷◌ as push}
use rtls_stream_visualizer.Base.{
  ℕ, zero, suc, ◌≡◌, refl, ap, ◌∙◌, String, true, false, List, [], ◌∷◌, if◌then◌else◌, eqb,
}
use rtls_stream_visualizer.Base.Int.{pos, negsuc}
use rtls_stream_visualizer.Python.Value.{
  Integer, int, bool, Value, Items, Fields, null, integer, float, str, arr, obj, nil, cons, end,
  field,
}
use rtls_stream_visualizer.Python.Runtime.{Runtime, Loaded, loaded, malformed}
use rtls_stream_visualizer.Tests.Sample.{lenient}

-- The value, written in front of a text.
emit_ℕ : ℕ → String → String
emit_ℕ zero rest = push "z" rest
emit_ℕ (suc n) rest = emit_ℕ n (push "s" rest)

emit_text : String → String → String
emit_text empty rest = push "e" rest
emit_text (push c s) rest = emit_text s (push "q" (push c rest))

emit_integer : Integer → String → String
unfolding emit_ℕ
emit_integer (bool true) rest = push "t" rest
emit_integer (bool false) rest = push "f" rest
emit_integer (int (pos n)) rest = emit_ℕ n rest
emit_integer (int (negsuc n)) rest = emit_ℕ n (push "m" rest)

mutual
  unfolding emit_integer emit_text

  pub emit : Value String → String → String
  emit null rest = push "n" rest
  emit (integer i) rest = emit_integer i rest
  emit (float x) rest = emit_text x (push "F" rest)
  emit (str s) rest = emit_text s rest
  emit (arr items) rest = emit_items items rest
  emit (obj fs) rest = emit_fields fs rest

  emit_items : Items String → String → String
  emit_items nil rest = push "a" rest
  emit_items (cons v items) rest = emit_items items (emit v (push "A" rest))

  emit_fields : Fields String → String → String
  emit_fields end rest = push "o" rest
  emit_fields (field k v fs) rest = emit_fields fs (emit_text k (emit v (push "O" rest)))

abbrev Stack : Type 0
Stack = List (Value String)

-- The letters that change what is on top; where they do not fit, the stack is emptied.
abbrev grow : Stack → Stack
grow (integer (int (pos n)) ∷ st) = integer (int (pos (suc n))) ∷ st
grow st = []

abbrev negate : Stack → Stack
negate (integer (int (pos n)) ∷ st) = integer (int (negsuc n)) ∷ st
negate st = []

abbrev as_float : Stack → Stack
as_float (str s ∷ st) = float s ∷ st
as_float st = []

abbrev add_item : Stack → Stack
add_item (v ∷ arr items ∷ st) = arr (cons v items) ∷ st
add_item st = []

abbrev add_field : Stack → Stack
add_field (v ∷ str k ∷ obj fs ∷ st) = obj (field k v fs) ∷ st
add_field st = []

abbrev add_char : Char → Stack → Stack
add_char c (str s ∷ st) = str (push c s) ∷ st
add_char c st = []

abbrev step : ℕ → Stack → Stack
step c st =
    if eqb c b'n'
    then null ∷ st
    else if eqb c b't'
    then integer (bool true) ∷ st
    else if eqb c b'f'
    then integer (bool false) ∷ st
    else if eqb c b'z'
    then integer (int (pos 0)) ∷ st
    else if eqb c b'e'
    then str empty ∷ st
    else if eqb c b'a'
    then arr nil ∷ st
    else if eqb c b'o'
    then obj end ∷ st
    else if eqb c b's'
    then grow st
    else if eqb c b'm'
    then negate st
    else if eqb c b'F'
    then as_float st
    else if eqb c b'A'
    then add_item st
    else if eqb c b'O'
    then add_field st
    else []

-- The letter q puts the character behind it in front of the text on top.
pub run : String → Stack → Stack
run empty st = st
run (push q empty) st = step (code q) st
run (push q (push c s)) st =
    let plain = run (push c s) (step (code q) st) in
    let quoted = run s (add_char c st) in if eqb (code q) b'q' then quoted else plain

run-push :
    (q : Char) (s : String) (st : Stack)
    → eqb (code q) b'q' ≡ false
    → run (push q s) st ≡ run s (step (code q) st)
unfolding run
run-push q empty st h = refl
run-push q (push c s) st h = simp h refl

run-emit_ℕ :
    (n : ℕ) (rest : String) (st : Stack)
    → run (emit_ℕ n rest) st ≡ run rest (integer (int (pos n)) ∷ st)
unfolding emit_ℕ
run-emit_ℕ zero rest st = run-push "z" rest st refl
run-emit_ℕ (suc n) rest st =
    run-emit_ℕ n (push "s" rest) st ∙ run-push "s" rest (integer (int (pos n)) ∷ st) refl

run-emit_text : (s rest : String) (st : Stack) → run (emit_text s rest) st ≡ run rest (str s ∷ st)
unfolding emit_text run
run-emit_text empty rest st = run-push "e" rest st refl
run-emit_text (push c s) rest st = run-emit_text s (push "q" (push c rest)) st

run-emit_integer :
    (i : Integer) (rest : String) (st : Stack)
    → run (emit_integer i rest) st ≡ run rest (integer i ∷ st)
unfolding emit_integer
run-emit_integer (bool true) rest st = run-push "t" rest st refl
run-emit_integer (bool false) rest st = run-push "f" rest st refl
run-emit_integer (int (pos n)) rest st = run-emit_ℕ n rest st
run-emit_integer (int (negsuc n)) rest st =
    run-emit_ℕ n (push "m" rest) st ∙ run-push "m" rest (integer (int (pos n)) ∷ st) refl

mutual
  unfolding emit emit_items emit_fields

  run-emit :
      (v : Value String) (rest : String) (st : Stack) → run (emit v rest) st ≡ run rest (v ∷ st)
  run-emit null rest st = run-push "n" rest st refl
  run-emit (integer i) rest st = run-emit_integer i rest st
  run-emit (float x) rest st =
      run-emit_text x (push "F" rest) st ∙ run-push "F" rest (str x ∷ st) refl
  run-emit (str s) rest st = run-emit_text s rest st
  run-emit (arr items) rest st = run-emit_items items rest st
  run-emit (obj fs) rest st = run-emit_fields fs rest st

  run-emit_items :
      (items : Items String) (rest : String) (st : Stack)
      → run (emit_items items rest) st ≡ run rest (arr items ∷ st)
  run-emit_items nil rest st = run-push "a" rest st refl
  run-emit_items (cons v items) rest st =
      run-emit_items items (emit v (push "A" rest)) st
      ∙ run-emit v (push "A" rest) (arr items ∷ st)
      ∙ run-push "A" rest (v ∷ arr items ∷ st) refl

  run-emit_fields :
      (fs : Fields String) (rest : String) (st : Stack)
      → run (emit_fields fs rest) st ≡ run rest (obj fs ∷ st)
  run-emit_fields end rest st = run-push "o" rest st refl
  run-emit_fields (field k v fs) rest st =
      run-emit_fields fs (emit_text k (emit v (push "O" rest))) st
      ∙ run-emit_text k (emit v (push "O" rest)) (obj fs ∷ st)
      ∙ run-emit v (push "O" rest) (str k ∷ obj fs ∷ st)
      ∙ run-push "O" rest (v ∷ str k ∷ obj fs ∷ st) refl

abbrev read : Stack → Loaded String
read (v ∷ []) = loaded v
read st = malformed "no value"

abbrev pub codec : Runtime
codec = record lenient { loads = λ s. read (run s []); dumps = λ v. emit v "" }

pub loads-dumps : (v : Value String) → codec.loads (codec.dumps v) ≡ loaded v
unfolding run
loads-dumps v = ap read (run-emit v "" [])
