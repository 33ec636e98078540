-- ===== src/Core/Validate/Lines.antt =====
-- What a line, and a file of lines, yields.
use Prim.Native.String.{[] as nil, ◌∷◌ as cons}
use rtls_stream_visualizer.Base.Raise.{Returns, Returns-bind}
use rtls_stream_visualizer.Base.{
  ℕ, suc, ◌+◌, ◌≤◌, ◌<◌, String, ◌≡◌, refl, subst, none, some, List, [], ◌∷◌, map, length, All,
  All-append, arith,
}
use rtls_stream_visualizer.Python.Text.{strip}
use rtls_stream_visualizer.Python.Value.{Value}
use rtls_stream_visualizer.Python.Runtime.{Runtime, Loaded, loaded, malformed, failed}
use rtls_stream_visualizer.Core.Validate.{
  ValidationError, ValidatedObject, SchemaError, Validator, located, Checked, accept_if,
  check_loaded, get_validated_object, add_checked, add_line, add_lines,
  get_validated_objects_from_file,
}

module _ (R : Runtime) (V : Validator R.Float) where
  -- The object has the validator's origin and meets its schema.
  abbrev pub IsValid : ValidatedObject R.Float → Type 0
  IsValid o = (o.origin ≡ V.origin) × (V.schema_errors o.content ≡ [])

  -- One valid object and no errors, or no object and some errors, each with the line's number.
  abbrev pub IsChecked : ℕ → Checked R.Float → Type 0
  IsChecked n (some o, []) = IsValid o
  IsChecked n (some o, e ∷ es) = ⊥
  IsChecked n (none, []) = ⊥
  IsChecked n (none, e ∷ es) = All (λ x. x.line_no ≡ n) (e ∷ es)

  All-located :
      (n : ℕ) (errors : List SchemaError) → All (λ x. x.line_no ≡ n) (map (located n) errors)
  All-located n [] = tt
  All-located n (e ∷ es) = (refl, All-located n es)

  accept_if-IsChecked :
      (n : ℕ) (v : Value R.Float) (errors : List SchemaError)
      → V.schema_errors v ≡ errors
      → IsChecked n (accept_if R V v (map (located n) errors))
  unfolding accept_if
  accept_if-IsChecked n v [] h = (refl, h)
  accept_if-IsChecked n v (e ∷ es) h = All-located n (e ∷ es)

  check_loaded-IsChecked :
      (n : ℕ) (l : Loaded R.Float) → Returns (IsChecked n) (check_loaded R V n l)
  unfolding check_loaded
  check_loaded-IsChecked n (malformed reason) = (refl, tt)
  check_loaded-IsChecked n (failed e) = tt
  check_loaded-IsChecked n (loaded v) = accept_if-IsChecked n v (V.schema_errors v) refl

  pub get_validated_object-IsChecked :
      (line : String) (n : ℕ) → Returns (IsChecked n) (get_validated_object R V line n)
  unfolding get_validated_object
  get_validated_object-IsChecked line n = check_loaded-IsChecked n (R.loads line)

  abbrev pub Report : Type 0
  Report = List (ValidatedObject R.Float) × List ValidationError

  -- Valid objects only, and errors at lines before `n` only.
  abbrev pub IsReport : ℕ → Report → Type 0
  IsReport n (objects, errors) =
      All IsValid objects × All (λ e. (1 ≤ e.line_no) × (e.line_no < n)) errors

  All-lt_mono :
      (n m : ℕ) (es : List ValidationError)
      → n ≤ m
      → All (λ e. (1 ≤ e.line_no) × (e.line_no < n)) es
      → All (λ e. (1 ≤ e.line_no) × (e.line_no < m)) es
  All-lt_mono n m [] le h = tt
  All-lt_mono n m (e ∷ es) le ((p, q), h) = ((p, omega arith), All-lt_mono n m es le h)

  All-lt_of_eq :
      (n : ℕ) (es : List ValidationError)
      → 1 ≤ n
      → All (λ e. e.line_no ≡ n) es
      → All (λ e. (1 ≤ e.line_no) × (e.line_no < suc n)) es
  All-lt_of_eq n [] pos h = tt
  All-lt_of_eq n (e ∷ es) pos (p, h) = ((omega arith, omega arith), All-lt_of_eq n es pos h)

  add_checked-IsReport :
      (n : ℕ) (r : Report) (c : Checked R.Float)
      → 1 ≤ n
      → IsReport n r
      → IsChecked n c
      → IsReport (suc n) (add_checked R V r c)
  unfolding add_checked
  add_checked-IsReport n (objects, errors) (some o, []) pos (ho, he) h = (
    All-append IsValid objects (o ∷ []) ho (h, tt),
    All-lt_mono n (suc n) errors (omega arith) he,
  )
  add_checked-IsReport n (objects, errors) (some o, e ∷ es) pos (ho, he) h = absurd h
  add_checked-IsReport n (objects, errors) (none, []) pos (ho, he) h = absurd h
  add_checked-IsReport n (objects, errors) (none, e ∷ es) pos (ho, he) h = (
    ho,
    All-append _ errors (e ∷ es) (All-lt_mono n (suc n) errors (omega arith) he)
        (All-lt_of_eq n (e ∷ es) pos h),
  )

  add_line-IsReport :
      (n : ℕ) (r : Report) (line : String)
      → 1 ≤ n
      → IsReport n r
      → Returns (IsReport (suc n)) (add_line R V r n line)
  unfolding add_line
  add_line-IsReport n (objects, errors) nil pos (ho, he) =
      (ho, All-lt_mono n (suc n) errors (omega arith) he)
  add_line-IsReport n r (cons c s) pos h =
      Returns-bind (IsReport (suc n)) (get_validated_object R V (cons c s) n) _ λ checked made.
        add_checked-IsReport n r checked pos h
          (subst (Returns (IsChecked n)) made (get_validated_object-IsChecked (cons c s) n))

  add_lines-IsReport :
      (n : ℕ) (r : Report) (lines : List String)
      → 1 ≤ n
      → IsReport n r
      → Returns (IsReport (n + length lines)) (add_lines R V r n lines)
  unfolding add_lines
  add_lines-IsReport n (objects, errors) [] pos (ho, he) =
      (ho, All-lt_mono n (n + 0) errors (omega arith) he)
  add_lines-IsReport n r (line ∷ lines) pos h =
      Returns-bind (IsReport (n + suc (length lines))) (add_line R V r n (strip line)) _ λ r' made.
        subst (λ m. Returns (IsReport m) (add_lines R V r' (suc n) lines)) (omega arith)
          (add_lines-IsReport (suc n) r' lines (omega arith)
            (subst (Returns (IsReport (suc n))) made (add_line-IsReport n r (strip line) pos h)))

  -- Each object that a file yields has the validator's origin and meets its schema, and each error
  -- names a line of the file, the lines being counted from 1.
  pub get_validated_objects_from_file-IsReport :
      (lines : List String)
      → Returns (IsReport (1 + length lines)) (get_validated_objects_from_file R V lines)
  unfolding get_validated_objects_from_file
  get_validated_objects_from_file-IsReport lines =
      add_lines-IsReport 1 ([], []) lines (omega arith) (tt, tt)
