-- ===== src/Core/Validate/Report.antt =====
-- `get_validated_objects_from_file` against the results of the lines.
use Prim.Native.String.{[] as nil, ◌∷◌ as cons}
use mathlib.Core.List.{append-nil, append_assoc}
use rtls_stream_visualizer.Base.{
  ℕ, suc, String, ◌≡◌, refl, sym, ap, ap₂, ◌∙◌, none, some, List, [], ◌∷◌, ◌++◌,
}
use rtls_stream_visualizer.Base.Raise.{Exc, ok, raise, ◌>>=◌}
use rtls_stream_visualizer.Python.Text.{strip}
use rtls_stream_visualizer.Python.Runtime.{Runtime}
use rtls_stream_visualizer.Core.Validate.{
  ValidationError, ValidatedObject, Validator, Checked, get_validated_object, add_checked, add_line,
  add_lines, get_validated_objects_from_file,
}

module _ {F : Type 0} where
  -- The objects, and the errors of the lines without an object.
  pub objects_of : List (Checked F) → List (ValidatedObject F)
  objects_of [] = []
  objects_of ((some o, es) ∷ cs) = o ∷ objects_of cs
  objects_of ((none, es) ∷ cs) = objects_of cs

  pub errors_of : List (Checked F) → List ValidationError
  errors_of [] = []
  errors_of ((some o, es) ∷ cs) = errors_of cs
  errors_of ((none, es) ∷ cs) = es ++ errors_of cs

  objects_of-append :
      (cs ds : List (Checked F)) → objects_of (cs ++ ds) ≡ objects_of cs ++ objects_of ds
  unfolding objects_of
  objects_of-append [] ds = refl
  objects_of-append ((some o, es) ∷ cs) ds = ap (◌∷◌ o) (objects_of-append cs ds)
  objects_of-append ((none, es) ∷ cs) ds = objects_of-append cs ds

  errors_of-append :
      (cs ds : List (Checked F)) → errors_of (cs ++ ds) ≡ errors_of cs ++ errors_of ds
  unfolding errors_of
  errors_of-append [] ds = refl
  errors_of-append ((some o, es) ∷ cs) ds = errors_of-append cs ds
  errors_of-append ((none, es) ∷ cs) ds =
      ap (λ l. es ++ l) (errors_of-append cs ds)
      ∙ sym (append_assoc es (errors_of cs) (errors_of ds))

module _ (R : Runtime) (V : Validator R.Float) where
  -- What a stripped line yields, if it is not blank.
  result_of : ℕ → String → Exc (List (Checked R.Float))
  result_of n nil = ok []
  result_of n (cons c s) = do checked ← get_validated_object R V (cons c s) n; ok (checked ∷ [])

  -- The results of the lines that are not blank, the first line being the `n`th.
  pub line_results : ℕ → List String → Exc (List (Checked R.Float))
  unfolding result_of
  line_results n [] = ok []
  line_results n (line ∷ lines) = do
    first ← result_of n (strip line)
    rest ← line_results (suc n) lines
    ok (first ++ rest)

  abbrev Report : Type 0
  Report = List (ValidatedObject R.Float) × List ValidationError

  abbrev extended : Report → List (Checked R.Float) → Report
  extended (objects, errors) cs = (objects ++ objects_of cs, errors ++ errors_of cs)

  extended-append :
      (r : Report) (cs ds : List (Checked R.Float))
      → extended (extended r cs) ds ≡ extended r (cs ++ ds)
  extended-append (objects, errors) cs ds =
      ap₂ (λ os es. (os, es))
        (append_assoc objects _ _ ∙ ap (λ l. objects ++ l) (sym (objects_of-append cs ds)))
        (append_assoc errors _ _ ∙ ap (λ l. errors ++ l) (sym (errors_of-append cs ds)))

  add_checked-extended :
      (r : Report) (c : Checked R.Float) → add_checked R V r c ≡ extended r (c ∷ [])
  unfolding add_checked objects_of errors_of
  add_checked-extended (objects, errors) (some o, es) =
      ap (λ l. (objects ++ o ∷ [], l)) (sym (append-nil errors))
  add_checked-extended (objects, errors) (none, es) =
      ap₂ (λ os l. (os, errors ++ l)) (sym (append-nil objects)) (sym (append-nil es))

  one_result :
      (r : Report) (m : Exc (Checked R.Float))
      → (m >>= λ c. ok (add_checked R V r c))
        ≡ ((m >>= λ c. ok (c ∷ [])) >>= λ cs. ok (extended r cs))
  one_result r (ok c) = ap ok (add_checked-extended r c)
  one_result r (raise e) = refl

  add_line-extended :
      (r : Report) (n : ℕ) (line : String)
      → add_line R V r n line ≡ (do cs ← result_of n line; ok (extended r cs))
  unfolding add_line result_of objects_of errors_of
  add_line-extended (objects, errors) n nil =
      ap₂ (λ os es. ok (os, es)) (sym (append-nil objects)) (sym (append-nil errors))
  add_line-extended r n (cons c s) = one_result r (get_validated_object R V (cons c s) n)

  rest_results :
      (r : Report) (cs : List (Checked R.Float)) (rest : Exc (List (Checked R.Float)))
      → (rest >>= λ ds. ok (extended (extended r cs) ds))
        ≡ ((rest >>= λ ds. ok (cs ++ ds)) >>= λ all. ok (extended r all))
  rest_results r cs (ok ds) = ap ok (extended-append r cs ds)
  rest_results r cs (raise e) = refl

  first_results :
      (r : Report) (first rest : Exc (List (Checked R.Float))) (next : Report → Exc Report)
      → ((cs : List (Checked R.Float))
          → next (extended r cs) ≡ (rest >>= λ ds. ok (extended (extended r cs) ds)))
      → ((first >>= λ cs. ok (extended r cs)) >>= next)
        ≡ ((do cs ← first; ds ← rest; ok (cs ++ ds)) >>= λ all. ok (extended r all))
  first_results r (ok cs) rest next h = h cs ∙ rest_results r cs rest
  first_results r (raise e) rest next h = refl

  add_lines-extended :
      (r : Report) (n : ℕ) (lines : List String)
      → add_lines R V r n lines ≡ (do cs ← line_results n lines; ok (extended r cs))
  unfolding add_lines line_results objects_of errors_of
  add_lines-extended (objects, errors) n [] =
      ap₂ (λ os es. ok (os, es)) (sym (append-nil objects)) (sym (append-nil errors))
  add_lines-extended r n (line ∷ lines) =
      ap (λ m. m >>= λ r'. add_lines R V r' (suc n) lines) (add_line-extended r n (strip line))
      ∙ first_results r (result_of n (strip line)) (line_results (suc n) lines) _
          λ cs. add_lines-extended (extended r cs) (suc n) lines

  -- A file yields exactly what its lines that are not blank yield, in the order of the lines: each
  -- object, and every error of each line without one, with the lines counted from 1.
  pub get_validated_objects_from_file_lem :
      (lines : List String)
      → get_validated_objects_from_file R V lines
        ≡ (do cs ← line_results 1 lines; ok (objects_of cs, errors_of cs))
  unfolding get_validated_objects_from_file
  get_validated_objects_from_file_lem lines = add_lines-extended ([], []) 1 lines
