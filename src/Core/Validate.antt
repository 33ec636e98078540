-- ===== src/Core/Validate.antt =====
-- core/validate.py: one JSON line, and a file of them. The compiled schema of `jsonschema` is the
-- parameter `schema_errors`, the errors that its `iter_errors` yields.
pub mod Lines
pub mod Report
use Prim.Native.String.{[] as nil, ◌∷◌ as cons}
use Prim.Native.String
use rtls_stream_visualizer.Base.{ℕ, suc, String, Option, none, some, List, [], ◌∷◌, ◌++◌, map}
use rtls_stream_visualizer.Base.Raise.{Exc, ok, raise, ◌>>=◌}
use rtls_stream_visualizer.Python.Text.{strip}
use rtls_stream_visualizer.Python.Value.{Value}
use rtls_stream_visualizer.Python.Runtime.{Runtime, Loaded, loaded, malformed, failed}

pub record ValidationError : Type 0 where
  pub path : String
  pub line_no : ℕ
  pub message : String

pub record ValidatedObject (F : Type 0) : Type 0 where
  pub origin : String
  pub content : Value F

-- One error of the schema: the keys of its path as texts, and its message.
pub record SchemaError : Type 0 where
  pub keys : List String
  pub message : String

-- `Validator`
pub record Validator (F : Type 0) : Type 0 where
  pub origin : String
  pub schema_errors : Value F → List SchemaError

-- ".".join(keys)
pub dotted : List String → String
dotted [] = nil
dotted (key ∷ []) = key
dotted (key ∷ keys) = String.◌++◌ key (String.◌++◌ "." (dotted keys))

abbrev pub located : ℕ → SchemaError → ValidationError
located line_no e = record { path = dotted e.keys; line_no = line_no; message = e.message }

-- The object and the errors that the methods return.
abbrev pub Checked : Type 0 → Type 0
Checked F = Option (ValidatedObject F) × List ValidationError

module _ (R : Runtime) (V : Validator R.Float) where
  -- `if errors: return None, errors`
  unfoldable pub accept_if : Value R.Float → List ValidationError → Checked R.Float
  accept_if value [] = (some (record { origin = V.origin; content = value }), [])
  accept_if value (e ∷ errors) = (none, e ∷ errors)

  unfoldable pub check_loaded : ℕ → Loaded R.Float → Exc (Checked R.Float)
  unfolding accept_if
  check_loaded line_no (malformed reason) = ok (
    none,
    record { path = ""; line_no = line_no; message = String.◌++◌ "Invalid JSON: " reason } ∷ [],
  )
  check_loaded line_no (failed e) = raise e
  check_loaded line_no (loaded value) =
      ok (accept_if value (map (located line_no) (V.schema_errors value)))

  unfoldable pub get_validated_object : String → ℕ → Exc (Checked R.Float)
  unfolding check_loaded
  get_validated_object line line_no = check_loaded line_no (R.loads line)

  -- What one line that is not blank adds to the objects and the errors.
  unfoldable pub add_checked :
      List (ValidatedObject R.Float) × List ValidationError
      → Checked R.Float
      → List (ValidatedObject R.Float) × List ValidationError
  add_checked (objects, errors) (none, found) = (objects, errors ++ found)
  add_checked (objects, errors) (some object, found) = (objects ++ object ∷ [], errors)

  -- The body of the loop over the lines: a blank one is passed over.
  unfoldable pub add_line :
      List (ValidatedObject R.Float) × List ValidationError
      → ℕ
      → String
      → Exc (List (ValidatedObject R.Float) × List ValidationError)
  unfolding add_checked
  add_line state line_no nil = ok state
  add_line state line_no (cons c s) = do
    checked ← get_validated_object (cons c s) line_no
    ok (add_checked state checked)

  unfoldable pub add_lines :
      List (ValidatedObject R.Float) × List ValidationError
      → ℕ
      → List String
      → Exc (List (ValidatedObject R.Float) × List ValidationError)
  add_lines state line_no [] = ok state
  add_lines state line_no (line ∷ lines) = do
    state' ← add_line state line_no (strip line)
    add_lines state' (suc line_no) lines

  -- The file being the list of its lines.
  unfoldable pub get_validated_objects_from_file :
      List String → Exc (List (ValidatedObject R.Float) × List ValidationError)
  unfolding add_lines
  get_validated_objects_from_file lines = add_lines ([], []) 1 lines
