-- ===== src/Python/Value.antt =====
-- JSON values as `json.loads` gives them. A `bool` is an `int` for `isinstance`; `F` is the type of
-- floats.
use rtls_stream_visualizer.Base.{◌≡◌, refl, ap, Bool, String, Option, [], ◌∷◌}
use rtls_stream_visualizer.Base.Int.{ℤ, pos}
use rtls_stream_visualizer.Base.Dict
use rtls_stream_visualizer.Base.Dict.{Dict}

-- The instances of `int`.
pub data Integer : Type 0 where
  int : ℤ → Integer
  bool : Bool → Integer

-- The number that an instance of `int` stands for.
abbrev pub number_of : Integer → ℤ
number_of (int n) = n
number_of (bool Bool.false) = pos 0
number_of (bool Bool.true) = pos 1

mutual
  pub data Value (F : Type 0) : Type 0 where
    null : Value F
    integer : Integer → Value F
    float : F → Value F
    str : String → Value F
    arr : Items F → Value F
    obj : Fields F → Value F

  pub data Items (F : Type 0) : Type 0 where
    nil : Items F
    cons : Value F → Items F → Items F

  pub data Fields (F : Type 0) : Type 0 where
    end : Fields F
    field : String → Value F → Fields F → Fields F

module _ {F : Type 0} where
  -- A JSON object as a dict, and back.
  unfoldable pub entries : Fields F → Dict (Value F)
  entries end = []
  entries (field k v fs) = (k, v) ∷ entries fs

  unfoldable pub of_entries : Dict (Value F) → Fields F
  of_entries [] = end
  of_entries ((k, v) ∷ d) = field k v (of_entries d)

  pub entries-of_entries : (d : Dict (Value F)) → entries (of_entries d) ≡ d
  unfolding entries of_entries
  entries-of_entries [] = refl
  entries-of_entries ((k, v) ∷ d) = ap (◌∷◌ (k, v)) (entries-of_entries d)

  pub of_entries-entries : (fs : Fields F) → of_entries (entries fs) ≡ fs
  unfolding entries of_entries
  of_entries-entries end = refl
  of_entries-entries (field k v fs) = ap (field k v) (of_entries-entries fs)

  -- obj.get(k)
  abbrev pub lookup : Fields F → String → Option (Value F)
  lookup fs k = Dict.get (entries fs) k
