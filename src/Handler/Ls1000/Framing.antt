-- ===== src/Handler/Ls1000/Framing.antt =====
-- Messages that are put together from a type and tokens.
use Prim.Native.String.{[] as nil, ◌∷◌ as cons}
use rtls_stream_visualizer.Base.{◌≡◌, refl, ap, ◌∙◌, String, false, List, [], ◌∷◌, map, All}
use rtls_stream_visualizer.Python.Text.{strip, contains, begins, split}
use rtls_stream_visualizer.Python.Text.Split.{
  concat, split-append, split-no_separator, before-append, after-append, contains-append,
}
use rtls_stream_visualizer.Python.Runtime.{Runtime, lower}
use rtls_stream_visualizer.Handler.Ls1000.{parse_typed, parse_stripped, parse_message}

-- The tokens, of which there is a first one, with commas between them.
abbrev pub joined : String → List String → String
joined token [] = token
joined token (next ∷ tokens) = concat token (cons "," (joined next tokens))

-- <type>:<payload>
abbrev pub message : String → String → String
message kind payload = concat kind (cons ":" payload)

-- A token has no comma.
abbrev pub IsToken : String → Type 0
IsToken token = contains 44 token ≡ false

split-joined :
    (token : String) (tokens : List String)
    → All IsToken (token ∷ tokens)
    → split 44 (joined token tokens) ≡ token ∷ tokens
split-joined token [] (single, h) = split-no_separator 44 token single
split-joined token (next ∷ tokens) (single, h) =
    split-append 44 token "," (joined next tokens) single refl
    ∙ ap (◌∷◌ token) (split-joined next tokens h)

module _ (R : Runtime) where
  parse_stripped-message :
      (raw kind payload : String)
      → contains 58 kind ≡ false
      → begins 123 kind ≡ false
      → parse_stripped R raw (message kind payload)
        ≡ parse_typed R raw (lower R (strip kind)) (map strip (split 44 payload))
  unfolding parse_stripped
  parse_stripped-message raw nil payload single h =
      rw
        (
          contains-append 58 nil ":" payload refl,
          before-append 58 nil ":" payload single refl,
          after-append 58 nil ":" payload single refl,
        )
        refl
  parse_stripped-message raw (cons c s) payload single h = simp (
    h,
    contains-append 58 (cons c s) ":" payload refl,
    before-append 58 (cons c s) ":" payload single refl,
    after-append 58 (cons c s) ":" payload single refl,
  )

  -- A text of the form '<type>:<token>,…,<token>', with any white space around it, is handled by its
  -- type and by exactly these tokens, all stripped and the type in lower case, where the type has no
  -- colon and does not begin with "{", and no token has a comma.
  pub parse_message-message :
      (raw kind token : String) (tokens : List String)
      → strip raw ≡ message kind (joined token tokens)
      → contains 58 kind ≡ false
      → begins 123 kind ≡ false
      → All IsToken (token ∷ tokens)
      → parse_message R raw ≡ parse_typed R raw (lower R (strip kind)) (map strip (token ∷ tokens))
  unfolding parse_message
  parse_message-message raw kind token tokens form single h apart =
      ap (parse_stripped R raw) form
      ∙ parse_stripped-message raw kind (joined token tokens) single h
      ∙ ap (parse_typed R raw (lower R (strip kind)))
          (ap (map strip) (split-joined token tokens apart))
