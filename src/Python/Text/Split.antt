-- ===== src/Python/Text/Split.antt =====
-- Splitting a text that was joined by a separator.
use Prim.Native.String.{[] as nil, ◌∷◌ as cons}
use rtls_stream_visualizer.Base.{ℕ, ◌≡◌, refl, String, Char, code, true, false, [], ◌∷◌, arith}
use rtls_stream_visualizer.Python.Text.{contains, before, after, split}

-- s + t, by the characters of `s`
abbrev pub concat : String → String → String
concat nil t = t
concat (cons c s) t = cons c (concat s t)

pub split-no_separator : (n : ℕ) (s : String) → contains n s ≡ false → split n s ≡ s ∷ []
unfolding contains split
split-no_separator n nil h = refl
split-no_separator n (cons c s) h = ground (arith, split-no_separator n s)

split-separator :
    (n : ℕ) (c : Char) (t : String) → code c ≡ n → split n (cons c t) ≡ nil ∷ split n t
unfolding split
split-separator n c t e = ground arith

pub split-append :
    (n : ℕ) (s : String) (c : Char) (t : String)
    → contains n s ≡ false
    → code c ≡ n
    → split n (concat s (cons c t)) ≡ s ∷ split n t
unfolding contains split
split-append n nil c t h e = split-separator n c t e
split-append n (cons d s) c t h e = ground (arith, split-append n s c t)

before-separator : (n : ℕ) (c : Char) (t : String) → code c ≡ n → before n (cons c t) ≡ nil
unfolding before
before-separator n c t e = ground arith

pub before-append :
    (n : ℕ) (s : String) (c : Char) (t : String)
    → contains n s ≡ false
    → code c ≡ n
    → before n (concat s (cons c t)) ≡ s
unfolding contains before
before-append n nil c t h e = before-separator n c t e
before-append n (cons d s) c t h e = ground (arith, before-append n s c t)

after-separator : (n : ℕ) (c : Char) (t : String) → code c ≡ n → after n (cons c t) ≡ t
unfolding after
after-separator n c t e = ground arith

pub after-append :
    (n : ℕ) (s : String) (c : Char) (t : String)
    → contains n s ≡ false
    → code c ≡ n
    → after n (concat s (cons c t)) ≡ t
unfolding contains after
after-append n nil c t h e = after-separator n c t e
after-append n (cons d s) c t h e = ground (arith, after-append n s c t)

contains-separator : (n : ℕ) (c : Char) (t : String) → code c ≡ n → contains n (cons c t) ≡ true
unfolding contains
contains-separator n c t e = ground arith

pub contains-append :
    (n : ℕ) (s : String) (c : Char) (t : String)
    → code c ≡ n
    → contains n (concat s (cons c t)) ≡ true
unfolding contains
contains-append n nil c t e = contains-separator n c t e
contains-append n (cons d s) c t e = ground (arith, contains-append n s c t)
