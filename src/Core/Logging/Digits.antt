-- ===== src/Core/Logging/Digits.antt =====
-- The ids in the log records: their width, and that they can be read back.
use Prim.Native.Nat.{◌^◌}
use Prim.Native.Nat.pow
use Prim.Native.String.{[] as nil, ◌∷◌ as cons}
use rtls_stream_visualizer.Base.{
  ℕ, zero, suc, ◌+◌, ◌-◌, ◌*◌, ◌/◌, ◌%◌, ◌<◌, ◌≤◌, ◌≡◌, refl, ap, ap₂, ◌∙◌, String, Char, Bool,
  true, false, ◌&&◌, eqb, arith, some, if◌then◌else◌, inl, inr, Bool-cases,
}
use rtls_stream_visualizer.Python.Text.{count}
use rtls_stream_visualizer.Python.Number.{digits, hex_digit}
use rtls_stream_visualizer.Python.Runtime.{Runtime, decimal}
use rtls_stream_visualizer.Core.Logging.{SpanContext, inject_trace}
use rtls_stream_visualizer.Core.Logging.Hex.{hex_char, pad_hex, format_hex}

div_lt : (width n : ℕ) → n < 16 ^ suc width → n / 16 < 16 ^ width
div_lt width n h = omega (arith, pow.suc 16 width)

-- The width is kept by numbers that fit it.
count-pad_hex :
    (fuel width n : ℕ) (s : String)
    → width + n ≤ fuel
    → n < 16 ^ width
    → count (pad_hex fuel width n s) ≡ width + count s
unfolding pad_hex
count-pad_hex zero width n s enough h = omega arith
count-pad_hex (suc fuel) zero n s enough h = ground arith
count-pad_hex (suc fuel) (suc width) n s enough h = ground (
  arith,
  count-pad_hex fuel width (n / 16) (cons (hex_char (n % 16)) s) (omega arith) (div_lt width n h),
)

module _ (R : Runtime) where
  hex_digit-hex_char : (d : ℕ) → d < 16 → hex_digit R (hex_char d) ≡ some d
  unfolding hex_digit hex_char decimal
  hex_digit-hex_char d h = ground arith

  digits_next :
      (c : Char) (d acc : ℕ) (closed : Bool) (k : ℕ) (s : String)
      → hex_digit R c ≡ some d
      → digits (hex_digit R) 16 closed acc k (cons c s)
        ≡ digits (hex_digit R) 16 true (acc * 16 + d) (suc k) s
  unfolding digits
  digits_next c d acc closed k s e = rw (digits, e) refl

  digits-hex_char :
      (n : ℕ) (s : String) (closed : Bool) (k : ℕ)
      → digits (hex_digit R) 16 closed (n / 16) k (cons (hex_char (n % 16)) s)
        ≡ digits (hex_digit R) 16 true n (suc k) s
  digits-hex_char n s closed k =
      digits_next (hex_char (n % 16)) (n % 16) (n / 16) closed k s
        (hex_digit-hex_char (n % 16) (omega arith))
      ∙ ap (λ v. digits (hex_digit R) 16 true v (suc k) s) (omega arith)

  -- Reading the digits that were put in front of a text gives the number.
  digits-pad_hex :
      (fuel width n : ℕ) (s : String) (closed : Bool) (k : ℕ)
      → width + n ≤ fuel
      → (last : Bool) × (more : ℕ) × (digits (hex_digit R) 16 closed 0 k (pad_hex fuel width n s)
          ≡ digits (hex_digit R) 16 last n (k + more) s)
        × ((eqb width 0 && eqb n 0) ≡ false → last ≡ true)
        × (count (pad_hex fuel width n s) ≡ more + count s)
  unfolding pad_hex
  digits-pad_hex zero width n s closed k enough = (
    closed,
    0,
    ap₂ (λ v m. digits (hex_digit R) 16 closed v m s) (omega arith) (omega arith),
    λ h. ground arith,
    omega arith,
  )
  digits-pad_hex (suc fuel) width n s closed k enough = elim (Bool-cases (eqb width 0 && eqb n 0)) [
    | inl done ↦ simp done (
      closed,
      0,
      ap₂ (λ v m. digits (hex_digit R) 16 closed v m s) (ground arith) (omega arith),
      λ h. cc,
      omega arith,
    )
    | inr more ↦
        let (c, m, read, _, counted) =
          digits-pad_hex fuel (width - 1) (n / 16) (cons (hex_char (n % 16)) s) closed k
            (ground arith) in
        simp more (
          true,
          suc m,
          read
              ∙ digits-hex_char n s c (k + m)
              ∙ ap (λ i. digits (hex_digit R) 16 true n i s) (omega arith),
          λ h. refl,
          counted ∙ omega arith,
        )
  ]

  -- `int(format_hex(n), 16)` is `n`.
  digits-format_hex :
      (width n : ℕ)
      → n < 16 ^ suc width
      → digits (hex_digit R) 16 false 0 0 (format_hex (suc width) n) ≡ some (n, suc width)
  unfolding format_hex digits
  digits-format_hex width n small =
      let (last, more, read, last_is, counted) =
        digits-pad_hex (suc width + n) (suc width) n nil false 0 (omega arith) in
      let full = count-pad_hex (suc width + n) (suc width) n nil (omega arith) small in
      let more_is : more ≡ suc width = omega (arith, counted, full) in
      read ∙ simp (last_is (ground arith)) (ap (λ m. some (n, m)) (omega (arith, more_is)))

  zeros32 : digits (hex_digit R) 16 false 0 0 "00000000000000000000000000000000" ≡ some (0, 32)
  unfolding digits hex_digit decimal
  zeros32 = refl

  zeros16 : digits (hex_digit R) 16 false 0 0 "0000000000000000" ≡ some (0, 16)
  unfolding digits hex_digit decimal
  zeros16 = refl

  -- The ids of a span, of 128 and 64 bits, are written with exactly 32 and 16 digits, which as
  -- hexadecimal numbers are these ids; without a trace both are zeros.
  pub inject_trace-read :
      (ctx : SpanContext)
      → ctx.trace_id < 16 ^ 32
      → ctx.span_id < 16 ^ 16
      → (digits (hex_digit R) 16 false 0 0 (inject_trace ctx).trace_id ≡ some (ctx.trace_id, 32))
        × (digits (hex_digit R) 16 false 0 0 (inject_trace ctx).span_id
            ≡ some (if eqb ctx.trace_id 0 then 0 else ctx.span_id, 16))
  unfolding inject_trace
  inject_trace-read ctx trace_fits span_fits = elim (Bool-cases (eqb ctx.trace_id 0)) [
    | inl absent ↦ simp absent (zeros32 ∙ ap (λ v. some (v, 32)) (ground arith), zeros16)
    | inr present ↦
        simp present
          (digits-format_hex 31 ctx.trace_id trace_fits, digits-format_hex 15 ctx.span_id span_fits)
  ]
