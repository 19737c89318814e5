-- ===== src/Pbenc/Ending.antt =====
-- `Parse` of internal/pbenc/pbenc.go takes a byte at least in each round, so its loop ends.
use Prim.Native.Nat.{bit_and, bit_or}
use mathlib.Core.Path.{subst}
use windsurf_to_api_go.Prelude.{
  ℕ, zero, suc, ◌+◌, ◌*◌, ◌/◌, ◌%◌, ◌^◌, ◌<◌, ◌≤◌, Bool, true, false, List, [], ◌∷◌, ◌++◌, length,
  length-drop, drop, ltb, leb, ◌==◌, arith, ◌≢◌, if◌then◌else◌,
}
use windsurf_to_api_go.Pbenc.{
  Error, Result, ok, err, varint_overflow, in_tag, in_varint, truncated_fixed64, in_len,
  truncated_delimited, truncated_fixed32, out_of_fuel, decode_loop, decode_varint, wrap, ◌>>=◌,
  Field, parse_value, parse_field, parse_loop, parse,
}

-- An error of the source's own.
abbrev IsSource : Error → Type 0
IsSource out_of_fuel = ⊥
IsSource e = Unit

-- A result whose value satisfies `P` and whose error is one of the source's.
abbrev Yields : {A : Type 0} → (A → Type 0) → Result A → Type 0
Yields P (ok a) = P a
Yields P (err e) = IsSource e

if-Yields :
    {A : Type 0} (P : A → Type 0) (b : Bool) (x y : Result A)
    → Yields P x
    → Yields P y
    → Yields P (if b then x else y)
if-Yields P true x y hx hy = hx
if-Yields P false x y hx hy = hy

wrap-Yields :
    {A : Type 0} (P : A → Type 0) (f : Error → Error) (r : Result A)
    → ((e : Error) → IsSource (f e))
    → Yields P r
    → Yields P (wrap f r)
wrap-Yields P f (ok a) hf h = h
wrap-Yields P f (err e) hf h = hf e

bind-Yields :
    {A B : Type 0} (P : A → Type 0) (Q : B → Type 0) (r : Result A) (f : A → Result B)
    → Yields P r
    → ((a : A) → P a → Yields Q (f a))
    → Yields Q (r >>= f)
bind-Yields P Q (ok a) f h hf = hf a h
bind-Yields P Q (err e) f h hf = h

later : (i : ℕ) (r : Result (ℕ × ℕ)) → Yields (λ r. i + 1 < r.1) r → Yields (λ r. i < r.1) r
later i (ok a) h = omega (arith, h)
later i (err e) h = h

decode_loop-Yields : (buf : List ℕ) (i v s : ℕ) → Yields (λ r. i < r.1) (decode_loop buf i v s)
unfolding decode_loop
decode_loop-Yields [] i v s = tt
decode_loop-Yields (b ∷ rest) i v s =
    let v' = bit_or v (bit_and b 0x7f * 2 ^ s % 2 ^ 64) in
    let P = λ (r : ℕ × ℕ). i < r.1 in
    if-Yields P (leb 10 i) (err varint_overflow) _ tt (
      if-Yields P (bit_and b 0x80 == 0) (ok (v', i + 1)) (decode_loop rest (i + 1) v' (s + 7))
        (omega arith)
        (later i (decode_loop rest (i + 1) v' (s + 7))
          (decode_loop-Yields rest (i + 1) v' (s + 7))))

decode_varint-Yields : (buf : List ℕ) → Yields (λ r. 0 < r.1) (decode_varint buf)
unfolding decode_varint
decode_varint-Yields buf = decode_loop-Yields buf 0 0 0

abbrev Within : ℕ → Field × List ℕ → Type 0
Within n r = length r.1 ≤ n

parse_value-Yields :
    (num wire : ℕ) (buf : List ℕ) → Yields (Within (length buf)) (parse_value num wire buf)
unfolding parse_value
parse_value-Yields num wire buf =
    let P = Within (length buf) in
    if-Yields P (wire == 0) _ _
      (bind-Yields (λ r. 0 < r.1) P (wrap (in_varint num) (decode_varint buf)) _
        (wrap-Yields (λ r. 0 < r.1) (in_varint num) (decode_varint buf) (λ e. tt)
          (decode_varint-Yields buf))
        (λ r h. omega (arith, length-drop r.1 buf)))
      (if-Yields P (wire == 1) _ _
        (if-Yields P (ltb (length buf) 8) (err truncated_fixed64) (ok _) tt
          (omega (arith, length-drop 8 buf)))
        (if-Yields P (wire == 2) _ _
          (bind-Yields (λ r. 0 < r.1) P (wrap (in_len num) (decode_varint buf)) _
            (wrap-Yields (λ r. 0 < r.1) (in_len num) (decode_varint buf) (λ e. tt)
              (decode_varint-Yields buf))
            (λ r h.
              if-Yields P _ (err truncated_delimited) (ok _) tt
                (omega (arith, length-drop r.1 buf, length-drop r.0 (drop r.1 buf)))))
          (if-Yields P (wire == 5) _ _
            (if-Yields P (ltb (length buf) 4) (err truncated_fixed32) (ok _) tt
              (omega (arith, length-drop 4 buf)))
            tt)))

shorter :
    (n m : ℕ) (r : Result (Field × List ℕ)) → m ≤ n → Yields (Within m) r → Yields (Within n) r
shorter n m (ok a) le h = omega (arith, h)
shorter n m (err e) le h = h

parse_field-Yields : (b : ℕ) (bs : List ℕ) → Yields (Within (length bs)) (parse_field (b ∷ bs))
unfolding parse_field
parse_field-Yields b bs =
    bind-Yields (λ r. 0 < r.1) (Within (length bs)) (wrap in_tag (decode_varint (b ∷ bs))) _
      (wrap-Yields (λ r. 0 < r.1) in_tag (decode_varint (b ∷ bs)) (λ e. tt)
        (decode_varint-Yields (b ∷ bs)))
      (λ r h.
        shorter (length bs) (length (drop r.1 (b ∷ bs))) _
          (omega (arith, h, length-drop r.1 (b ∷ bs)))
          (parse_value-Yields (r.0 / 8) (bit_and r.0 7) (drop r.1 (b ∷ bs))))

parse_loop-Yields :
    (fuel : ℕ) (buf : List ℕ) (out : List Field)
    → length buf ≤ fuel
    → Yields (λ _. Unit) (parse_loop fuel buf out)
unfolding parse_loop
parse_loop-Yields fuel [] out le = tt
parse_loop-Yields zero (b ∷ bs) out le = absurd (omega arith)
parse_loop-Yields (suc fuel) (b ∷ bs) out le =
    bind-Yields (Within (length bs)) (λ _. Unit) (parse_field (b ∷ bs)) _ (parse_field-Yields b bs)
      (λ r h. parse_loop-Yields fuel r.1 (out ++ r.0 ∷ []) (omega (arith, h)))

abbrev IsErrSource : {A : Type 0} → Result A → Type 0
IsErrSource (ok a) = Unit
IsErrSource (err e) = IsSource e

Yields-fuel : {A : Type 0} (r : Result A) → Yields (λ _. Unit) r → r ≢ err out_of_fuel
Yields-fuel (ok a) h = λ e. cc
Yields-fuel (err x) h = λ e. subst IsErrSource e h

-- The fuel of `Parse`, the length of the bytes, is enough for every sequence of bytes: each round of
-- the loop takes one at least. So `Parse` returns fields, or an error that the source names.
pub parse-ends : (buf : List ℕ) → parse buf ≢ err out_of_fuel
unfolding parse
parse-ends buf = Yields-fuel (parse buf) (parse_loop-Yields (length buf) buf [] (omega arith))
