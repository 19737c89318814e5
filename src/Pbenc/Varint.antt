-- ===== src/Pbenc/Varint.antt =====
-- Variable-length integers of internal/pbenc/pbenc.go: what is written is read back.
use Prim.Native.Nat.{bit_and, bit_or}
use mathlib.Core.List.{append_assoc}
use mathlib.Core.Logic.{dif_pos, dif_neg}
use mathlib.Core.WellFounded.{Acc}
use native.Mathlib.Decide.{dec_lt}
use native.Mathlib.Bridge.{le_prop}
use native.Mathlib.Nat.{div-add-mod, pow-suc, mul-le-mul_right}
use native.Mathlib.Numerals.{towards_suc}
use windsurf_to_api_go.Prelude.{
  ℕ, zero, suc, ◌+◌, ◌*◌, ◌/◌, ◌%◌, ◌^◌, ◌<◌, ◌≤◌, true, false, List, [], ◌∷◌, ◌++◌, length,
  Bool-cases, inl, inr, ltb, leb, arith, ◌≡◌, refl, ap, ◌∙◌, if◌then◌else◌,
}
use windsurf_to_api_go.Prelude.Bits.{low_seven_bits, top_bit_of_byte, with_top_bit, bit_or-above}
use windsurf_to_api_go.Prelude.Order.{lt_wf}
use windsurf_to_api_go.Pbenc.{
  IsU64, seven_bits_less, varint_loop, append_varint, Result, ok, decode_loop, decode_varint,
}

-- The bytes of a number, with at most `k` bytes before the last.
unfoldable pub varint_bytes : ℕ → ℕ → List ℕ
varint_bytes zero v = v ∷ []
varint_bytes (suc k) v =
    let more = varint_bytes k (v / 128) in if ltb v 128 then v ∷ [] else (v % 128 + 128) ∷ more

same_byte : (v : ℕ) → v < 128 → v % 256 ≡ v
same_byte v h = omega arith

varint_loop-bytes :
    (k v : ℕ) (dst : List ℕ) (w : Acc ◌<◌ v)
    → v < 128 ^ suc k
    → varint_loop dst v w ≡ dst ++ varint_bytes k v
unfolding varint_loop varint_bytes
varint_loop-bytes zero v dst (Acc.intro _ smaller) h =
    dif_pos (dec_lt v 128) (le_prop {n = suc v} {m = 128}) (omega arith) _ _
    ∙ ap (λ (x : ℕ). dst ++ x ∷ []) (same_byte v (omega arith))
varint_loop-bytes (suc k) v dst (Acc.intro _ smaller) h =
    let more = λ (big : ¬ (v < 128)).
      varint_loop (dst ++ bit_or (v % 256) 0x80 ∷ []) (v / 128)
        (smaller (v / 128) (seven_bits_less v big)) in
    elim (dec_lt v 128) [
      | yes p ↦
          let small : ltb v 128 ≡ true = ground arith in
          dif_pos (dec_lt v 128) (le_prop {n = suc v} {m = 128}) p (λ _. dst ++ v % 256 ∷ []) more
          ∙ rw small (ap (λ (x : ℕ). dst ++ x ∷ []) (same_byte v p))
      | no p ↦
          let big : ltb v 128 ≡ false = ground arith in
          let byte : bit_or (v % 256) 0x80 ≡ v % 128 + 128 =
            omega (arith, with_top_bit (v % 256) (omega arith)) in
          dif_neg (dec_lt v 128) p (λ _. dst ++ v % 256 ∷ []) more
          ∙ rw (byte, big)
              (varint_loop-bytes k (v / 128) (dst ++ (v % 128 + 128) ∷ [])
                  (smaller (v / 128) (seven_bits_less v p)) (omega (arith, pow-suc 128 (suc k)))
                ∙ append_assoc dst ((v % 128 + 128) ∷ []) (varint_bytes k (v / 128)))
    ]

-- `AppendVarint` adds at most ten bytes, those of the plain description.
pub append_varint-bytes :
    (dst : List ℕ) (v : ℕ) → IsU64 v → append_varint dst v ≡ dst ++ varint_bytes 9 v
unfolding append_varint
append_varint-bytes dst v h = varint_loop-bytes 9 v dst (lt_wf.apply v) (omega arith)

pub length-varint_bytes :
    (k v : ℕ) → (1 ≤ length (varint_bytes k v)) × (length (varint_bytes k v) ≤ k + 1)
unfolding varint_bytes
length-varint_bytes zero v = omega arith
length-varint_bytes (suc k) v = ground (arith, length-varint_bytes k (v / 128))

-- One round of the reader, on a last byte and on a byte that goes on. `v` is what was read so far.
decode_last :
    (b i v s : ℕ) (rest : List ℕ)
    → b < 128
    → i < 10
    → v < 2 ^ s
    → v + b * 2 ^ s < 2 ^ 64
    → decode_loop (b ∷ rest) i v s ≡ ok (v + b * 2 ^ s, i + 1)
unfolding decode_loop
decode_last b i v s rest hb hi hv fits =
    let low : leb 10 i ≡ false = ground arith in
    let mask : bit_and b 0x7f ≡ b = omega (arith, low_seven_bits b (omega arith)) in
    let whole : b * 2 ^ s % 2 ^ 64 ≡ b * 2 ^ s = omega arith in
    let last : bit_and b 0x80 ≡ 0 = omega (arith, top_bit_of_byte b (omega arith)) in
    rw (low, mask, whole, bit_or-above v s b hv, last) refl

decode_more :
    (g i v s : ℕ) (rest : List ℕ)
    → g < 128
    → i < 10
    → v < 2 ^ s
    → v + g * 2 ^ s < 2 ^ 64
    → decode_loop ((g + 128) ∷ rest) i v s ≡ decode_loop rest (i + 1) (v + g * 2 ^ s) (s + 7)
unfolding decode_loop
decode_more g i v s rest hg hi hv fits =
    let low : leb 10 i ≡ false = ground arith in
    let mask : bit_and (g + 128) 0x7f ≡ g = omega (arith, low_seven_bits (g + 128) (omega arith)) in
    let whole : g * 2 ^ s % 2 ^ 64 ≡ g * 2 ^ s = omega arith in
    let goes_on : bit_and (g + 128) 0x80 ≡ 128 =
      omega (arith, top_bit_of_byte (g + 128) (omega arith)) in
    rw (low, mask, whole, bit_or-above v s g hv, goes_on) refl

seven_more : (s : ℕ) → 2 ^ (s + 7) ≡ 128 * 2 ^ s
seven_more s = simp towards_suc (omega arith)

group_fits : (g v s : ℕ) → g < 128 → v < 2 ^ s → v + g * 2 ^ s < 2 ^ (s + 7)
group_fits g v s hg hv =
    omega (arith, seven_more s, mul-le-mul_right {m = g} {n = 127} (2 ^ s) (omega arith))

regroup : (w v s : ℕ) → v + w % 128 * 2 ^ s + w / 128 * 2 ^ (s + 7) ≡ v + w * 2 ^ s
regroup w v s = omega (
  arith,
  ap (λ (t : ℕ). t * 2 ^ s) (div-add-mod w 128),
  ap (λ (t : ℕ). w / 128 * t) (seven_more s),
)

decode_loop-bytes :
    (k w i v s : ℕ) (rest : List ℕ)
    → w < 128 ^ suc k
    → i + k < 10
    → v < 2 ^ s
    → v + w * 2 ^ s < 2 ^ 64
    → decode_loop (varint_bytes k w ++ rest) i v s
      ≡ ok (v + w * 2 ^ s, i + length (varint_bytes k w))
unfolding varint_bytes
decode_loop-bytes zero w i v s rest hw hi hv fits =
    decode_last w i v s rest (omega arith) (omega arith) hv fits
decode_loop-bytes (suc k) w i v s rest hw hi hv fits = elim (Bool-cases (ltb w 128)) [
  | inl small ↦ rw small (decode_last w i v s rest (ground arith) (omega arith) hv fits)
  | inr big ↦
      let v' = v + w % 128 * 2 ^ s in
      let ih =
        decode_loop-bytes k (w / 128) (i + 1) v' (s + 7) rest (omega (arith, pow-suc 128 (suc k)))
          (omega arith) (group_fits (w % 128) v s (omega arith) hv)
          (omega (arith, regroup w v s)) in
      rw big (
        decode_more (w % 128) i v s (varint_bytes k (w / 128) ++ rest) (omega arith) (omega arith)
          hv (omega (arith, regroup w v s))
        ∙ ih
        ∙ rw regroup (ap (λ (n : ℕ). ok (v + w * 2 ^ s, n)) (omega arith)))
]

same_read : (a b c d : ℕ) → a ≡ b → c ≡ d → ◌≡◌ {A = Result (ℕ × ℕ)} (ok (a, c)) (ok (b, d))
same_read a b c d p q = λ i. ok (p i, q i)

-- What `AppendVarint` writes for a `uint64` is read back by `DecodeVarint` as that number, with the
-- count of the bytes written, whatever bytes follow; it is at most ten bytes long.
pub decode-append_varint :
    (v : ℕ) (rest : List ℕ)
    → IsU64 v
    → (decode_varint (append_varint [] v ++ rest) ≡ ok (v, length (append_varint [] v)))
      × (length (append_varint [] v) ≤ 10)
unfolding decode_varint
decode-append_varint v rest h = rw (append_varint-bytes [] v h) (
  decode_loop-bytes 9 v 0 0 0 rest (omega arith) (omega arith) (omega arith) (omega arith)
      ∙ same_read (0 + v * 1) v (0 + length (varint_bytes 9 v)) (length (varint_bytes 9 v))
          (omega arith) (omega arith),
  omega (arith, length-varint_bytes 9 v),
)
