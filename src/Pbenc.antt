-- ===== src/Pbenc.antt =====
-- The protobuf wire codec, internal/pbenc/pbenc.go. A byte slice is a list of numbers below 256, a
-- `uint64` a number below 2 ^ 64.
pub mod Varint
pub mod Message
pub mod Ending
use Prim.Native.Nat.{bit_and, bit_or}
use mathlib.Core.Logic.{dite}
use mathlib.Core.WellFounded.{Acc}
use native.Mathlib.Decide.{dec_lt}
use windsurf_to_api_go.Prelude.{
  ℕ, zero, suc, ◌+◌, ◌-◌, ◌*◌, ◌/◌, ◌%◌, ◌^◌, ◌<◌, ◌≤◌, Bool, true, false, not, ◌&&◌, ◌||◌, Option,
  none, some, List, [], ◌∷◌, ◌++◌, length, drop, take, keep_if, find, ltb, leb, ◌==◌, arith,
  if◌then◌else◌,
}
use windsurf_to_api_go.Prelude.Order.{lt_wf}

abbrev pub IsU64 : ℕ → Type 0
IsU64 v = v < 2 ^ 64

abbrev pub IsByte : ℕ → Type 0
IsByte b = b < 256

pub seven_bits_less : (v : ℕ) → ¬ (v < 128) → v / 128 < v
seven_bits_less v h = omega arith

-- The loop of `AppendVarint`: `byte(v)` is `v % 256`, and `v >>= 7` is `v / 128`.
unfoldable pub varint_loop : List ℕ → (v : ℕ) → Acc ◌<◌ v → List ℕ
varint_loop dst v (Acc.intro _ smaller) =
    dite (dec_lt v 128) (λ _. dst ++ v % 256 ∷ [])
      (λ more.
        varint_loop (dst ++ bit_or (v % 256) 0x80 ∷ []) (v / 128)
          (smaller (v / 128) (seven_bits_less v more)))

unfoldable pub append_varint : List ℕ → ℕ → List ℕ
unfolding varint_loop lt_wf dec_lt
append_varint dst v = varint_loop dst v (lt_wf.apply v)

pub data Error : Type 0 where
  varint_overflow : Error
  truncated_varint : Error
  in_tag : Error → Error
  in_varint : ℕ → Error → Error
  truncated_fixed64 : Error
  in_len : ℕ → Error → Error
  truncated_delimited : Error
  truncated_fixed32 : Error
  unknown_wire : ℕ → ℕ → Error
  out_of_fuel : Error

pub data Result {ℓ} (A : Type ℓ) : Type ℓ where
  ok : A → Result A
  err : Error → Result A

infixl 5 ◌>>=◌
abbrev pub ◌>>=◌ {ℓ κ} : {A : Type ℓ} {B : Type κ} → Result A → (A → Result B) → Result B
ok a >>= f = f a
err e >>= f = err e

-- An error of a part, wrapped as `fmt.Errorf` does.
abbrev pub wrap {ℓ} : {A : Type ℓ} → (Error → Error) → Result A → Result A
wrap f (ok a) = ok a
wrap f (err e) = err (f e)

-- The loop of `DecodeVarint` at byte `i`: the value and the count of bytes. `shift` is at most 63.
unfoldable pub decode_loop : List ℕ → ℕ → ℕ → ℕ → Result (ℕ × ℕ)
decode_loop [] i v shift = err truncated_varint
decode_loop (b ∷ rest) i v shift =
    let v' = bit_or v (bit_and b 0x7f * 2 ^ shift % 2 ^ 64) in
    let more = decode_loop rest (i + 1) v' (shift + 7) in
    if leb 10 i then err varint_overflow else if bit_and b 0x80 == 0 then ok (v', i + 1) else more

unfoldable pub decode_varint : List ℕ → Result (ℕ × ℕ)
unfolding decode_loop
decode_varint buf = decode_loop buf 0 0 0

unfoldable pub tag : ℕ → ℕ → ℕ
tag field wire = bit_or (field * 8 % 2 ^ 64) wire

unfoldable pub append_varint_field : List ℕ → ℕ → ℕ → List ℕ
unfolding append_varint tag
append_varint_field dst field v = append_varint (append_varint dst (tag field 0)) v

-- `AppendStringField`, `AppendBytesField` and `AppendMessageField` have the same body.
unfoldable pub append_bytes_field : List ℕ → ℕ → List ℕ → List ℕ
unfolding append_varint tag
append_bytes_field dst field [] = dst
append_bytes_field dst field (b ∷ bs) =
    append_varint (append_varint dst (tag field 2)) (length (b ∷ bs)) ++ b ∷ bs

unfoldable pub append_bool_field : List ℕ → ℕ → Bool → List ℕ
unfolding append_varint_field
append_bool_field dst field v = if not v then dst else append_varint_field dst field 1

-- `binary.LittleEndian.PutUint64` and its reader, for a count of bytes.
unfoldable pub put_le : ℕ → ℕ → List ℕ
put_le zero v = []
put_le (suc n) v = v % 256 ∷ put_le n (v / 256)

unfoldable pub get_le : List ℕ → ℕ
get_le [] = 0
get_le (b ∷ bs) = b + 256 * get_le bs

unfoldable pub append_fixed64_field : List ℕ → ℕ → ℕ → List ℕ
unfolding append_varint tag put_le
append_fixed64_field dst field v = append_varint dst (tag field 1) ++ put_le 8 v

pub record Field : Type 0 where
  pub num : ℕ
  pub wire_type : ℕ
  pub value : List ℕ
  pub varint : ℕ
  pub fixed : ℕ

abbrev pub max_field_bytes : ℕ
max_field_bytes = 2 ^ 31

-- One `case` of the `switch`, on the bytes after the tag: the field, and the bytes after it.
unfoldable pub parse_value : ℕ → ℕ → List ℕ → Result (Field × List ℕ)
unfolding decode_varint get_le
parse_value num wire buf =
    if wire == 0
    then (wrap (in_varint num) (decode_varint buf) >>= λ r.
        ok (record { num = num; wire_type = 0; value = []; varint = r.0; fixed = 0 }, drop r.1 buf))
    else if wire == 1
    then if ltb (length buf) 8
      then err truncated_fixed64
      else ok (
        record { num = num; wire_type = 1; value = []; varint = 0; fixed = get_le (take 8 buf) },
        drop 8 buf,
      )
    else if wire == 2
    then (wrap (in_len num) (decode_varint buf) >>= λ r.
        if ltb max_field_bytes r.0 || ltb (length (drop r.1 buf)) r.0
        then err truncated_delimited
        else ok (
          record {
            num = num;
            wire_type = 2;
            value = take r.0 (drop r.1 buf);
            varint = 0;
            fixed = 0;
          },
          drop r.0 (drop r.1 buf),
        ))
    else if wire == 5
    then if ltb (length buf) 4
      then err truncated_fixed32
      else ok (
        record { num = num; wire_type = 5; value = []; varint = 0; fixed = get_le (take 4 buf) },
        drop 4 buf,
      )
    else err (unknown_wire wire num)

-- One round of `Parse`, on the bytes from `pos` on.
unfoldable pub parse_field : List ℕ → Result (Field × List ℕ)
unfolding parse_value decode_varint
parse_field buf =
    wrap in_tag (decode_varint buf) >>= λ r. parse_value (r.0 / 8) (bit_and r.0 7) (drop r.1 buf)

-- The loop of `Parse`. Each round takes a byte at least, so the length is enough fuel.
unfoldable pub parse_loop : ℕ → List ℕ → List Field → Result (List Field)
unfolding parse_field
parse_loop fuel [] out = ok out
parse_loop zero (b ∷ bs) out = err out_of_fuel
parse_loop (suc fuel) (b ∷ bs) out =
    parse_field (b ∷ bs) >>= λ r. parse_loop fuel r.1 (out ++ r.0 ∷ [])

unfoldable pub parse : List ℕ → Result (List Field)
unfolding parse_loop
parse buf = parse_loop (length buf) buf []

-- A negative `wire`, which stands for any, is `none` here.
abbrev pub wire_fits : Option ℕ → ℕ → Bool
wire_fits none w = true
wire_fits (some wire) w = w == wire

unfoldable pub get : List Field → ℕ → Option ℕ → Option Field
get fields num wire = find (λ f. f.num == num && wire_fits wire f.wire_type) fields

unfoldable pub all : List Field → ℕ → List Field
all fields num = keep_if (λ f. f.num == num) fields
