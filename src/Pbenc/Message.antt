-- ===== src/Pbenc/Message.antt =====
-- Whole messages of internal/pbenc/pbenc.go: the fields written one after the other, and `Parse`.
use Prim.Native.Nat.{bit_and}
use mathlib.Core.List.{append_assoc, append-nil}
use native.Mathlib.Nat.{pow-suc}
use windsurf_to_api_go.Prelude.{
  ℕ, zero, suc, ◌+◌, ◌*◌, ◌/◌, ◌%◌, ◌^◌, ◌<◌, ◌≤◌, false, List, [], ◌∷◌, ◌++◌, map, All, length,
  length-append, drop, take, drop-append, take-append, ltb, arith, ◌≡◌, refl, sym, ap, ◌∙◌,
}
use windsurf_to_api_go.Prelude.Bits.{bit_or-below, low_three_bits}
use windsurf_to_api_go.Pbenc.{
  IsU64, append_varint, ok, tag, decode_varint, append_varint_field, append_bytes_field,
  append_fixed64_field, put_le, get_le, Field, max_field_bytes, parse_value, parse_field,
  parse_loop, parse,
}
use windsurf_to_api_go.Pbenc.Varint.{
  varint_bytes, length-varint_bytes, append_varint-bytes, decode-append_varint,
}

-- A call of one of the writers, on its number and its value.
pub data Item : Type 0 where
  varint_item : ℕ → ℕ → Item
  bytes_item : ℕ → List ℕ → Item
  fixed64_item : ℕ → ℕ → Item

abbrev pub number : Item → ℕ
number (varint_item n v) = n
number (bytes_item n bs) = n
number (fixed64_item n v) = n

-- The value fits its type, and a length-delimited one is neither empty nor above the parser's bound.
abbrev pub IsValue : Item → Type 0
IsValue (varint_item n v) = IsU64 v
IsValue (bytes_item n bs) = (1 ≤ length bs) × (length bs ≤ max_field_bytes)
IsValue (fixed64_item n v) = IsU64 v

-- The number of a field has at most 29 bits.
abbrev pub IsItem : Item → Type 0
IsItem it = (number it < 2 ^ 29) × IsValue it

unfoldable pub write : List ℕ → Item → List ℕ
unfolding append_varint_field append_bytes_field append_fixed64_field
write dst (varint_item n v) = append_varint_field dst n v
write dst (bytes_item n bs) = append_bytes_field dst n bs
write dst (fixed64_item n v) = append_fixed64_field dst n v

unfoldable pub write_all : List ℕ → List Item → List ℕ
unfolding write
write_all dst [] = dst
write_all dst (it ∷ items) = write_all (write dst it) items

-- The field that a reader should find.
unfoldable pub read : Item → Field
read (varint_item n v) = record { num = n; wire_type = 0; value = []; varint = v; fixed = 0 }
read (bytes_item n bs) = record { num = n; wire_type = 2; value = bs; varint = 0; fixed = 0 }
read (fixed64_item n v) = record { num = n; wire_type = 1; value = []; varint = 0; fixed = v }

tag_sum : (n w : ℕ) → n < 2 ^ 29 → w < 8 → tag n w ≡ n * 8 + w
unfolding tag
tag_sum n w hn hw =
    let whole : n * 8 % 2 ^ 64 ≡ n * 2 ^ 3 = omega arith in rw whole (bit_or-below 3 n w hw)

length-put_le : (k v : ℕ) → length (put_le k v) ≡ k
unfolding put_le
length-put_le zero v = refl
length-put_le (suc k) v = omega (arith, length-put_le k (v / 256))

get_le-put_le : (k v : ℕ) → v < 256 ^ k → get_le (put_le k v) ≡ v
unfolding put_le get_le
get_le-put_le zero v h = omega arith
get_le-put_le (suc k) v h =
    omega (arith, get_le-put_le k (v / 256) (omega (arith, pow-suc 256 k)), pow-suc 256 k)

abbrev wire_of : Item → ℕ
wire_of (varint_item n v) = 0
wire_of (bytes_item n bs) = 2
wire_of (fixed64_item n v) = 1

abbrev payload : Item → List ℕ
payload (varint_item n v) = varint_bytes 9 v
payload (bytes_item n bs) = varint_bytes 9 (length bs) ++ bs
payload (fixed64_item n v) = put_le 8 v

abbrev head_bytes : Item → List ℕ
head_bytes it = varint_bytes 9 (number it * 8 + wire_of it)

wire_of-lt : (it : Item) → wire_of it < 8
wire_of-lt (varint_item n v) = omega arith
wire_of-lt (bytes_item n bs) = omega arith
wire_of-lt (fixed64_item n v) = omega arith

write-varint_item :
    (dst : List ℕ) (n v : ℕ)
    → write dst (varint_item n v) ≡ append_varint (append_varint dst (tag n 0)) v
unfolding write append_varint_field
write-varint_item dst n v = refl

write-bytes_item :
    (dst : List ℕ) (n b : ℕ) (bs : List ℕ)
    → write dst (bytes_item n (b ∷ bs))
      ≡ append_varint (append_varint dst (tag n 2)) (length (b ∷ bs)) ++ b ∷ bs
unfolding write append_bytes_field
write-bytes_item dst n b bs = refl

write-fixed64_item :
    (dst : List ℕ) (n v : ℕ)
    → write dst (fixed64_item n v) ≡ append_varint dst (tag n 1) ++ put_le 8 v
unfolding write append_fixed64_field
write-fixed64_item dst n v = refl

append-tag :
    (dst : List ℕ) (n w : ℕ)
    → n < 2 ^ 29
    → w < 8
    → append_varint dst (tag n w) ≡ dst ++ varint_bytes 9 (n * 8 + w)
append-tag dst n w hn hw =
    rw (tag_sum n w hn hw) (append_varint-bytes dst (n * 8 + w) (omega arith))

write-split :
    (dst : List ℕ) (it : Item) → IsItem it → write dst it ≡ dst ++ (head_bytes it ++ payload it)
write-split dst (varint_item n v) h =
    rw
      (
        write-varint_item,
        append-tag dst n 0 h.0 (omega arith),
        append_varint-bytes (dst ++ varint_bytes 9 (n * 8 + 0)) v h.1,
      )
      (append_assoc dst (varint_bytes 9 (n * 8 + 0)) (varint_bytes 9 v))
write-split dst (bytes_item n []) h = absurd (omega (arith, h.1))
write-split dst (bytes_item n (b ∷ bs)) h =
    let head = varint_bytes 9 (n * 8 + 2) in
    let size = varint_bytes 9 (length (b ∷ bs)) in
    rw
      (
        write-bytes_item,
        append-tag dst n 2 h.0 (omega arith),
        append_varint-bytes (dst ++ head) (length (b ∷ bs)) (omega (arith, h.1)),
      )
      (append_assoc (dst ++ head) size (b ∷ bs) ∙ append_assoc dst head (size ++ b ∷ bs))
write-split dst (fixed64_item n v) h =
    rw (write-fixed64_item, append-tag dst n 1 h.0 (omega arith))
      (append_assoc dst (varint_bytes 9 (n * 8 + 1)) (put_le 8 v))

decode_head :
    (v : ℕ) (rest : List ℕ)
    → IsU64 v
    → decode_varint (varint_bytes 9 v ++ rest) ≡ ok (v, length (varint_bytes 9 v))
decode_head v rest h = rw (append_varint-bytes [] v h) at (decode-append_varint v rest h).0

parse_value-payload :
    (it : Item) (rest : List ℕ)
    → IsItem it
    → parse_value (number it) (wire_of it) (payload it ++ rest) ≡ ok (read it, rest)
unfolding parse_value read
parse_value-payload (varint_item n v) rest h =
    rw (decode_head v rest h.1, drop-append (varint_bytes 9 v) rest) refl
parse_value-payload (bytes_item n bs) rest h =
    let size = varint_bytes 9 (length bs) in
    let small : ltb max_field_bytes (length bs) ≡ false = ground (arith, h.1) in
    let there : ltb (length (bs ++ rest)) (length bs) ≡ false =
      ground (arith, length-append bs rest) in
    rw
      (
        append_assoc size bs rest,
        decode_head (length bs) (bs ++ rest) (omega (arith, h.1)),
        drop-append size (bs ++ rest),
        small,
        there,
        take-append bs rest,
        drop-append bs rest,
      )
      refl
parse_value-payload (fixed64_item n v) rest h =
    let there : ltb (length (put_le 8 v ++ rest)) 8 ≡ false =
      ground (arith, length-append (put_le 8 v) rest, length-put_le 8 v) in
    let taken : take 8 (put_le 8 v ++ rest) ≡ put_le 8 v =
      ap (λ (k : ℕ). take k (put_le 8 v ++ rest)) (sym (length-put_le 8 v))
      ∙ take-append (put_le 8 v) rest in
    let left : drop 8 (put_le 8 v ++ rest) ≡ rest =
      ap (λ (k : ℕ). drop k (put_le 8 v ++ rest)) (sym (length-put_le 8 v))
      ∙ drop-append (put_le 8 v) rest in
    rw (there, taken, left, get_le-put_le 8 v h.1) refl

parse_field-item :
    (it : Item) (rest : List ℕ)
    → IsItem it
    → parse_field ((head_bytes it ++ payload it) ++ rest) ≡ ok (read it, rest)
unfolding parse_field
parse_field-item it rest h =
    let code = number it * 8 + wire_of it in
    let field : code / 8 ≡ number it = omega (arith, wire_of-lt it) in
    let wire : bit_and code 7 ≡ wire_of it = low_three_bits code ∙ omega (arith, wire_of-lt it) in
    rw
      (
        append_assoc (head_bytes it) (payload it) rest,
        decode_head code (payload it ++ rest) (omega (arith, h.0, wire_of-lt it)),
        drop-append (head_bytes it) (payload it ++ rest),
        field,
        wire,
      )
      (parse_value-payload it rest h)

abbrev message : List Item → List ℕ
message [] = []
message (it ∷ items) = (head_bytes it ++ payload it) ++ message items

write_all-message :
    (dst : List ℕ) (items : List Item)
    → All IsItem items
    → write_all dst items ≡ dst ++ message items
unfolding write_all
write_all-message dst [] h = sym (append-nil dst)
write_all-message dst (it ∷ items) h = rw (write-split dst it h.0) (
    write_all-message (dst ++ (head_bytes it ++ payload it)) items h.1
    ∙ append_assoc dst (head_bytes it ++ payload it) (message items))

parse_loop-step :
    (fuel : ℕ) (buf : List ℕ) (out : List Field) (f : Field) (rest : List ℕ)
    → 1 ≤ length buf
    → parse_field buf ≡ ok (f, rest)
    → parse_loop (suc fuel) buf out ≡ parse_loop fuel rest (out ++ f ∷ [])
unfolding parse_loop
parse_loop-step fuel [] out f rest some_left e = absurd (omega arith)
parse_loop-step fuel (b ∷ bs) out f rest some_left e = rw e refl

length-message :
    (it : Item) (items : List Item) → length (message items) < length (message (it ∷ items))
length-message it items = omega (
  arith,
  length-append (head_bytes it ++ payload it) (message items),
  length-append (head_bytes it) (payload it),
  length-varint_bytes 9 (number it * 8 + wire_of it),
)

parse_loop-message :
    (items : List Item) (fuel : ℕ) (out : List Field)
    → All IsItem items
    → length (message items) ≤ fuel
    → parse_loop fuel (message items) out ≡ ok (out ++ map read items)
unfolding parse_loop
parse_loop-message [] fuel out h le = ap (λ fs. ok fs) (sym (append-nil out))
parse_loop-message (it ∷ items) zero out h le = absurd (omega (arith, length-message it items))
parse_loop-message (it ∷ items) (suc fuel) out h le =
    parse_loop-step fuel (message (it ∷ items)) out (read it) (message items)
      (omega (arith, length-message it items)) (parse_field-item it (message items) h.0)
    ∙ parse_loop-message items fuel (out ++ read it ∷ []) h.1
        (omega (arith, length-message it items))
    ∙ ap (λ fs. ok fs) (append_assoc out (read it ∷ []) (map read items))

-- What the writers write, one call after the other, `Parse` reads back as the list of the fields
-- written, in order, if each number has at most 29 bits and each value fits its type (a
-- length-delimited one is not empty and has at most 2 ^ 31 bytes).
pub parse-write_all :
    (items : List Item) → All IsItem items → parse (write_all [] items) ≡ ok (map read items)
unfolding parse
parse-write_all items h =
    rw (write_all-message [] items h)
      (parse_loop-message items (length (message items)) [] h (omega arith))
