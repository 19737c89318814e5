-- ===== src/Tests/Codec.antt =====
-- The wire codec on concrete numbers and messages.
use windsurf_to_api_go.Prelude.{◌≤◌, List, [], ◌∷◌, ◌++◌, map, length, arith, ◌≡◌, ◌≢◌}
use windsurf_to_api_go.Pbenc.{append_varint, decode_varint, ok, err, out_of_fuel, parse}
use windsurf_to_api_go.Pbenc.Varint.{decode-append_varint}
use windsurf_to_api_go.Pbenc.Message.{
  Item, varint_item, bytes_item, fixed64_item, write_all, read, parse-write_all,
}
use windsurf_to_api_go.Pbenc.Ending.{parse-ends}

decode-append_varint_example :
    (decode_varint (append_varint [] 18446744073709551615 ++ 7 ∷ [])
      ≡ ok (18446744073709551615, length (append_varint [] 18446744073709551615)))
    × (length (append_varint [] 18446744073709551615) ≤ 10)
decode-append_varint_example = decode-append_varint 18446744073709551615 (7 ∷ []) (omega arith)

abbrev items : List Item
items = varint_item 1 300 ∷ bytes_item 2 (104 ∷ 105 ∷ []) ∷ fixed64_item 3 5 ∷ []

parse-write_all_example : parse (write_all [] items) ≡ ok (map read items)
parse-write_all_example = parse-write_all items (
  (omega arith, omega arith),
  ((omega arith, (omega arith, omega arith)), ((omega arith, omega arith), tt)),
)

-- A tag whose length says more than what is left.
parse-ends_example : parse (10 ∷ 200 ∷ 1 ∷ 7 ∷ []) ≢ err out_of_fuel
parse-ends_example = parse-ends (10 ∷ 200 ∷ 1 ∷ 7 ∷ [])
