-- ===== src/Cache.antt =====
-- The response cache on disk, internal/cache/cache.go: a list of records in the order of their last use,
-- and a file for each. The code's map holds the list's elements by their keys, and each operation
-- changes both, so a lookup in it is a search of the list. `id` tells an element from a later one with
-- its key. `Get` and `Set` release the lock around their file access, and are two steps each. The JSON
-- encoding is a parameter; a file name is its key.
pub mod Rows
pub mod Consistency
pub mod Interleaving
pub mod Replay
use windsurf_to_api_go.Prelude.{
  ℕ, zero, suc, ◌+◌, ◌-◌, ◌%◌, String, Bool, true, false, not, ◌&&◌, Option, none, some, List, [],
  ◌∷◌, ◌++◌, length, find, keep_if, update_first, same, ltb, ◌==◌, if◌then◌else◌,
}
use windsurf_to_api_go.Prelude.Dict
use windsurf_to_api_go.Prelude.Dict.{Dict}

pub record Value : Type 0 where
  pub text : String
  pub thinking : String

pub record Row : Type 0 where
  pub key : String
  pub expires_at : ℕ
  pub size_bytes : ℕ
  pub id : ℕ

-- The package's variables, the directory's files, and the next `id`; the counters are `uint64`.
pub record Cache : Type 0 where
  pub order : List Row
  pub files : Dict (List ℕ)
  pub lifetime : ℕ
  pub max_items : ℕ
  pub bytes_on_disk : ℕ
  pub hits : ℕ
  pub misses : ℕ
  pub stores : ℕ
  pub evictions : ℕ
  pub next_id : ℕ

abbrev pub incr : ℕ → ℕ
incr n = (n + 1) % 18446744073709551616

abbrev pub has_row_key : String → Row → Bool
has_row_key k r = same r.key k

abbrev pub row_of : String → Cache → Option Row
row_of k c = find (has_row_key k) c.order

-- `removeLocked`.
unfoldable pub remove_locked : Row → Cache → Cache
remove_locked r c = record c {
  order = keep_if (λ s. not (same s.key r.key)) c.order;
  bytes_on_disk = c.bytes_on_disk - r.size_bytes;
  files = Dict.delete r.key c.files;
}

unfoldable pub miss : Cache → Cache
miss c = record c { misses = incr c.misses }

-- `MoveToBack`.
unfoldable pub move_to_back : Row → List Row → List Row
move_to_back r rows = keep_if (λ s. not (same s.key r.key)) rows ++ r ∷ []

-- The first half of `Get`: the element, unless it is missing or has expired.
unfoldable pub get_lookup : ℕ → String → Cache → Cache × Option Row
unfolding remove_locked miss move_to_back
get_lookup now k c = elim (row_of k c) [
  | none ↦ (miss c, none)
  | some r ↦
      if ltb r.expires_at now
      then (miss (remove_locked r c), none)
      else (record c { order = move_to_back r c.order }, some r)
]

-- A failed read drops the element, if the key still has it.
unfoldable pub drop_element : Row → Cache → Cache
unfolding remove_locked
drop_element r c = elim (row_of r.key c) [
  | none ↦ c
  | some now_there ↦ if now_there.id == r.id then remove_locked now_there c else c
]

abbrev pub decoded : (List ℕ → Option Value) → Option (List ℕ) → Option Value
decoded unmarshal none = none
decoded unmarshal (some raw) = unmarshal raw

-- The second half of `Get`, on the element that the first half found: the file is read and parsed.
unfoldable pub get_read : (List ℕ → Option Value) → Row → Cache → Cache × Option Value
unfolding drop_element miss
get_read unmarshal r c = elim (decoded unmarshal (Dict.get r.key c.files)) [
  | none ↦ (miss (drop_element r c), none)
  | some v ↦ (record c { hits = incr c.hits }, some v)
]

unfoldable pub get : (List ℕ → Option Value) → ℕ → String → Cache → Cache × Option Value
unfolding get_lookup get_read
get unmarshal now k c = elim ((get_lookup now k c).1) [
  | none ↦ ((get_lookup now k c).0, none)
  | some r ↦ get_read unmarshal r (get_lookup now k c).0
]

-- The first half of `Set`: the file is written, if the disk takes it.
unfoldable pub set_write : Bool → String → List ℕ → Cache → Cache
set_write writable k blob c = if writable then record c { files = Dict.put k blob c.files } else c

-- A round of the loop that evicts from the front.
unfoldable pub evict_front : Cache → List Row → Cache
unfolding remove_locked
evict_front c [] = c
evict_front c (front ∷ rest) = record (remove_locked front c) { evictions = incr c.evictions }

-- The loop. Each round drops a record, so their count is enough fuel.
unfoldable pub evict_loop : ℕ → Cache → Cache
unfolding evict_front
evict_loop zero c = c
evict_loop (suc fuel) c =
    let next = evict_loop fuel (evict_front c c.order) in
    if ltb c.max_items (length c.order) then next else c

unfoldable pub push : ℕ → String → ℕ → Cache → Cache
push now k size c = record c {
  order =
      c.order
      ++ record { key = k; expires_at = now + c.lifetime; size_bytes = size; id = c.next_id } ∷ [];
  bytes_on_disk = c.bytes_on_disk + size;
  stores = incr c.stores;
  next_id = c.next_id + 1;
}

-- The update of the record that the key has.
unfoldable pub renew : ℕ → ℕ → Row → Cache → Cache
unfolding move_to_back
renew now size r c = record c {
  order = move_to_back (record r { expires_at = now + c.lifetime; size_bytes = size }) c.order;
  bytes_on_disk = c.bytes_on_disk + size - r.size_bytes;
}

-- The second half of `Set`, under the lock: nothing if a `Clear` has removed the file since.
unfoldable pub set_commit : ℕ → String → ℕ → Cache → Cache
unfolding push renew evict_loop
set_commit now k size c = elim (Dict.get k c.files) [
  | none ↦ c
  | some there ↦ elim (row_of k c) [
    | some r ↦ renew now size r c
    | none ↦ evict_loop (length (push now k size c).order) (push now k size c)
  ]
]

-- `Set`: an empty entry is not stored, nor one that cannot be encoded.
unfoldable pub set : (Value → Option (List ℕ)) → Bool → ℕ → String → Value → Cache → Cache
unfolding set_write set_commit
set marshal writable now k v c =
    if same v.text "" && same v.thinking "" then c else elim (marshal v) [
      | none ↦ c
      | some blob ↦ if writable then set_commit now k (length blob) (set_write true k blob c) else c
    ]

-- `Clear` under the lock, and the stores that follow it one by one.
unfoldable pub clear_entries : Cache → Cache
clear_entries c = record c { order = []; files = []; bytes_on_disk = 0 }

pub data Counter : Type 0 where
  hits_of : Counter
  misses_of : Counter
  stores_of : Counter
  evictions_of : Counter

unfoldable pub reset_counter : Counter → Cache → Cache
reset_counter hits_of c = record c { hits = 0 }
reset_counter misses_of c = record c { misses = 0 }
reset_counter stores_of c = record c { stores = 0 }
reset_counter evictions_of c = record c { evictions = 0 }

unfoldable pub clear : Cache → Cache
unfolding clear_entries reset_counter
clear c =
    reset_counter evictions_of
      (reset_counter stores_of (reset_counter misses_of (reset_counter hits_of (clear_entries c))))
