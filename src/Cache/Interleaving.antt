-- ===== src/Cache/Interleaving.antt =====
-- Any interleaving of the steps of internal/cache/cache.go leaves the cache consistent.
use windsurf_to_api_go.Prelude.{
  ℕ, zero, suc, ◌+◌, ◌-◌, ◌≤◌, String, Bool, true, false, Option, none, some, List, [], ◌∷◌, length,
  find, same_refl, ltb, Bool-cases, Option-cases, inl, inr, arith, ◌≡◌, refl, ap, ◌∙◌,
}
use windsurf_to_api_go.Prelude.Dict
use windsurf_to_api_go.Cache.{
  Row, Cache, Value, has_row_key, row_of, remove_locked, get_lookup, drop_element, get_read,
  decoded, set_write, evict_front, evict_loop, push, renew, set_commit, clear_entries, Counter,
  hits_of, misses_of, stores_of, evictions_of, reset_counter,
}
use windsurf_to_api_go.Cache.Rows.{
  total_size, total_size-append, total_size-others, UniqueRows-snoc,
}
use windsurf_to_api_go.Cache.Consistency.{
  IsCounted, IsConsistent, remove_locked-IsCounted, moved-IsConsistent, miss-IsConsistent,
  get_lookup-IsConsistent, drop_element-IsConsistent,
}

get_read-IsConsistent :
    (unmarshal : List ℕ → Option Value) (r : Row) (c : Cache)
    → IsConsistent c
    → IsConsistent (get_read unmarshal r c).0
unfolding get_read
get_read-IsConsistent unmarshal r c h =
    elim (Option-cases (decoded unmarshal (Dict.get r.key c.files))) [
      | inl e ↦
          rw (get_read, e) (miss-IsConsistent (drop_element r c) (drop_element-IsConsistent r c h))
      | inr (v, e) ↦
          rw (get_read, e)
            (record {
              bounded = h.bounded;
              books = record { unique = h.books.unique; counted = h.books.counted };
            })
    ]

-- A record at the front is the one that its key has.
front_found :
    (front : Row) (rest : List Row) → find (has_row_key front.key) (front ∷ rest) ≡ some front
front_found front rest = rw (same_refl front.key) refl

evict_front-IsCounted :
    (c : Cache) (rows : List Row)
    → c.order ≡ rows
    → IsCounted c
    → IsCounted (evict_front c rows) × (length (evict_front c rows).order ≡ length c.order - 1)
unfolding evict_front
evict_front-IsCounted c [] e h = (h, omega (arith, ap (λ (l : List Row). length l) e))
evict_front-IsCounted c (front ∷ rest) e h =
    let found : row_of front.key c ≡ some front =
      ap (λ (l : List Row). find (has_row_key front.key) l) e ∙ front_found front rest in
    let (books, count) = remove_locked-IsCounted front.key front c h found in
    (record { unique = books.unique; counted = books.counted }, omega (arith, count))

pub evict_front-max_items :
    (c : Cache) (rows : List Row) → (evict_front c rows).max_items ≡ c.max_items
unfolding evict_front remove_locked
evict_front-max_items c [] = refl
evict_front-max_items c (front ∷ rest) = refl

evict_loop-IsConsistent :
    (fuel : ℕ) (c : Cache)
    → IsCounted c
    → length c.order ≤ c.max_items + fuel
    → IsConsistent (evict_loop fuel c)
unfolding evict_loop
evict_loop-IsConsistent zero c h le = record { bounded = omega (arith, le); books = h }
evict_loop-IsConsistent (suc fuel) c h le = elim (Bool-cases (ltb c.max_items (length c.order))) [
  | inl e ↦
      let (books, count) = evict_front-IsCounted c c.order refl h in
      rw e (
        evict_loop-IsConsistent fuel (evict_front c c.order) books
          (omega (arith, count, le, evict_front-max_items c c.order)))
  | inr e ↦ rw e (record { bounded = ground arith; books = h })
]

push-IsCounted :
    (now : ℕ) (k : String) (size : ℕ) (c : Cache)
    → IsCounted c
    → row_of k c ≡ none
    → IsCounted (push now k size c)
unfolding push total_size
push-IsCounted now k size c h absent =
    let r : Row = record {
      key = k;
      expires_at = now + c.lifetime;
      size_bytes = size;
      id = c.next_id;
    } in
    record {
      unique = UniqueRows-snoc c.order r h.unique absent;
      counted = omega (arith, h.counted, total_size-append c.order (r ∷ []));
    }

total_size-row :
    (k : String) (r : Row) (c : Cache)
    → IsCounted c
    → row_of k c ≡ some r
    → r.size_bytes ≤ c.bytes_on_disk
total_size-row k r c h e =
    let (sum, count, named) = total_size-others k c.order r h.unique e in omega (arith, h.counted)

renew-IsConsistent :
    (now size : ℕ) (k : String) (r : Row) (c : Cache)
    → IsConsistent c
    → row_of k c ≡ some r
    → IsConsistent (renew now size r c)
unfolding renew
renew-IsConsistent now size k r c h e =
    moved-IsConsistent k r (record r { expires_at = now + c.lifetime; size_bytes = size }) c
      (renew now size r c) h e refl refl refl (omega (arith, total_size-row k r c h.books e))

set_commit-IsConsistent :
    (now : ℕ) (k : String) (size : ℕ) (c : Cache)
    → IsConsistent c
    → IsConsistent (set_commit now k size c)
unfolding set_commit
set_commit-IsConsistent now k size c h = elim (Option-cases (Dict.get k c.files)) [
  | inl gone ↦ rw (set_commit, gone) h
  | inr (blob, there) ↦ elim (Option-cases (row_of k c)) [
    | inl e ↦
        rw (set_commit, there, e)
          (evict_loop-IsConsistent (length (push now k size c).order) (push now k size c)
            (push-IsCounted now k size c h.books e) (omega arith))
    | inr (r, e) ↦ rw (set_commit, there, e) (renew-IsConsistent now size k r c h e)
  ]
]

-- The steps that callers take, each under the lock or on the disk, with any arguments.
pub data Step : Type 0 where
  looked_up : ℕ → String → Step
  read_file : (List ℕ → Option Value) → Row → Step
  wrote_file : Bool → String → List ℕ → Step
  committed : ℕ → String → ℕ → Step
  cleared : Step
  counter_reset : Counter → Step

unfoldable pub step : Step → Cache → Cache
unfolding get_lookup get_read set_write set_commit clear_entries reset_counter
step (looked_up now k) c = (get_lookup now k c).0
step (read_file unmarshal r) c = (get_read unmarshal r c).0
step (wrote_file writable k blob) c = set_write writable k blob c
step (committed now k size) c = set_commit now k size c
step cleared c = clear_entries c
step (counter_reset n) c = reset_counter n c

unfoldable pub run : List Step → Cache → Cache
unfolding step
run [] c = c
run (s ∷ steps) c = run steps (step s c)

set_write-IsConsistent :
    (writable : Bool) (k : String) (blob : List ℕ) (c : Cache)
    → IsConsistent c
    → IsConsistent (set_write writable k blob c)
unfolding set_write
set_write-IsConsistent true k blob c h = record {
  bounded = h.bounded;
  books = record { unique = h.books.unique; counted = h.books.counted };
}
set_write-IsConsistent false k blob c h = h

reset_counter-IsConsistent :
    (n : Counter) (c : Cache) → IsConsistent c → IsConsistent (reset_counter n c)
unfolding reset_counter
reset_counter-IsConsistent hits_of c h = record {
  bounded = h.bounded;
  books = record { unique = h.books.unique; counted = h.books.counted };
}
reset_counter-IsConsistent misses_of c h = record {
  bounded = h.bounded;
  books = record { unique = h.books.unique; counted = h.books.counted };
}
reset_counter-IsConsistent stores_of c h = record {
  bounded = h.bounded;
  books = record { unique = h.books.unique; counted = h.books.counted };
}
reset_counter-IsConsistent evictions_of c h = record {
  bounded = h.bounded;
  books = record { unique = h.books.unique; counted = h.books.counted };
}

step-IsConsistent : (s : Step) (c : Cache) → IsConsistent c → IsConsistent (step s c)
unfolding step clear_entries total_size
step-IsConsistent (looked_up now k) c h = get_lookup-IsConsistent now k c h
step-IsConsistent (read_file unmarshal r) c h = get_read-IsConsistent unmarshal r c h
step-IsConsistent (wrote_file writable k blob) c h = set_write-IsConsistent writable k blob c h
step-IsConsistent (committed now k size) c h = set_commit-IsConsistent now k size c h
step-IsConsistent (counter_reset n) c h = reset_counter-IsConsistent n c h
step-IsConsistent cleared c h = record {
  bounded = omega arith;
  books = record { unique = tt; counted = refl };
}

-- However the steps of `Get`, `Set` and `Clear` of many callers interleave, the cache stays within its
-- bound, holds each key once, and counts the bytes of exactly the records that it holds.
pub run-IsConsistent : (steps : List Step) (c : Cache) → IsConsistent c → IsConsistent (run steps c)
unfolding run
run-IsConsistent [] c h = h
run-IsConsistent (s ∷ steps) c h = run-IsConsistent steps (step s c) (step-IsConsistent s c h)
