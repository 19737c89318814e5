-- ===== src/Cache/Consistency.antt =====
-- The bookkeeping of the cache of internal/cache/cache.go, whatever the timing of its callers.
use mathlib.Core.Path.{subst}
use windsurf_to_api_go.Prelude.{
  ℕ, ◌+◌, ◌≤◌, String, some, List, length, same_iff, ltb, ◌==◌, Bool-cases, Option-cases, inl, inr,
  arith, ◌≡◌, refl, sym, ap, ◌∙◌,
}
use windsurf_to_api_go.Cache.{
  Row, Cache, row_of, remove_locked, miss, move_to_back, get_lookup, drop_element,
}
use windsurf_to_api_go.Cache.Rows.{
  total_size, UniqueRows, others-UniqueRows, total_size-others, moved_rows,
}

-- The byte count is the sum of the records' sizes, and no key stands twice.
pub record IsCounted (c : Cache) : Type 0 where
  pub unique : UniqueRows c.order
  pub counted : c.bytes_on_disk ≡ total_size c.order

-- The list is within its bound besides.
pub record IsConsistent (c : Cache) : Type 0 where
  pub bounded : length c.order ≤ c.max_items
  pub books : IsCounted c

pub row_of-key : (k : String) (r : Row) (c : Cache) → IsCounted c → row_of k c ≡ some r → r.key ≡ k
row_of-key k r c h found =
    let (sum, count, named) = total_size-others k c.order r h.unique found in
    (same_iff r.key k).0 named

pub remove_locked-IsCounted :
    (k : String) (r : Row) (c : Cache)
    → IsCounted c
    → row_of k c ≡ some r
    → IsCounted (remove_locked r c) × (length (remove_locked r c).order + 1 ≡ length c.order)
unfolding remove_locked
remove_locked-IsCounted k r c h found =
    let here = subst (λ j. row_of j c ≡ some r) (sym (row_of-key k r c h found)) found in
    let (sum, count, named) = total_size-others r.key c.order r h.unique here in
    (
      record {
        unique = others-UniqueRows r.key c.order h.unique;
        counted = omega (arith, h.counted);
      },
      count,
    )

remove_locked-IsConsistent :
    (k : String) (r : Row) (c : Cache)
    → IsConsistent c
    → row_of k c ≡ some r
    → IsConsistent (remove_locked r c)
unfolding remove_locked
remove_locked-IsConsistent k r c h found =
    let (books, count) = remove_locked-IsCounted k r c h.books found in
    record { bounded = omega (arith, count, h.bounded); books = books }

pub miss-IsConsistent : (c : Cache) → IsConsistent c → IsConsistent (miss c)
unfolding miss
miss-IsConsistent c h = record {
  bounded = h.bounded;
  books = record { unique = h.books.unique; counted = h.books.counted };
}

-- The list of a consistent cache, with an element moved to the back.
pub moved-IsConsistent :
    (k : String) (old new : Row) (c d : Cache)
    → IsConsistent c
    → row_of k c ≡ some old
    → new.key ≡ old.key
    → d.order ≡ move_to_back new c.order
    → d.max_items ≡ c.max_items
    → d.bytes_on_disk + old.size_bytes ≡ c.bytes_on_disk + new.size_bytes
    → IsConsistent d
moved-IsConsistent k old new c d h found named e m b =
    let key = named ∙ row_of-key k old c h.books found in
    let (count, unique, sum) =
      moved_rows old new c.order h.books.unique
        (subst (λ j. row_of j c ≡ some old) (sym key) found) in
    record {
      bounded = omega (arith, h.bounded, ap (λ (l : List Row). length l) e);
      books = record {
        unique = subst UniqueRows (sym e) unique;
        counted = omega (arith, h.books.counted, ap total_size e);
      };
    }

pub get_lookup-IsConsistent :
    (now : ℕ) (k : String) (c : Cache) → IsConsistent c → IsConsistent (get_lookup now k c).0
unfolding get_lookup
get_lookup-IsConsistent now k c h = elim (Option-cases (row_of k c)) [
  | inl e ↦ rw (get_lookup, e) (miss-IsConsistent c h)
  | inr (r, e) ↦ elim (Bool-cases (ltb r.expires_at now)) [
    | inl late ↦
        rw (get_lookup, e, late)
          (miss-IsConsistent (remove_locked r c) (remove_locked-IsConsistent k r c h e))
    | inr fresh ↦ rw (get_lookup, e, fresh) (moved-IsConsistent k r r c _ h e refl refl refl refl)
  ]
]

pub drop_element-IsConsistent :
    (r : Row) (c : Cache) → IsConsistent c → IsConsistent (drop_element r c)
unfolding drop_element
drop_element-IsConsistent r c h = elim (Option-cases (row_of r.key c)) [
  | inl e ↦ rw (drop_element, e) h
  | inr (there, e) ↦ elim (Bool-cases (there.id == r.id)) [
    | inl f ↦ rw (drop_element, e, f) (remove_locked-IsConsistent r.key there c h e)
    | inr f ↦ rw (drop_element, e, f) h
  ]
]
