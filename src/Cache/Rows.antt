-- ===== src/Cache/Rows.antt =====
-- Lists of the cache's records, internal/cache/cache.go: sums of sizes, and no key twice.
use mathlib.Core.Path.{subst}
use windsurf_to_api_go.Prelude.{
  ℕ, suc, ◌+◌, String, true, false, not, none, some, List, [], ◌∷◌, ◌++◌, length, length-append,
  find, keep_if, same, same_iff, same_refl, Bool-cases, inl, inr, arith, ◌≡◌, refl, ap,
}
use windsurf_to_api_go.Cache.{Row, has_row_key, move_to_back}

abbrev pub others : String → List Row → List Row
others k rows = keep_if (λ s. not (same s.key k)) rows

unfoldable pub total_size : List Row → ℕ
total_size [] = 0
total_size (r ∷ rows) = r.size_bytes + total_size rows

-- No key stands twice.
abbrev pub UniqueRows : List Row → Type 0
UniqueRows [] = Unit
UniqueRows (r ∷ rows) = (find (has_row_key r.key) rows ≡ none) × UniqueRows rows

pub total_size-append : (xs ys : List Row) → total_size (xs ++ ys) ≡ total_size xs + total_size ys
unfolding total_size
total_size-append [] ys = omega arith
total_size-append (x ∷ xs) ys = omega (arith, total_size-append xs ys)

pub find-others :
    (k j : String) (rows : List Row)
    → find (has_row_key j) rows ≡ none
    → find (has_row_key j) (others k rows) ≡ none
find-others k j [] h = refl
find-others k j (r ∷ rows) h = ground (arith, find-others k j rows)

pub find-others_self : (k : String) (rows : List Row) → find (has_row_key k) (others k rows) ≡ none
find-others_self k [] = refl
find-others_self k (r ∷ rows) = ground (arith, find-others_self k rows)

pub others-UniqueRows :
    (k : String) (rows : List Row) → UniqueRows rows → UniqueRows (others k rows)
others-UniqueRows k [] u = tt
others-UniqueRows k (r ∷ rows) u = elim (Bool-cases (same r.key k)) [
  | inl e ↦ rw e (others-UniqueRows k rows u.1)
  | inr e ↦ rw e (find-others k r.key rows u.0, others-UniqueRows k rows u.1)
]

pub others-absent :
    (k : String) (rows : List Row) → find (has_row_key k) rows ≡ none → others k rows ≡ rows
others-absent k [] h = refl
others-absent k (r ∷ rows) h = elim (Bool-cases (same r.key k)) [
  | inl e ↦ absurd (let bad : some r ≡ none = rw e at h in cc)
  | inr e ↦ rw e (ap (λ l. r ∷ l) (others-absent k rows (rw e at h)))
]

-- Without the record of a key the sum is smaller by its size.
pub total_size-others :
    (k : String) (rows : List Row) (r : Row)
    → UniqueRows rows
    → find (has_row_key k) rows ≡ some r
    → (total_size (others k rows) + r.size_bytes ≡ total_size rows)
      × (length (others k rows) + 1 ≡ length rows)
      × (same r.key k ≡ true)
unfolding total_size
total_size-others k [] r u h = cc
total_size-others k (x ∷ rows) r u h = elim (Bool-cases (same x.key k)) [
  | inl e ↦
      let absent : find (has_row_key k) rows ≡ none =
        subst (λ j. find (has_row_key j) rows ≡ none) ((same_iff x.key k).0 e) u.0 in
      let h' : some x ≡ some r = rw e at h in
      let q : x ≡ r = cc in
      rw (e, others-absent k rows absent)
        (subst
          (λ (y : Row).
            (total_size rows + y.size_bytes ≡ x.size_bytes + total_size rows)
            × (length rows + 1 ≡ suc (length rows))
            × (same y.key k ≡ true))
          q (omega arith, omega arith, e))
  | inr e ↦
      let (sum, count, named) = total_size-others k rows r u.1 (rw e at h) in
      rw e (omega arith, omega arith, named)
]

pub find-snoc :
    (j : String) (rows : List Row) (r : Row)
    → find (has_row_key j) rows ≡ none
    → same r.key j ≡ false
    → find (has_row_key j) (rows ++ r ∷ []) ≡ none
find-snoc j [] r h e = rw e refl
find-snoc j (x ∷ rows) r h e = ground (arith, find-snoc j rows r)

pub UniqueRows-snoc :
    (rows : List Row) (r : Row)
    → UniqueRows rows
    → find (has_row_key r.key) rows ≡ none
    → UniqueRows (rows ++ r ∷ [])
UniqueRows-snoc [] r u h = (refl, tt)
UniqueRows-snoc (x ∷ rows) r u h =
    let different : same x.key r.key ≡ false = ground (arith, same_refl r.key) in
    (
      find-snoc x.key rows r u.0 (ground (arith, same_iff x.key r.key, same_iff r.key x.key)),
      UniqueRows-snoc rows r u.1 (rw different at h),
    )

-- An element moves to the back, with another size and another time perhaps.
pub moved_rows :
    (old new : Row) (rows : List Row)
    → UniqueRows rows
    → find (has_row_key new.key) rows ≡ some old
    → (length (move_to_back new rows) ≡ length rows)
      × UniqueRows (move_to_back new rows)
      × (total_size (move_to_back new rows) + old.size_bytes ≡ total_size rows + new.size_bytes)
unfolding move_to_back total_size
moved_rows old new rows u found =
    let (sum, count, named) = total_size-others new.key rows old u found in
    let left = others new.key rows in
    (
      omega (arith, length-append left (new ∷ [])),
      UniqueRows-snoc left new (others-UniqueRows new.key rows u) (find-others_self new.key rows),
      omega (arith, total_size-append left (new ∷ [])),
    )
