-- ===== src/Auth/Preference.antt =====
-- The order of `Acquire`'s candidates, and what the head of the sorted slice is.
use native.Mathlib.Nat.{
  mul-le-mul_right, mul-lt-mul_of_pos_right, le_of_mul-le-mul_right, lt_of_mul-lt-mul_right,
}
use windsurf_to_api_go.Prelude.{
  ℕ, ◌-◌, ◌*◌, ◌<◌, ◌≤◌, Bool, true, false, not, List, [], ◌∷◌, All, Bool-cases, inl, inr, ltb,
  ◌==◌, arith, ◌≡◌, refl, sym, ap, if◌then◌else◌,
}
use mathlib.Core.Path.{subst}
use windsurf_to_api_go.Auth.Select.{Cand, less, insert_sorted, sort_slice}

-- x / p ≥ y / q ≥ z / r gives x / p ≥ z / r, and is strict if one of the two is.
cross_le : (x p y q z r : ℕ) → 0 < q → y * p ≤ x * q → z * q ≤ y * r → z * p ≤ x * r
cross_le x p y q z r hq h k =
    le_of_mul-le-mul_right {k = q}
      (omega (
        arith,
        mul-le-mul_right {m = y * p} {n = x * q} r h,
        mul-le-mul_right {m = z * q} {n = y * r} p k,
      ))
      hq

cross_lt_left : (x p y q z r : ℕ) → 0 < r → y * p < x * q → z * q ≤ y * r → z * p < x * r
cross_lt_left x p y q z r hr h k = lt_of_mul-lt-mul_right q (
    omega (
      arith,
      mul-lt-mul_of_pos_right {m = y * p} {n = x * q} h hr,
      mul-le-mul_right {m = z * q} {n = y * r} p k,
    ))

cross_lt_right : (x p y q z r : ℕ) → 0 < p → y * p ≤ x * q → z * q < y * r → z * p < x * r
cross_lt_right x p y q z r hp h k = lt_of_mul-lt-mul_right q (
    omega (
      arith,
      mul-le-mul_right {m = y * p} {n = x * q} r h,
      mul-lt-mul_of_pos_right {m = z * q} {n = y * r} k hp,
    ))

-- The order on what `less` reads of a candidate: budget left, limit, last use.
abbrev pub ahead : ℕ → ℕ → ℕ → ℕ → ℕ → ℕ → Bool
ahead x p s y q t = if not (x * q == y * p) then ltb (y * p) (x * q) else ltb s t

ahead_trans :
    (x p s y q t z r u : ℕ)
    → 0 < p
    → 0 < q
    → 0 < r
    → ahead x p s y q t ≡ true
    → ahead y q t z r u ≡ true
    → ahead x p s z r u ≡ true
ahead_trans x p s y q t z r u hp hq hr h k = ground (
  arith,
  cross_le x p y q z r hq,
  cross_le z r y q x p hq,
  cross_lt_left x p y q z r hr,
  cross_lt_right x p y q z r hp,
)

abbrev pub IsPositive : Cand → Type 0
IsPositive c = 0 < c.limit

less_trans :
    (c d e : Cand)
    → IsPositive c
    → IsPositive d
    → IsPositive e
    → less c d ≡ true
    → less d e ≡ true
    → less c e ≡ true
unfolding less
less_trans c d e pc pd pe h k =
    ahead_trans (c.limit - c.used) c.limit c.account.last_used (d.limit - d.used) d.limit
      d.account.last_used (e.limit - e.used) e.limit e.account.last_used pc pd pe h k

less_irrefl : (c : Cand) → less c c ≡ false
unfolding less
less_irrefl c = ground arith

-- The candidate at the head of the sorted slice: a later one takes its place only if it is less.
unfoldable pub best : Cand → List Cand → Cand
best c [] = c
best c (d ∷ ds) = best (if less d c then d else c) ds

pub sort_slice-best :
    (c : Cand) (s ds : List Cand) → (rest : List Cand) × (sort_slice (c ∷ s) ds ≡ best c ds ∷ rest)
unfolding sort_slice insert_sorted best
sort_slice-best c s [] = (s, refl)
sort_slice-best c s (d ∷ ds) = elim (Bool-cases (less d c)) [
  | inl h ↦ rw h (sort_slice-best d (c ∷ s) ds)
  | inr h ↦ rw h (sort_slice-best c (insert_sorted d s) ds)
]

-- `best` is one of the candidates.
pub best-All {κ} : (P : Cand → Type κ) (c : Cand) (ds : List Cand) → P c → All P ds → P (best c ds)
unfolding best
best-All P c [] pc h = pc
best-All P c (d ∷ ds) pc h = elim (Bool-cases (less d c)) [
  | inl e ↦ rw e (best-All P d ds h.0 h.1)
  | inr e ↦ rw e (best-All P c ds pc h.1)
]

-- Whoever is not ahead of an early champion is not ahead of the last one.
best-keeps :
    (e c : Cand) (ds : List Cand)
    → IsPositive e
    → IsPositive c
    → All IsPositive ds
    → less e c ≡ false
    → less e (best c ds) ≡ false
unfolding best
best-keeps e c [] pe pc pds h = h
best-keeps e c (d ∷ ds) pe pc pds h = elim (Bool-cases (less d c)) [
  | inl dc ↦ rw dc (best-keeps e d ds pe pds.0 pds.1 (ground (arith, less_trans e d c pe pds.0 pc)))
  | inr dc ↦ rw dc (best-keeps e c ds pe pc pds.1 h)
]

-- No candidate comes before the best.
pub best-first :
    (c : Cand) (ds : List Cand)
    → IsPositive c
    → All IsPositive ds
    → All (λ e. less e (best c ds) ≡ false) (c ∷ ds)
unfolding best
best-first c [] pc pds = (less_irrefl c, tt)
best-first c (d ∷ ds) pc pds =
    let NoneAhead = λ (b : Cand). All (λ e. less e b ≡ false) (c ∷ d ∷ ds) in
    let step = λ (b : Bool). best (if b then d else c) ds in
    elim (Bool-cases (less d c)) [
      | inl dc ↦
          let rest = best-first d ds pds.0 pds.1 in
          subst NoneAhead (sym (ap step dc)) (
            best-keeps c d ds pc pds.0 pds.1
                (ground (arith, less_trans c d c pc pds.0 pc, less_irrefl c)),
            rest,
          )
      | inr dc ↦
          let rest = best-first c ds pc pds.1 in
          subst NoneAhead (sym (ap step dc)) (rest.0, (best-keeps d c ds pds.0 pc pds.1 dc, rest.1))
    ]
