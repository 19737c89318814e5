-- ===== src/ConvPool/Eviction.antt =====
-- The bound on the pool of internal/convpool/pool.go, and which entry makes room.
use windsurf_to_api_go.Prelude.{
  ℕ, ◌+◌, ◌<◌, ◌≤◌, String, true, false, not, Option, none, some, [], ◌∷◌, All, length,
  length-keep_if, All-keep_if, same, same_iff, same_refl, ltb, leb, Bool-cases, inl, inr, arith,
  ◌≡◌, refl,
}
use mathlib.Core.Path.{subst}
use windsurf_to_api_go.Prelude.Dict
use windsurf_to_api_go.Prelude.Dict.{Dict, UniqueDict}
use windsurf_to_api_go.ConvPool.{
  Entry, ConvPool, max_size, checkout_entry, checkout, oldest, oldest_key, evict, stamped, checkin,
  owned_by, invalidate_for, incr,
}

abbrev HasKey : String × Entry → Type 0
HasKey row = same row.0 "" ≡ false

-- The pool holds at most `max_size` entries, each key once, and never the empty key.
pub record IsBounded (p : ConvPool) : Type 0 where
  pub bounded : length p.entries ≤ max_size
  pub distinct : UniqueDict p.entries
  pub named : All HasKey p.entries

pub named-put :
    (k : String) (e : Entry) (m : Dict Entry)
    → same k "" ≡ false
    → All HasKey m
    → All HasKey (Dict.put k e m)
unfolding Dict.put
named-put k e [] h a = (h, tt)
named-put k e ((j, w) ∷ m) h a = ground (arith, named-put k e m h a.1)

named-delete : (k : String) (m : Dict Entry) → All HasKey m → All HasKey (Dict.delete k m)
unfolding Dict.delete
named-delete k [] a = tt
named-delete k ((j, w) ∷ m) a = ground (arith, named-delete k m a.1)

get-tail :
    (k j : String) (w e : Entry) (m : Dict Entry)
    → Dict.get k m ≡ none
    → Dict.get j m ≡ some e
    → Dict.get j ((k, w) ∷ m) ≡ some e
unfolding Dict.get
get-tail k j w e m u h = elim (Bool-cases (same k j)) [
  | inl q ↦
      let gone : Dict.get j m ≡ none = subst (λ x. Dict.get x m ≡ none) ((same_iff k j).0 q) u in cc
  | inr q ↦ rw q h
]

get-head : (k : String) (w : Entry) (m : Dict Entry) → Dict.get k ((k, w) ∷ m) ≡ some w
unfolding Dict.get
get-head k w m = rw (same_refl k) refl

-- The search ends at the key that it had, or at a key of the rows to go; either way at one that the map
-- holds, and no row and no key before has an older entry.
oldest-found :
    (key : String) (time : ℕ) (m all : Dict Entry)
    → ((e : Entry) × (Dict.get key all ≡ some e) × (e.last_access ≡ time))
    → UniqueDict m
    → ((k : String) (e : Entry) → Dict.get k m ≡ some e → Dict.get k all ≡ some e)
    → (e : Entry) × (Dict.get (oldest key time m) all ≡ some e)
      × (e.last_access ≤ time)
      × All (λ row. e.last_access ≤ row.1.last_access) m
unfolding oldest
oldest-found key time [] all (e, f, q) u sub = (e, f, omega arith, tt)
oldest-found key time ((k, w) ∷ m) all known u sub = elim (Bool-cases (ltb w.last_access time)) [
  | inl h ↦
      let sub' = λ (j : String) (e : Entry) (g : Dict.get j m ≡ some e).
        sub j e (get-tail k j w e m u.0 g) in
      let (e, f, le, first) =
        oldest-found k w.last_access m all (w, sub k w (get-head k w m), refl) u.1 sub' in
      rw h (e, f, ground arith, (le, first))
  | inr h ↦
      let sub' = λ (j : String) (e : Entry) (g : Dict.get j m ≡ some e).
        sub j e (get-tail k j w e m u.0 g) in
      let (e, f, le, first) = oldest-found key time m all known u.1 sub' in
      rw h (e, f, le, (ground arith, first))
]

-- Of a pool with entries, the key found is in it, and no entry was last used earlier than its.
oldest_key-found :
    (m : Dict Entry)
    → UniqueDict m
    → 0 < length m
    → (e : Entry) × (Dict.get (oldest_key m) m ≡ some e)
      × All (λ row. e.last_access ≤ row.1.last_access) m
unfolding oldest_key
oldest_key-found [] u h = absurd (omega arith)
oldest_key-found ((k, w) ∷ m) u h =
    let sub = λ (j : String) (e : Entry) (g : Dict.get j m ≡ some e). get-tail k j w e m u.0 g in
    let (e, f, le, first) =
      oldest-found k w.last_access m ((k, w) ∷ m) (w, get-head k w m, refl) u.1 sub in
    (e, f, (le, first))

named-get :
    (k : String) (e : Entry) (m : Dict Entry)
    → All HasKey m
    → Dict.get k m ≡ some e
    → same k "" ≡ false
unfolding Dict.get
named-get k e [] a h = cc
named-get k e ((j, w) ∷ m) a h = elim (Bool-cases (same j k)) [
  | inl q ↦ subst (λ x. same x "" ≡ false) ((same_iff j k).0 q) a.0
  | inr q ↦ named-get k e m a.1 (rw q at h)
]

-- A pool one entry over the bound comes back to it: its least recently used entry goes.
pub evict_over :
    (p : ConvPool)
    → UniqueDict p.entries
    → All HasKey p.entries
    → length p.entries ≡ max_size + 1
    → (k : String) × (e : Entry) × (Dict.get k p.entries ≡ some e)
      × All (λ row. e.last_access ≤ row.1.last_access) p.entries
      × (evict p ≡ record p { entries = Dict.delete k p.entries; evictions = incr p.evictions })
unfolding evict
evict_over p u a over =
    let (e, f, first) = oldest_key-found p.entries u (omega arith) in
    let key : same (oldest_key p.entries) "" ≡ false =
      named-get (oldest_key p.entries) e p.entries a f in
    let full : ltb max_size (length p.entries) ≡ true = ground arith in
    (oldest_key p.entries, e, f, first, rw (full, key) refl)

pub evict_under : (p : ConvPool) → length p.entries ≤ max_size → evict p ≡ p
unfolding evict
evict_under p h = ground arith

evict-IsBounded :
    (p : ConvPool)
    → UniqueDict p.entries
    → All HasKey p.entries
    → length p.entries ≤ max_size + 1
    → IsBounded (evict p)
evict-IsBounded p u a h = elim (Bool-cases (leb (length p.entries) max_size)) [
  | inl fits ↦
      rw (evict_under p (ground arith)) (record { bounded = ground arith; distinct = u; named = a })
  | inr over ↦
      let (k, e, f, first, q) = evict_over p u a (ground arith) in
      rw q (record {
        bounded = omega (arith, Dict.length-delete_present k p.entries e f);
        distinct = Dict.delete-UniqueDict k p.entries u;
        named = named-delete k p.entries a;
      })
]

-- `Checkin` keeps the pool bounded: at most `max_size` entries, each key once, and no empty key.
pub checkin-IsBounded :
    (now : ℕ) (fp : String) (e : Entry) (p : ConvPool)
    → IsBounded p
    → IsBounded (checkin now fp e p)
unfolding checkin
checkin-IsBounded now fp e p b = elim (Bool-cases (same fp "")) [
  | inl q ↦ rw q b
  | inr q ↦ rw q (
      evict-IsBounded _ (Dict.put-UniqueDict fp (stamped now e) p.entries b.distinct)
        (named-put fp (stamped now e) p.entries q b.named)
        (omega (arith, Dict.length-put fp (stamped now e) p.entries, b.bounded)))
]

delete-IsBounded :
    (k : String) (p q : ConvPool) → IsBounded p → q.entries ≡ Dict.delete k p.entries → IsBounded q
delete-IsBounded k p q b e = record {
  bounded = rw e (omega (arith, Dict.length-delete k p.entries, b.bounded));
  distinct = rw e (Dict.delete-UniqueDict k p.entries b.distinct);
  named = rw e (named-delete k p.entries b.named);
}

checkout_entry-IsBounded :
    (now : ℕ) (fp : String) (p : ConvPool) (found : Option Entry)
    → IsBounded p
    → IsBounded (checkout_entry now fp p found).0
unfolding checkout_entry
checkout_entry-IsBounded now fp p none b = record {
  bounded = b.bounded;
  distinct = b.distinct;
  named = b.named;
}
checkout_entry-IsBounded now fp p (some e) b = delete-IsBounded fp p _ b (ground arith)

-- `Checkout` keeps the pool bounded, whatever key it is asked for.
pub checkout-IsBounded :
    (now : ℕ) (fp : String) (p : ConvPool) → IsBounded p → IsBounded (checkout now fp p).0
unfolding checkout
checkout-IsBounded now fp p b = elim (Bool-cases (same fp "")) [
  | inl q ↦ rw q (record { bounded = b.bounded; distinct = b.distinct; named = b.named })
  | inr q ↦ rw q (checkout_entry-IsBounded now fp p (Dict.get fp p.entries) b)
]

-- `InvalidateFor` keeps the pool bounded, whatever account and port it is asked for.
pub invalidate_for-IsBounded :
    (api_key : String) (ls_port : ℕ) (p : ConvPool)
    → IsBounded p
    → IsBounded (invalidate_for api_key ls_port p).0
unfolding invalidate_for
invalidate_for-IsBounded api_key ls_port p b = record {
  bounded =
      omega
        (arith, length-keep_if (λ row. not (owned_by api_key ls_port row.1)) p.entries, b.bounded);
  distinct = Dict.keep_if-UniqueDict (λ e. not (owned_by api_key ls_port e)) p.entries b.distinct;
  named = All-keep_if HasKey (λ row. not (owned_by api_key ls_port row.1)) p.entries b.named;
}
