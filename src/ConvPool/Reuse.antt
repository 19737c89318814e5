-- ===== src/ConvPool/Reuse.antt =====
-- What a caller of internal/convpool/pool.go gets back, and when.
use windsurf_to_api_go.Prelude.{
  ℕ, ◌+◌, ◌-◌, ◌<◌, ◌≤◌, String, false, Option, none, some, length, same, same_iff, same_refl, ltb,
  Option-cases, inl, inr, arith, ◌≡◌, refl, ◌∙◌, ap, if◌then◌else◌,
}
use windsurf_to_api_go.Prelude.Dict
use windsurf_to_api_go.Prelude.Dict.{Dict}
use windsurf_to_api_go.ConvPool.{
  Entry, ConvPool, incr, ttl, max_size, checkout_entry, checkout, stamped, checkin,
}
use windsurf_to_api_go.ConvPool.Eviction.{IsBounded, evict_under, evict_over, named-put}
use mathlib.Core.Path.{subst, sym}
use mathlib.Core.List.{[], ◌∷◌}
use windsurf_to_api_go.Prelude.{All, Bool-cases, leb}

-- What `Checkout` answers for an entry that the map holds.
abbrev pub fresh : ℕ → Option Entry → Option Entry
fresh now none = none
fresh now (some e) = if ltb ttl (now - e.last_access) then none else some e

-- For a key that is not empty, `Checkout` answers the stored entry if it was used within the last ten
-- minutes, and takes it out: the key is gone afterwards, whatever the answer, and every other key is as
-- it was.
pub checkout_lem :
    (now : ℕ) (fp other : String) (p : ConvPool)
    → same fp "" ≡ false
    → ((checkout now fp p).1 ≡ fresh now (Dict.get fp p.entries))
      × (Dict.get other (checkout now fp p).0.entries
          ≡ (if same fp other then none else Dict.get other p.entries))
unfolding checkout checkout_entry
checkout_lem now fp other p h = elim (Option-cases (Dict.get fp p.entries)) [
  | inl e ↦ rw (h, e) (refl, ground (arith, same_iff fp other))
  | inr (x, e) ↦
      rw (h, e)
        (ground (
          arith,
          Dict.get-delete fp fp p.entries,
          Dict.get-delete fp other p.entries,
          same_iff fp other,
          same_refl fp,
        ))
]

-- Every entry of the map was last used before `t`.
abbrev pub IsOlder : ℕ → Dict Entry → Type 0
IsOlder t m = All (λ row. row.1.last_access < t) m

older_left :
    (t : ℕ) (fp : String) (x : Entry) (m : Dict Entry)
    → IsOlder t m
    → 1 < length (Dict.put fp x m)
    → All (λ row. t ≤ row.1.last_access) (Dict.put fp x m)
    → ⊥
unfolding Dict.put
older_left t fp x [] old many late = omega arith
older_left t fp x ((j, w) ∷ []) old many late = ground arith
older_left t fp x ((j, w) ∷ (k, v) ∷ m) old many late = ground arith

abbrev access : ℕ → Option Entry → ℕ
access t none = t
access t (some x) = x.last_access

-- The entry that makes room is not the one just put in, which is the newest.
evicted_other :
    (t : ℕ) (fp k : String) (e found : Entry) (m : Dict Entry)
    → IsOlder t m
    → 1 < length (Dict.put fp (stamped t e) m)
    → Dict.get k (Dict.put fp (stamped t e) m) ≡ some found
    → All (λ row. found.last_access ≤ row.1.last_access) (Dict.put fp (stamped t e) m)
    → same k fp ≡ false
unfolding stamped
evicted_other t fp k e found m old many got first = elim (Bool-cases (same k fp)) [
  | inl q ↦
      let named = (same_iff k fp).0 q in
      let same_entry =
        sym (Dict.get-put_self fp (stamped t e) m)
        ∙ subst (λ j. Dict.get j (Dict.put fp (stamped t e) m) ≡ some found) named got in
      let time : t ≡ found.last_access = ap (access t) same_entry in
      absurd (
        older_left t fp (stamped t e) m old many (
          subst (λ n. All (λ row. n ≤ row.1.last_access) (Dict.put fp (stamped t e) m)) (sym time)
            first))
  | inr q ↦ q
]

checkin-get :
    (t : ℕ) (fp : String) (e : Entry) (p : ConvPool)
    → same fp "" ≡ false
    → IsBounded p
    → IsOlder t p.entries
    → Dict.get fp (checkin t fp e p).entries ≡ some (stamped t e)
unfolding checkin
checkin-get t fp e p h b old =
    let stored = record p {
      entries = Dict.put fp (stamped t e) p.entries;
      stores = incr p.stores;
    } in
    rw h (elim (Bool-cases (leb (length stored.entries) max_size)) [
      | inl fits ↦
          rw (evict_under stored (ground arith)) (Dict.get-put_self fp (stamped t e) p.entries)
      | inr over ↦
          let many : max_size < length stored.entries = ground arith in
          let (k, found, got, first, q) =
            evict_over stored (Dict.put-UniqueDict fp (stamped t e) p.entries b.distinct)
              (named-put fp (stamped t e) p.entries h b.named)
              (omega (arith, Dict.length-put fp (stamped t e) p.entries, b.bounded)) in
          let other = evicted_other t fp k e found p.entries old (omega (arith, many)) got first in
          ap (λ (r : ConvPool). Dict.get fp r.entries) q
          ∙ Dict.get-delete k fp (Dict.put fp (stamped t e) p.entries)
          ∙ rw other (Dict.get-put_self fp (stamped t e) p.entries)
    ])

fresh-stamped :
    (t now : ℕ) (e : Entry) → now ≤ t + ttl → fresh now (some (stamped t e)) ≡ some (stamped t e)
unfolding stamped
fresh-stamped t now e h = ground arith

-- A cascade that is checked in under a key that is not empty, to a bounded pool of entries that were all
-- used before, is served once, also if the pool is full and an entry has to go: a checkout of the same key
-- within ten minutes gets it, stamped with the time of the checkin, and the next one gets nothing. No
-- other call comes between the checkin and the two checkouts.
pub checkout-checkin :
    (t now later : ℕ) (fp : String) (e : Entry) (p : ConvPool)
    → same fp "" ≡ false
    → IsBounded p
    → IsOlder t p.entries
    → now ≤ t + ttl
    → let (p', got) = checkout now fp (checkin t fp e p) in
      (got ≡ some (stamped t e)) × ((checkout later fp p').1 ≡ none)
checkout-checkin t now later fp e p h b old soon =
    let stored = checkin t fp e p in
    let first = checkout_lem now fp fp stored h in
    let gone : Dict.get fp (checkout now fp stored).0.entries ≡ none =
      first.1 ∙ rw (same_refl fp) refl in
    let second = checkout_lem later fp fp (checkout now fp stored).0 h in
    (
      first.0 ∙ ap (fresh now) (checkin-get t fp e p h b old) ∙ fresh-stamped t now e soon,
      second.0 ∙ ap (fresh later) gone,
    )
