-- ===== src/Cache/Replay.antt =====
-- What `Set` stores, `Get` replays: internal/cache/cache.go without other callers in between.
use mathlib.Core.Path.{subst}
use windsurf_to_api_go.Prelude.{
  ℕ, zero, suc, ◌+◌, ◌<◌, ◌≤◌, String, true, false, ◌&&◌, Option, none, some, List, [], ◌∷◌, ◌++◌,
  length, find, same, same_iff, same_refl, ltb, Bool-cases, Option-cases, inl, inr, arith, ◌≡◌,
  refl, sym, ap, ◌∙◌,
}
use windsurf_to_api_go.Prelude.Dict
use windsurf_to_api_go.Cache.{
  Row, Cache, Value, has_row_key, row_of, remove_locked, move_to_back, get_lookup, get_read, get,
  decoded, set_write, evict_front, evict_loop, push, renew, set_commit, set,
}
use windsurf_to_api_go.Cache.Rows.{
  others, UniqueRows, others-absent, others-UniqueRows, find-others_self, UniqueRows-snoc,
}
use windsurf_to_api_go.Cache.Consistency.{IsConsistent, row_of-key}
use windsurf_to_api_go.Cache.Interleaving.{evict_front-max_items}

module _ (k : String) (blob : List ℕ) (now : ℕ) where
  -- The key's record is the last one, it is still good at `now`, and its file holds the bytes.
  record Holds (c : Cache) : Type 0 where
    before : List Row
    last : Row
    split : c.order ≡ before ++ last ∷ []
    named : last.key ≡ k
    good : now ≤ last.expires_at
    file : Dict.get k c.files ≡ some blob
    unique : UniqueRows (before ++ last ∷ [])

  -- A record before the last one has another key.
  different :
      (x : Row) (rest : List Row) (last : Row)
      → find (has_row_key x.key) rest ≡ none
      → find (has_row_key k) rest ≡ some last
      → same x.key k ≡ false
  different x rest last none_there found = elim (Bool-cases (same x.key k)) [
    | inl s ↦
        let absent : find (has_row_key k) rest ≡ none =
          subst (λ j. find (has_row_key j) rest ≡ none) ((same_iff x.key k).0 s) none_there in
        absurd (let bad : some last ≡ none = sym found ∙ absent in cc)
    | inr s ↦ s
  ]

  find-last :
      (before : List Row) (last : Row)
      → UniqueRows (before ++ last ∷ [])
      → last.key ≡ k
      → find (has_row_key k) (before ++ last ∷ []) ≡ some last
  find-last [] last u e = rw e (rw (same_refl k) refl)
  find-last (x ∷ before) last u e =
      let ih = find-last before last u.1 e in rw (different x (before ++ last ∷ []) last u.0 ih) ih

  others_first :
      (x : Row) (rest : List Row)
      → find (has_row_key x.key) rest ≡ none
      → others x.key (x ∷ rest) ≡ rest
  others_first x rest h = rw (same_refl x.key) (others-absent x.key rest h)

  evict_first :
      (c : Cache) (before : List Row) (last : Row)
      → c.order ≡ before ++ last ∷ []
      → 1 < length (before ++ last ∷ [])
      → UniqueRows (before ++ last ∷ [])
      → last.key ≡ k
      → now ≤ last.expires_at
      → Dict.get k c.files ≡ some blob
      → Holds (evict_front c (before ++ last ∷ []))
  unfolding evict_front remove_locked
  evict_first c [] last split long u named good file = absurd (omega arith)
  evict_first c (x ∷ before) last split long u named good file =
      let found = find-last before last u.1 named in
      record {
        before = before;
        last = last;
        split = ap (others x.key) split ∙ others_first x (before ++ last ∷ []) u.0;
        named = named;
        good = good;
        file =
            Dict.get-delete x.key k c.files
            ∙ rw (different x (before ++ last ∷ []) last u.0 found) file;
        unique = u.1;
      }

  evict_front-Holds : (c : Cache) → 1 < length c.order → Holds c → Holds (evict_front c c.order)
  evict_front-Holds c long h =
      subst (λ rows. Holds (evict_front c rows)) (sym h.split)
        (evict_first c h.before h.last h.split
          (omega (arith, long, ap (λ (l : List Row). length l) h.split)) h.unique h.named h.good
          h.file)

  evict_loop-Holds : (fuel : ℕ) (c : Cache) → 1 ≤ c.max_items → Holds c → Holds (evict_loop fuel c)
  unfolding evict_loop
  evict_loop-Holds zero c room h = h
  evict_loop-Holds (suc fuel) c room h = elim (Bool-cases (ltb c.max_items (length c.order))) [
    | inl e ↦ rw e (
        evict_loop-Holds fuel (evict_front c c.order)
          (subst (λ m. 1 ≤ m) (sym (evict_front-max_items c c.order)) room)
          (evict_front-Holds c (ground arith) h))
    | inr e ↦ rw e h
  ]

  lookup-Holds :
      (c : Cache) (h : Holds c)
      → get_lookup now k c ≡ (record c { order = move_to_back h.last c.order }, some h.last)
  unfolding get_lookup
  lookup-Holds c h =
      let found : row_of k c ≡ some h.last =
        ap (λ (l : List Row). find (has_row_key k) l) h.split
        ∙ find-last h.before h.last h.unique h.named in
      let fresh : ltb h.last.expires_at now ≡ false = ground (arith, h.good) in
      rw (get_lookup, found, fresh) refl

  get_read-answer :
      (unmarshal : List ℕ → Option Value) (v : Value) (r : Row) (c : Cache)
      → unmarshal blob ≡ some v
      → Dict.get r.key c.files ≡ some blob
      → (get_read unmarshal r c).1 ≡ some v
  unfolding get_read
  get_read-answer unmarshal v r c read file =
      let whole : decoded unmarshal (Dict.get r.key c.files) ≡ some v =
        ap (decoded unmarshal) file ∙ read in
      rw (get_read, whole) refl

  -- A `Get` finds what the cache holds.
  get-Holds :
      (unmarshal : List ℕ → Option Value) (v : Value) (c : Cache)
      → unmarshal blob ≡ some v
      → Holds c
      → (get unmarshal now k c).1 ≡ some v
  unfolding get
  get-Holds unmarshal v c read h =
      let moved : Cache = record c { order = move_to_back h.last c.order } in
      ap
        (λ (g : Cache × Option Row).
          (elim (g.1) as (λ _. Cache × Option Value) [
            | none ↦ (g.0, none)
            | some r ↦ get_read unmarshal r g.0
          ]).1)
        (lookup-Holds c h)
      ∙ get_read-answer unmarshal v h.last moved read
          (ap (λ (j : String). Dict.get j c.files) h.named ∙ h.file)

  push-Holds :
      (t size : ℕ) (c : Cache)
      → UniqueRows c.order
      → row_of k c ≡ none
      → now ≤ t + c.lifetime
      → Dict.get k c.files ≡ some blob
      → Holds (push t k size c)
  unfolding push
  push-Holds t size c u absent good file =
      let r : Row = record {
        key = k;
        expires_at = t + c.lifetime;
        size_bytes = size;
        id = c.next_id;
      } in
      record {
        before = c.order;
        last = r;
        split = refl;
        named = refl;
        good = good;
        file = file;
        unique = UniqueRows-snoc c.order r u absent;
      }

  renew-Holds :
      (t size : ℕ) (r : Row) (c : Cache)
      → UniqueRows c.order
      → r.key ≡ k
      → now ≤ t + c.lifetime
      → Dict.get k c.files ≡ some blob
      → Holds (renew t size r c)
  unfolding renew move_to_back
  renew-Holds t size r c u named good file =
      let new : Row = record r { expires_at = t + c.lifetime; size_bytes = size } in
      record {
        before = others r.key c.order;
        last = new;
        split = refl;
        named = named;
        good = good;
        file = file;
        unique =
            UniqueRows-snoc (others r.key c.order) new (others-UniqueRows r.key c.order u)
              (find-others_self r.key c.order);
      }

  set_commit-Holds :
      (t : ℕ) (c : Cache)
      → IsConsistent c
      → 1 ≤ c.max_items
      → now ≤ t + c.lifetime
      → Dict.get k c.files ≡ some blob
      → Holds (set_commit t k (length blob) c)
  unfolding set_commit
  set_commit-Holds t c h room good file =
      let u = h.books.unique in
      elim (Option-cases (row_of k c)) [
        | inl e ↦
            rw (set_commit, file, e)
              (evict_loop-Holds (length (push t k (length blob) c).order) (push t k (length blob) c)
                (unfold push in room) (push-Holds t (length blob) c u e good file))
        | inr (r, e) ↦
            rw (set_commit, file, e)
              (renew-Holds t (length blob) r c u (row_of-key k r c h.books e) good file)
      ]

-- What `Set` has stored in a consistent cache with room for an entry, on a disk that takes the write,
-- `Get` answers at every time until the entry's lifetime is over, if the value is not empty and the
-- encoding of it is read back, where no other call comes between.
pub get-set :
    (marshal : Value → Option (List ℕ)) (unmarshal : List ℕ → Option Value) (k : String) (v : Value)
    (blob : List ℕ) (t now : ℕ) (c : Cache)
    → marshal v ≡ some blob
    → unmarshal blob ≡ some v
    → (same v.text "" && same v.thinking "") ≡ false
    → IsConsistent c
    → 1 ≤ c.max_items
    → now ≤ t + c.lifetime
    → (get unmarshal now k (set marshal true t k v c)).1 ≡ some v
unfolding set set_write
get-set marshal unmarshal k v blob t now c written read full h room good =
    let stored : Cache = record c { files = Dict.put k blob c.files } in
    let consistent : IsConsistent stored = record {
      bounded = h.bounded;
      books = record { unique = h.books.unique; counted = h.books.counted };
    } in
    rw (set, full, written)
      (get-Holds k blob now unmarshal v (set_commit t k (length blob) stored) read (
        set_commit-Holds k blob now t stored consistent room good
          (Dict.get-put_self k blob c.files)))
