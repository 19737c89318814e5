-- ===== src/ConvPool.antt =====
-- The pool of reusable cascades, internal/convpool/pool.go. The clock is an argument, in milliseconds;
-- SHA-256 and the JSON encoding of messages are the parameters of the fingerprints. A Go map is an
-- association list: where the code ranges over it to find the oldest entry, the first one in the list
-- wins a tie, where Go's order is random.
pub mod Fingerprint
pub mod Eviction
pub mod Reuse
use windsurf_to_api_go.Prelude.{
  ℕ, ◌+◌, ◌-◌, ◌%◌, ◌<◌, String, Bool, true, false, not, ◌&&◌, ◌||◌, Option, none, some, List, [],
  ◌∷◌, length, keep_if, same, ltb, ◌==◌, if◌then◌else◌,
}
use windsurf_to_api_go.Prelude.Dict
use windsurf_to_api_go.Prelude.Dict.{Dict}

-- Ten minutes, in milliseconds.
abbrev pub ttl : ℕ
ttl = 600000

abbrev pub max_size : ℕ
max_size = 500

-- A zero time is 0.
pub record Entry : Type 0 where
  pub cascade_id : String
  pub session_id : String
  pub ls_port : ℕ
  pub api_key : String
  pub created_at : ℕ
  pub last_access : ℕ

-- The package's variables; the counters are `uint64`.
pub record ConvPool : Type 0 where
  pub entries : Dict Entry
  pub hits : ℕ
  pub misses : ℕ
  pub stores : ℕ
  pub evictions : ℕ
  pub expired : ℕ

abbrev pub incr : ℕ → ℕ
incr n = (n + 1) % 18446744073709551616

unfoldable pub empty : ConvPool
empty = record { entries = []; hits = 0; misses = 0; stores = 0; evictions = 0; expired = 0 }

-- `Checkout` on the entry that the map holds, if any.
unfoldable pub checkout_entry : ℕ → String → ConvPool → Option Entry → ConvPool × Option Entry
checkout_entry now fp p none = (record p { misses = incr p.misses }, none)
checkout_entry now fp p (some e) =
    let taken = Dict.delete fp p.entries in
    if ltb ttl (now - e.last_access)
    then (record p { entries = taken; expired = incr p.expired }, none)
    else (record p { entries = taken; hits = incr p.hits }, some e)

unfoldable pub checkout : ℕ → String → ConvPool → ConvPool × Option Entry
unfolding checkout_entry
checkout now fp p =
    if same fp ""
    then (record p { misses = incr p.misses }, none)
    else checkout_entry now fp p (Dict.get fp p.entries)

-- The loop that looks for the oldest entry: the best so far, and the rows to go.
unfoldable pub oldest : String → ℕ → Dict Entry → String
oldest key time [] = key
oldest key time ((k, e) ∷ m) =
    let older = ltb e.last_access time in
    oldest (if older then k else key) (if older then e.last_access else time) m

unfoldable pub oldest_key : Dict Entry → String
unfolding oldest
oldest_key [] = ""
oldest_key ((k, e) ∷ m) = oldest k e.last_access m

unfoldable pub evict : ConvPool → ConvPool
unfolding oldest_key
evict p =
    let key = oldest_key p.entries in
    if not (ltb max_size (length p.entries))
    then p
    else if same key ""
    then p
    else record p { entries = Dict.delete key p.entries; evictions = incr p.evictions }

unfoldable pub stamped : ℕ → Entry → Entry
stamped now e = record e {
  last_access = now;
  created_at = if e.created_at == 0 then now else e.created_at;
}

unfoldable pub checkin : ℕ → String → Entry → ConvPool → ConvPool
unfolding stamped evict
checkin now fp e p =
    if same fp ""
    then p
    else evict
        (record p { entries = Dict.put fp (stamped now e) p.entries; stores = incr p.stores })

unfoldable pub owned_by : String → ℕ → Entry → Bool
owned_by api_key ls_port e =
    (not (same api_key "") && same e.api_key api_key)
    || (not (ls_port == 0) && e.ls_port == ls_port)

unfoldable pub invalidate_for : String → ℕ → ConvPool → ConvPool × ℕ
unfolding owned_by
invalidate_for api_key ls_port p =
    let kept = keep_if (λ row. not (owned_by api_key ls_port row.1)) p.entries in
    (record p { entries = kept }, length p.entries - length kept)

unfoldable pub clear : ConvPool → ConvPool × ℕ
clear p = (record p { entries = [] }, length p.entries)

-- `Snapshot`, but for the hit rate: the code prints a float. The counts that it divides are here.
pub record Stats : Type 0 where
  pub size : ℕ
  pub max_size_of : ℕ
  pub ttl_ms : ℕ
  pub hits : ℕ
  pub misses : ℕ
  pub stores : ℕ
  pub evictions : ℕ
  pub expired : ℕ

unfoldable pub snapshot : ConvPool → Stats
snapshot p = record {
  size = length p.entries;
  max_size_of = max_size;
  ttl_ms = ttl;
  hits = p.hits;
  misses = p.misses;
  stores = p.stores;
  evictions = p.evictions;
  expired = p.expired;
}
