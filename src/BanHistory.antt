-- ===== src/BanHistory.antt =====
-- The ring of rate-limit events of internal/banhistory/banhistory.go, oldest event first.
use windsurf_to_api_go.Prelude.{
  ℕ, ◌-◌, String, ◌||◌, List, [], ◌∷◌, ◌++◌, length, drop, take, ltb, ◌==◌, if◌then◌else◌,
}
use mathlib.Core.List.{reverse}

pub record Entry : Type 0 where
  pub ts : ℕ
  pub account_id : String
  pub email : String
  pub model : String
  pub server : ℕ
  pub effective : ℕ
  pub until : ℕ

abbrev pub ring_cap : ℕ
ring_cap = 500

abbrev pub Ring : Type 0
Ring = List Entry

-- `now` is the clock, read for an entry with no time stamp.
unfoldable pub stamp : ℕ → Entry → Entry
stamp now e = if e.ts == 0 then record e { ts = now } else e

unfoldable pub record_entry : ℕ → Entry → Ring → Ring
unfolding stamp
record_entry now e ring =
    let grown = ring ++ stamp now e ∷ [] in
    if ltb ring_cap (length grown) then drop (length grown - ring_cap) grown else grown

-- `n <= 0` stands for 0 here.
unfoldable pub recent : ℕ → Ring → List Entry
recent n ring =
    let count = if n == 0 || ltb (length ring) n then length ring else n in
    take count (reverse ring)

unfoldable pub clear : Ring → Ring
clear ring = []
