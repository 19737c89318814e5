-- ===== src/Tests/Storage.antt =====
-- The response cache on concrete entries.
use windsurf_to_api_go.Prelude.{true, some, List, [], ◌∷◌, arith, ◌≡◌, refl}
use windsurf_to_api_go.Cache.{Cache, Row, Value, get, set}
use windsurf_to_api_go.Cache.Rows.{total_size}
use windsurf_to_api_go.Cache.Consistency.{IsConsistent}
use windsurf_to_api_go.Cache.{hits_of}
use windsurf_to_api_go.Cache.Interleaving.{
  Step, looked_up, read_file, wrote_file, committed, cleared, counter_reset, run, run-IsConsistent,
}
use windsurf_to_api_go.Cache.Replay.{get-set}

abbrev row : Row
row = record { key = "a"; expires_at = 7200000; size_bytes = 3; id = 0 }

-- A cache that is full with one entry.
abbrev full : Cache
full = record {
  order = row ∷ [];
  files = ("a", 1 ∷ 2 ∷ 3 ∷ []) ∷ [];
  lifetime = 7200000;
  max_items = 1;
  bytes_on_disk = 3;
  hits = 0;
  misses = 0;
  stores = 1;
  evictions = 0;
  next_id = 1;
}

full-IsConsistent : IsConsistent full
unfolding total_size
full-IsConsistent = record {
  bounded = omega arith;
  books = record { unique = (refl, tt); counted = refl };
}

-- A `Set` evicts the entry that a `Get` has looked up and has not read yet, and a `Clear` comes before
-- the `Set` of another caller ends.
abbrev steps : List Step
steps =
    wrote_file true "b" (9 ∷ [])
    ∷ looked_up 5 "a"
    ∷ committed 6 "b" 1
    ∷ read_file (λ raw. some (record { text = "t"; thinking = "" })) row
    ∷ wrote_file true "c" (7 ∷ [])
    ∷ cleared
    ∷ counter_reset hits_of
    ∷ committed 8 "c" 1
    ∷ []

run-IsConsistent_example : IsConsistent (run steps full)
run-IsConsistent_example = run-IsConsistent steps full full-IsConsistent

abbrev hello : Value
hello = record { text = "hello"; thinking = "" }

get-set_example :
    (get (λ raw. some hello) 3600000 "b" (set (λ v. some (104 ∷ [])) true 0 "b" hello full)).1
    ≡ some hello
get-set_example =
    get-set (λ v. some (104 ∷ [])) (λ raw. some hello) "b" hello (104 ∷ []) 0 3600000 full refl refl
      refl full-IsConsistent (omega arith) (omega arith)
