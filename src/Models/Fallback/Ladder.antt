-- ===== src/Models/Fallback/Ladder.antt =====
-- Where the fallback chain of internal/models/catalog.go leads.
use windsurf_to_api_go.Prelude.{
  ℕ, zero, suc, String, Bool, true, ◌&&◌, [], ◌∷◌, same, if◌then◌else◌,
}
use windsurf_to_api_go.Prelude.Dict
use windsurf_to_api_go.Prelude.Dict.{Dict}
use windsurf_to_api_go.Models.Fallback.{fallback_for}

-- The model after at most `n` hops.
unfoldable pub after_hops : ℕ → String → String
unfolding fallback_for
after_hops zero key = key
after_hops (suc n) key =
    let further = after_hops n (fallback_for key) in
    if same (fallback_for key) "" then key else further

holds_all : (String → Bool) → Dict String → Bool
holds_all test [] = true
holds_all test ((k, v) ∷ m) = test v && holds_all test m
