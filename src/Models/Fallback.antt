-- ===== src/Models/Fallback.antt =====
-- The rate-limit fallback chain of internal/models/catalog.go.
pub mod Ladder
use windsurf_to_api_go.Prelude.{String, none, some, [], ◌∷◌}
use windsurf_to_api_go.Prelude.Dict
use windsurf_to_api_go.Prelude.Dict.{Dict}

unfoldable pub fallback_chain : Dict String
fallback_chain =
    ("claude-opus-4-7-max", "claude-opus-4-7-xhigh")
    ∷ ("claude-opus-4-7-xhigh", "claude-opus-4-7-high")
    ∷ ("claude-opus-4-7-high", "claude-opus-4-7-medium")
    ∷ ("claude-opus-4-7-medium", "claude-opus-4-7-low")
    ∷ ("claude-opus-4-7-low", "claude-opus-4.6")
    ∷ ("claude-opus-4.6-thinking", "claude-opus-4.6")
    ∷ ("claude-opus-4.6", "claude-4.5-opus")
    ∷ ("claude-4.5-opus-thinking", "claude-4.5-opus")
    ∷ ("claude-4.5-opus", "claude-sonnet-4.6")
    ∷ ("claude-sonnet-4.6-thinking", "claude-sonnet-4.6")
    ∷ ("claude-sonnet-4.6", "claude-4.5-sonnet")
    ∷ ("claude-4.5-sonnet-thinking", "claude-4.5-sonnet")
    ∷ ("claude-4.5-sonnet", "claude-4.5-haiku")
    ∷ ("claude-4.5-haiku", "gemini-2.5-flash")
    ∷ ("gpt-5.5-xhigh", "gpt-5.5-high")
    ∷ ("gpt-5.5-high", "gpt-5.5-medium")
    ∷ ("gpt-5.5-medium", "gpt-5.5-low")
    ∷ ("gpt-5.5-low", "gpt-5.2")
    ∷ ("gpt-5.2-xhigh", "gpt-5.2-high")
    ∷ ("gpt-5.2-high", "gpt-5.2")
    ∷ ("gpt-5.2", "gpt-5.1")
    ∷ ("gpt-5.1", "gpt-5")
    ∷ ("gpt-5-high", "gpt-5-medium")
    ∷ ("gpt-5-medium", "gpt-5")
    ∷ ("gpt-5", "gpt-4.1")
    ∷ ("gpt-4.1", "gpt-4o")
    ∷ ("gpt-4o", "gpt-4o-mini")
    ∷ []

-- A map read: a missing key gives "".
unfoldable pub fallback_for : String → String
unfolding fallback_chain
fallback_for model_key = elim (Dict.get model_key fallback_chain) [ none ↦ "" | some next ↦ next ]
