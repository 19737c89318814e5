-- ===== src/Tests/Conversations.antt =====
-- The pool of cascades on concrete entries.
use windsurf_to_api_go.Prelude.{String, none, some, List, [], ◌∷◌, ◌++◌, arith, ◌≡◌, refl}
use windsurf_to_api_go.Prelude.Dict
use windsurf_to_api_go.Prelude.Dict
use windsurf_to_api_go.ConvPool.{Entry, ConvPool, empty, checkout, checkin, stamped}
use windsurf_to_api_go.ConvPool.Fingerprint.{
  Message, CanonMsg, text, fingerprint_before, fingerprint_after, fingerprint_before-after,
}
use windsurf_to_api_go.ConvPool.Eviction.{IsBounded, checkin-IsBounded}
use windsurf_to_api_go.ConvPool.Reuse.{checkout-checkin}

abbrev cascade : String → Entry
cascade key = record {
  cascade_id = "c1";
  session_id = "s1";
  ls_port = 42100;
  api_key = key;
  created_at = 0;
  last_access = 5;
}

abbrev two : ConvPool
two = record empty { entries = ("f1", cascade "k1") ∷ ("f2", cascade "k2") ∷ [] }

two-IsBounded : IsBounded two
unfolding Dict.get
two-IsBounded = record {
  bounded = omega arith;
  distinct = (refl, (refl, tt));
  named = (refl, (refl, tt));
}

checkin-IsBounded_example : IsBounded (checkin 7 "f3" (cascade "k1") two)
checkin-IsBounded_example = checkin-IsBounded 7 "f3" (cascade "k1") two two-IsBounded

checkout-checkin_example :
    ((checkout 500 "f3" (checkin 7 "f3" (cascade "k1") two)).1 ≡ some (stamped 7 (cascade "k1")))
    × ((checkout 600 "f3" ((checkout 500 "f3" (checkin 7 "f3" (cascade "k1") two)).0)).1 ≡ none)
checkout-checkin_example =
    checkout-checkin 7 500 600 "f3" (cascade "k1") two refl two-IsBounded
      (ground arith, (ground arith, tt)) (omega arith)

abbrev question : Message
question = record { role = "user"; content = text "2 + 2?" }

-- A hash and an encoding that only keep the roles.
abbrev roles : List CanonMsg → String
roles [] = ""
roles (m ∷ ms) = m.role

fingerprint_before-after_example :
    fingerprint_before
      (λ s. s)
      roles
      ","
      ((question ∷ [] ++ record { role = "assistant"; content = text "4" } ∷ []) ++ question ∷ [])
      "caller"
    ≡ fingerprint_after (λ s. s) roles "," (question ∷ []) "4" "caller"
fingerprint_before-after_example =
    fingerprint_before-after (λ s. s) roles "," (question ∷ []) "4" question "caller"
