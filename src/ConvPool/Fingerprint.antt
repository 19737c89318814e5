-- ===== src/ConvPool/Fingerprint.antt =====
-- The fingerprints of internal/convpool/pool.go. A conversation is looked up by a hash of its earlier
-- messages and of a text that stands for the caller.
use Prim.Native.String.{◌++◌ as concat}
use windsurf_to_api_go.Prelude.{
  String, Bool, true, false, not, List, [], ◌∷◌, ◌++◌, map, any, same, ltb, length, length-append,
  arith, ◌≡◌, refl, ap, if◌then◌else◌,
}

-- A part of a content list: an object with a text, another object (its JSON here), or no object.
pub data Part : Type 0 where
  text_part : String → Part
  object_part : String → Part
  other_part : Part

-- The content of a message: a text, a list of parts, or anything else (its JSON here).
pub data Content : Type 0 where
  text : String → Content
  parts : List Part → Content
  other : String → Content

pub record Message : Type 0 where
  pub role : String
  pub content : Content

pub record CanonMsg : Type 0 where
  pub role : String
  pub content : String

unfoldable pub part_text : Part → String
part_text (text_part t) = t
part_text (object_part json) = json
part_text other_part = ""

unfoldable pub join_parts : List Part → String
unfolding part_text
join_parts [] = ""
join_parts (p ∷ ps) = concat (part_text p) (join_parts ps)

unfoldable pub canonicalise_content : Content → String
unfolding join_parts
canonicalise_content (text t) = t
canonicalise_content (parts ps) = join_parts ps
canonicalise_content (other json) = json

unfoldable pub canonicalise : List Message → List CanonMsg
unfolding canonicalise_content
canonicalise = map (λ m. record { role = m.role; content = canonicalise_content m.content })

-- `msgs[:len(msgs)-1]`
unfoldable pub all_but_last : List Message → List Message
all_but_last [] = []
all_but_last (m ∷ []) = []
all_but_last (m ∷ n ∷ ms) = m ∷ all_but_last (n ∷ ms)

-- `sha256` and `json.Marshal` of the canonical messages, and the byte that parts the caller's text.
module _ (sha256_hex : String → String) (marshal : List CanonMsg → String) (nul : String) where
  unfoldable pub digest : List Message → String → String
  unfolding canonicalise
  digest msgs client_salt =
      sha256_hex (concat client_salt (concat nul (marshal (canonicalise msgs))))

  unfoldable pub fingerprint_before : List Message → String → String
  unfolding digest all_but_last
  fingerprint_before msgs client_salt =
      let hist = all_but_last msgs in
      if ltb (length msgs) 2
      then ""
      else if not (any (λ m. same m.role "assistant") hist)
      then ""
      else digest hist client_salt

  unfoldable pub fingerprint_after : List Message → String → String → String
  unfolding digest
  fingerprint_after msgs assistant_text client_salt =
      digest (msgs ++ record { role = "assistant"; content = text assistant_text } ∷ []) client_salt

all_but_last-snoc : (ms : List Message) (m : Message) → all_but_last (ms ++ m ∷ []) ≡ ms
unfolding all_but_last
all_but_last-snoc [] m = refl
all_but_last-snoc (x ∷ []) m = refl
all_but_last-snoc (x ∷ y ∷ ms) m = ap (◌∷◌ x) (all_but_last-snoc (y ∷ ms) m)

any-snoc_last :
    (test : Message → Bool) (ms : List Message) (m : Message)
    → test m ≡ true
    → any test (ms ++ m ∷ []) ≡ true
any-snoc_last test [] m h = ground arith
any-snoc_last test (x ∷ ms) m h = ground (arith, any-snoc_last test ms m h)

module _ (sha256_hex : String → String) (marshal : List CanonMsg → String) (nul : String) where
  -- The next request of a conversation finds what the turn before stored: its messages are those of
  -- the turn, the assistant's answer as a text, and one message more.
  pub fingerprint_before-after :
      (msgs : List Message) (answer : String) (next : Message) (client_salt : String)
      → fingerprint_before sha256_hex marshal nul
          ((msgs ++ record { role = "assistant"; content = text answer } ∷ []) ++ next ∷ [])
          client_salt
        ≡ fingerprint_after sha256_hex marshal nul msgs answer client_salt
  unfolding fingerprint_before fingerprint_after
  fingerprint_before-after msgs answer next client_salt =
      let said : Message = record { role = "assistant"; content = text answer } in
      let hist = msgs ++ said ∷ [] in
      let long : ltb (length (hist ++ next ∷ [])) 2 ≡ false =
        ground (arith, length-append hist (next ∷ []), length-append msgs (said ∷ [])) in
      let spoken : any (λ m. same m.role "assistant") hist ≡ true =
        any-snoc_last (λ m. same m.role "assistant") msgs said refl in
      rw (long, all_but_last-snoc hist next, spoken) refl
