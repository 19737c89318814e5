-- ===== src/Web/Views/Page.antt =====
-- What the handlers of the pages do to the outside, and how they are composed. A handler is a function
-- of the answers that its calls get; it gives the page's new state and the steps it took, in order.
use windsurf_to_api_go.Prelude.{String, Option, none, some, List, [], ◌∷◌, Bool, true, false, ℕ}
use windsurf_to_api_go.Web.Request.{Method, toast}
use windsurf_to_api_go.Web.Api.Call.{Body, Call, Reply, resolved, rejected}

pub data Step : Type 0 where
  sends : Method → String → Option Body → Step
  succeeds : String → Step
  warns : String → Step
  fails : String → Step
  toasts : String → Step
  informs : String → String → Step
  confirms : String → String → Step
  schedules : ℕ → Step

abbrev pub Run : Type 0 → Type 0
Run S = S × List Step

abbrev pub sent : {A : Type 0} → Call A → Step
sent c = sends c.method c.path c.body

-- A step, and then the rest.
abbrev pub say : {S : Type 0} → Step → Run S → Run S
say step r = (r.0, step ∷ r.1)

-- `try { await call; next } catch (err) { toast(err, fallback) }`.
abbrev pub attempt : {S A : Type 0} → Call A → Reply A → String → (A → Run S) → S → Run S
attempt c (resolved a) fallback next s = say (sent c) (next a)
attempt c (rejected message) fallback next s = (s, sent c ∷ toasts (toast message fallback) ∷ [])

-- `x ?? []` and `x ?? {}`.
abbrev pub or_none {ℓ} : {A : Type ℓ} → Option (List A) → List A
or_none none = []
or_none (some xs) = xs

abbrev pub or_value {ℓ} : {A : Type ℓ} → A → Option A → A
or_value a none = a
or_value a (some b) = b

abbrev pub is_some {ℓ} : {A : Type ℓ} → Option A → Bool
is_some none = false
is_some (some a) = true

-- A column of a table.
pub record Column : Type 0 where
  pub title : String
  pub data_index : String
  pub width : Option ℕ
  pub ellipsis : Bool
  pub fixed : Option String
