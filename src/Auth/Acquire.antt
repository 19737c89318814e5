-- ===== src/Auth/Acquire.antt =====
-- What `Acquire` of internal/auth/pool.go promises: it serves an eligible account when there is
-- one, and of these one with the largest share of its budget left.
use mathlib.Core.List.{Memᴰ}
use windsurf_to_api_go.Prelude.{
  ℕ, suc, ◌-◌, String, Bool, true, false, ◌&&◌, Option, none, some, List, [], ◌∷◌, All, any,
  Bool-cases, inl, inr, arith, ◌≡◌, refl, sym, ◌∙◌, ◌↔◌, if◌then◌else◌,
}
use windsurf_to_api_go.Models.{Catalog}
use windsurf_to_api_go.Auth.Account.{Account, Pool}
use windsurf_to_api_go.Auth.Limits.{rpm_limit, is_rate_limited_rw, drop_deadline, prune_rpm}
use windsurf_to_api_go.Auth.Select.{
  Cand, Selected, selected, consider, consider_budget, less, add_cand, scan, sort_slice,
  insert_sorted, pick, acquire,
}
use windsurf_to_api_go.Auth.Eligibility.{is_eligible, window_count, consider_cand}
use windsurf_to_api_go.Auth.Preference.{
  ahead, IsPositive, best, sort_slice-best, best-All, best-first,
}

-- Does `a` come before `b`: a larger share of its budget is left, or the same and an older last use?
unfoldable pub is_preferred : ℕ → Account → Account → Bool
is_preferred now a b =
    ahead (rpm_limit a.tier - window_count a now) (rpm_limit a.tier) a.last_used
      (rpm_limit b.tier - window_count b now) (rpm_limit b.tier) b.last_used

module _ (catalog : Catalog) (tried : List String) (model_key : String) (now : ℕ) where
  -- A round changes nothing that the answer or the order reads.
  consider_keeps :
      (i : ℕ) (a : Account)
      → let a' = (consider catalog tried model_key now i a).0 in
        (a'.last_used ≡ a.last_used) × (selected a' ≡ selected a)
  unfolding consider consider_budget is_rate_limited_rw drop_deadline prune_rpm selected
  consider_keeps i a = ground arith

  record IsCandOf (c : Cand) (a : Account) : Type 0 where
    used : c.used ≡ window_count a now
    limit : c.limit ≡ rpm_limit a.tier
    last_used : c.account.last_used ≡ a.last_used
    answer : selected c.account ≡ selected a
    chosen : is_eligible catalog tried model_key now a ≡ true

  abbrev Comes : List Account → Cand → Type 0
  Comes l c = (a : Account) × Memᴰ a l × IsCandOf c a

  IsCandOf-IsPositive : (c : Cand) (a : Account) → IsCandOf c a → IsPositive c
  unfolding is_eligible
  IsCandOf-IsPositive c a h = ground arith

  All-Comes_tail :
      (a : Account) (l : List Account) (cs : List Cand) → All (Comes l) cs → All (Comes (a ∷ l)) cs
  All-Comes_tail a l [] h = tt
  All-Comes_tail a l (c ∷ cs) h =
      let (b, m, k) = h.0 in ((b, Memᴰ.tail m, k), All-Comes_tail a l cs h.1)

  cand_of : ℕ → Account → Cand
  cand_of i a = record {
    place = i;
    account = (consider catalog tried model_key now i a).0;
    used = window_count a now;
    limit = rpm_limit a.tier;
  }

  cand_of-IsCandOf :
      (i : ℕ) (a : Account)
      → is_eligible catalog tried model_key now a ≡ true
      → IsCandOf (cand_of i a) a
  unfolding cand_of
  cand_of-IsCandOf i a h = record {
    used = refl;
    limit = refl;
    last_used = (consider_keeps i a).0;
    answer = (consider_keeps i a).1;
    chosen = h;
  }

  scan_step :
      (i : ℕ) (a : Account) (l : List Account)
      → (scan catalog tried model_key now i (a ∷ l)).1 ≡ (
          if is_eligible catalog tried model_key now a
          then cand_of i a ∷ (scan catalog tried model_key now (suc i) l).1
          else (scan catalog tried model_key now (suc i) l).1)
  unfolding scan add_cand cand_of
  scan_step i a l = elim (Bool-cases (is_eligible catalog tried model_key now a)) [
    | inl h ↦ rw (consider_cand, h) refl
    | inr h ↦ rw (consider_cand, h) refl
  ]

  scan_sound : (i : ℕ) (l : List Account) → All (Comes l) (scan catalog tried model_key now i l).1
  unfolding scan
  scan_sound i [] = tt
  scan_sound i (a ∷ l) =
      let rest = All-Comes_tail a l _ (scan_sound (suc i) l) in
      rw scan_step (elim (Bool-cases (is_eligible catalog tried model_key now a)) [
        | inl h ↦ rw h ((a, Memᴰ.head refl, cand_of-IsCandOf i a h), rest)
        | inr h ↦ rw h rest
      ])

  -- No eligible account goes before an account `b`.
  abbrev NonePreferred : Account → List Account → Type 0
  NonePreferred b =
      All (λ a. is_eligible catalog tried model_key now a ≡ true → is_preferred now a b ≡ false)

  none_preferred :
      (b : Account) (l : List Account)
      → NonePreferred b l
      → All (λ a. (is_eligible catalog tried model_key now a && is_preferred now a b) ≡ false) l
  none_preferred b [] h = tt
  none_preferred b (a ∷ l) h = (ground (arith, h.0), none_preferred b l h.1)

  IsCandOf-less :
      (c d : Cand) (a b : Account) → IsCandOf c a → IsCandOf d b → less c d ≡ is_preferred now a b
  unfolding less is_preferred
  IsCandOf-less c d a b h k = rw (h.used, h.limit, h.last_used, k.used, k.limit, k.last_used) refl

  scan_complete :
      (i : ℕ) (l : List Account) (d : Cand) (b : Account)
      → IsCandOf d b
      → All (λ c. less c d ≡ false) (scan catalog tried model_key now i l).1
      → NonePreferred b l
  unfolding scan
  scan_complete i [] d b k h = tt
  scan_complete i (a ∷ l) d b k h = elim (Bool-cases (is_eligible catalog tried model_key now a)) [
    | inl e ↦
        let h' = rw (scan_step, e) at h in
        (
          λ _. sym (IsCandOf-less (cand_of i a) d a b (cand_of-IsCandOf i a e) k) ∙ h'.0,
          scan_complete (suc i) l d b k h'.1,
        )
    | inr e ↦ let h' = rw (scan_step, e) at h in (λ e'. cc, scan_complete (suc i) l d b k h')
  ]

  scan-nil :
      (i : ℕ) (l : List Account)
      → ((scan catalog tried model_key now i l).1 ≡ [])
        ↔ (any (is_eligible catalog tried model_key now) l ≡ false)
  unfolding scan
  scan-nil i [] = (λ _. refl, λ _. refl)
  scan-nil i (a ∷ l) = elim (Bool-cases (is_eligible catalog tried model_key now a)) [
    | inl e ↦ rw (scan_step, e) (λ h. cc, λ h. cc)
    | inr e ↦ rw (scan_step, e) (scan-nil (suc i) l)
  ]

  abbrev first_answer : List Cand → Option Selected
  first_answer [] = none
  first_answer (c ∷ ds) = some (selected (best c ds).account)

  pick_answer :
      (p : Pool) (l : List Account) (cs : List Cand)
      → (pick now p l (sort_slice [] cs)).1 ≡ first_answer cs
  unfolding pick sort_slice insert_sorted
  pick_answer p l [] = refl
  pick_answer p l (c ∷ ds) = rw ((sort_slice-best c [] ds).1) refl

  acquire_answer :
      (p : Pool)
      → (acquire catalog tried model_key now p).1
        ≡ first_answer (scan catalog tried model_key now 0 p.accounts).1
  unfolding acquire
  acquire_answer p =
      pick_answer p (scan catalog tried model_key now 0 p.accounts).0
        (scan catalog tried model_key now 0 p.accounts).1

  first_answer-none : (cs : List Cand) → (first_answer cs ≡ none) ↔ (cs ≡ [])
  first_answer-none [] = (λ _. refl, λ _. refl)
  first_answer-none (c ∷ ds) = (λ h. cc, λ h. cc)

  All-IsPositive : (l : List Account) (cs : List Cand) → All (Comes l) cs → All IsPositive cs
  All-IsPositive l [] h = tt
  All-IsPositive l (c ∷ cs) h = (IsCandOf-IsPositive c h.0.0 h.0.2, All-IsPositive l cs h.1)

  first_answer-some :
      (l : List Account) (cs : List Cand) {sel : Selected}
      → All (Comes l) cs
      → first_answer cs ≡ some sel
      → (d : Cand) × Comes l d × (sel ≡ selected d.account) × All (λ c. less c d ≡ false) cs
  first_answer-some l [] h e = cc
  first_answer-some l (c ∷ ds) h e =
      let pos = All-IsPositive l (c ∷ ds) h in
      (best c ds, best-All (Comes l) c ds h.0 h.1, cc, best-first c ds pos.0 pos.1)

  -- `Acquire` fails exactly if no account of the pool is eligible: active, with a key not tried yet,
  -- inside no rate-limit window for the model, of a tier and with a block list that allow the model
  -- (every account does for the empty model), and below its tier's requests per minute.
  pub acquire-eq-none_iff :
      (p : Pool)
      → ((acquire catalog tried model_key now p).1 ≡ none)
        ↔ (any (is_eligible catalog tried model_key now) p.accounts ≡ false)
  acquire-eq-none_iff p =
      let chosen = first_answer-none (scan catalog tried model_key now 0 p.accounts).1 in
      let empty = scan-nil 0 p.accounts in
      (
        λ h. empty.0 (chosen.0 (sym (acquire_answer p) ∙ h)),
        λ h. acquire_answer p ∙ chosen.1 (empty.1 h),
      )

  -- An account that `Acquire` returns is one of the pool, it is eligible, the answer holds its data,
  -- and no eligible account has a larger share of its budget left, nor the same share and an older
  -- last use.
  pub acquire-best :
      (p : Pool) {sel : Selected}
      → (acquire catalog tried model_key now p).1 ≡ some sel
      → (a : Account) × Memᴰ a p.accounts
        × (is_eligible catalog tried model_key now a ≡ true)
        × (sel ≡ selected a)
        × All
            (λ b. (is_eligible catalog tried model_key now b && is_preferred now b a) ≡ false)
            p.accounts
  acquire-best p h =
      let (d, (a, m, k), e, first) =
        first_answer-some p.accounts _ (scan_sound 0 p.accounts) (sym (acquire_answer p) ∙ h) in
      (
        a,
        m,
        k.chosen,
        e ∙ k.answer,
        none_preferred a p.accounts (scan_complete 0 p.accounts d a k first),
      )
