-- ===== src/ModelAccess/Policy.antt =====
-- What the editing operations of internal/modelaccess/modelaccess.go do to its decisions.
use windsurf_to_api_go.Prelude.{
  String, Bool, true, false, not, ◌&&◌, ◌||◌, List, [], ◌∷◌, ◌++◌, contains, keep_if, same,
  same_iff, arith, ◌≡◌, refl, if◌then◌else◌,
}
use windsurf_to_api_go.ModelAccess.{
  Access, mode_allowlist, mode_blocklist, save, add, remove, Decision, allowed, check,
}

pub contains-snoc :
    (k j : String) (xs : List String) → contains k (xs ++ j ∷ []) ≡ (contains k xs || same j k)
contains-snoc k j [] = ground arith
contains-snoc k j (x ∷ xs) = ground (arith, contains-snoc k j xs)

pub contains-keep_if :
    (k j : String) (xs : List String)
    → contains k (keep_if (λ m. not (same m j)) xs) ≡ (contains k xs && not (same j k))
contains-keep_if k j [] = refl
contains-keep_if k j (x ∷ xs) =
    ground (arith, contains-keep_if k j xs, same_iff x j, same_iff x k, same_iff j k)

abbrev pub is_allowed : Decision → Bool
is_allowed allowed = true
is_allowed _ = false

-- After `Add`, in allow-list mode the model is allowed as well, in block-list mode it is blocked as
-- well, and every other model is judged as before.
pub check-add :
    (s : Access) (added model_id : String)
    → is_allowed (check model_id (add added s)) ≡ (
        if same s.cfg.mode mode_allowlist
        then is_allowed (check model_id s) || same added model_id
        else if same s.cfg.mode mode_blocklist
        then is_allowed (check model_id s) && not (same added model_id)
        else true)
unfolding check add save
check-add s added model_id =
    ground (arith, contains-snoc model_id added s.cfg.list, same_iff added model_id)

-- After `Remove`, in allow-list mode the model is no longer allowed, in block-list mode it is no
-- longer blocked, and every other model is judged as before.
pub check-remove :
    (s : Access) (removed model_id : String)
    → is_allowed (check model_id (remove removed s)) ≡ (
        if same s.cfg.mode mode_allowlist
        then is_allowed (check model_id s) && not (same removed model_id)
        else if same s.cfg.mode mode_blocklist
        then is_allowed (check model_id s) || same removed model_id
        else true)
unfolding check remove save
check-remove s removed model_id =
    ground (arith, contains-keep_if model_id removed s.cfg.list, same_iff removed model_id)
