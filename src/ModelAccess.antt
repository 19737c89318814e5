-- ===== src/ModelAccess.antt =====
-- The global allow and block list, internal/modelaccess/modelaccess.go. The write-behind of its file
-- is modelled by what is pending: the last snapshot handed to the writer.
pub mod Policy
pub mod Writer
use windsurf_to_api_go.Prelude.{
  ℕ, String, Bool, true, false, not, ◌&&◌, ◌||◌, Option, none, some, List, [], ◌∷◌, ◌++◌, contains,
  keep_if, same, if◌then◌else◌,
}

abbrev pub mode_all : String
mode_all = "all"

abbrev pub mode_allowlist : String
mode_allowlist = "allowlist"

abbrev pub mode_blocklist : String
mode_blocklist = "blocklist"

pub record Config : Type 0 where
  pub mode : String
  pub list : List String

-- The package's variables: the configuration, the snapshot that waits to be written (`pendingData`),
-- whether `pendingWake` holds its one signal, and
-- whether a caller, still under the lock, has yet to send it; then the writer's goroutine: whether it has taken a
-- signal, and the snapshot that it is about to write; and the file's content.
pub record Access : Type 0 where
  pub cfg : Config
  pub pending : Option Config
  pub woken : Bool
  pub waking : Bool
  pub awake : Bool
  pub holding : Option Config
  pub file : Option Config

unfoldable pub start : Option Config → Access
start file = record {
  cfg = record { mode = mode_all; list = [] };
  pending = none;
  woken = false;
  waking = false;
  awake = false;
  holding = none;
  file = file;
}

unfoldable pub init_from : Access → Option Config → Access
init_from s none = s
init_from s (some c) = record s { cfg = c }

-- `Init`: `none` is a file that cannot be read or parsed.
unfoldable pub init : Access → Access
unfolding init_from
init s = init_from s s.file

-- `save` in the two steps that the writer can come between: it stores the snapshot, in the place of one
-- that waits,
unfoldable pub put_pending : Access → Access
put_pending s = record s { pending = some s.cfg; waking = true }

-- and sends the wake-up, unless one is there.
unfoldable pub send_wake : Access → Access
send_wake s = record s { woken = s.woken || s.waking; waking = false }

unfoldable pub save : Access → Access
unfolding put_pending send_wake
save s = send_wake (put_pending s)

-- `runSaveWriter` in the steps that other goroutines can come between: take the signal,
unfoldable pub writer_wake : Access → Access
writer_wake s = if s.woken && not s.awake then record s { woken = false; awake = true } else s

-- take the snapshot under the lock (nothing to write if there is none),
unfoldable pub writer_take : Access → Access
writer_take s =
    if s.awake then record s { awake = false; pending = none; holding = s.pending } else s

-- and write the file. `writable` says whether the disk takes the write.
unfoldable pub write_held : Bool → Access → Option Config → Access
write_held writable s none = s
write_held writable s (some c) =
    if writable then record s { file = some c; holding = none } else record s { holding = none }

unfoldable pub writer_write : Bool → Access → Access
unfolding write_held
writer_write writable s = write_held writable s s.holding

unfoldable pub get : Access → Config
get s = s.cfg

-- The edits, for what they do to save the configuration.
abbrev pub set_mode_by : (Access → Access) → String → Access → Access
set_mode_by persist mode s =
    if not (same mode mode_all)
      && (not (same mode mode_allowlist) && not (same mode mode_blocklist))
    then s
    else persist (record s { cfg = record s.cfg { mode = mode } })

abbrev pub set_list_by : (Access → Access) → List String → Access → Access
set_list_by persist list s = persist (record s { cfg = record s.cfg { list = list } })

abbrev pub add_by : (Access → Access) → String → Access → Access
add_by persist model_id s =
    if contains model_id s.cfg.list
    then s
    else persist (record s { cfg = record s.cfg { list = s.cfg.list ++ model_id ∷ [] } })

abbrev pub remove_by : (Access → Access) → String → Access → Access
remove_by persist model_id s =
    persist
      (record s { cfg = record s.cfg { list = keep_if (λ m. not (same m model_id)) s.cfg.list } })

unfoldable pub set_mode : String → Access → Access
unfolding save
set_mode mode s = set_mode_by save mode s

unfoldable pub set_list : List String → Access → Access
unfolding save
set_list list s = set_list_by save list s

unfoldable pub add : String → Access → Access
unfolding save
add model_id s = add_by save model_id s

unfoldable pub remove : String → Access → Access
unfolding save
remove model_id s = remove_by save model_id s

-- The reason of a denial: which of the two messages, with the model's name.
pub data Decision : Type 0 where
  allowed : Decision
  not_in_allowlist : String → Decision
  blocked : String → Decision

unfoldable pub check : String → Access → Decision
check model_id s =
    if same s.cfg.mode mode_allowlist
    then if contains model_id s.cfg.list then allowed else not_in_allowlist model_id
    else if same s.cfg.mode mode_blocklist
    then if contains model_id s.cfg.list then blocked model_id else allowed
    else allowed
