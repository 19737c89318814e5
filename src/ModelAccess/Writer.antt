-- ===== src/ModelAccess/Writer.antt =====
-- The coalescing writer of internal/modelaccess/modelaccess.go: no edit is lost, whatever the timing.
use windsurf_to_api_go.Prelude.{
  All, String, Bool, true, false, ◌||◌, Option, none, some, List, [], ◌∷◌, inr, arith, ◌≡◌, ◌⊎◌,
  refl, if◌then◌else◌,
}
use windsurf_to_api_go.ModelAccess.{
  Access, Config, start, init, init_from, writer_wake, writer_take, writer_write, write_held,
  set_mode_by, set_list_by, add_by, remove_by, put_pending, send_wake,
}

-- The calls of the dashboard, each up to its wake-up, the wake-up, and the steps of the writer in
-- between: it takes no new signal while it still holds a snapshot, and the disk takes a write or not.
pub data Event : Type 0 where
  mode_set : String → Event
  list_set : List String → Event
  added : String → Event
  removed : String → Event
  wake_sent : Event
  wake : Event
  take : Event
  write : Bool → Event

-- Every write of the file succeeds.
abbrev pub Succeeds : Event → Type 0
Succeeds (write writable) = writable ≡ true
Succeeds (mode_set m) = Unit
Succeeds (list_set l) = Unit
Succeeds (added m) = Unit
Succeeds (removed m) = Unit
Succeeds wake_sent = Unit
Succeeds wake = Unit
Succeeds take = Unit

abbrev is_idle : Option Config → Bool
is_idle none = true
is_idle (some _) = false

-- A call starts when the one before has left the lock.
unfoldable pub step : Event → Access → Access
unfolding writer_wake writer_take writer_write write_held put_pending send_wake
step (mode_set m) s = if s.waking then s else set_mode_by put_pending m s
step (list_set l) s = if s.waking then s else set_list_by put_pending l s
step (added m) s = if s.waking then s else add_by put_pending m s
step (removed m) s = if s.waking then s else remove_by put_pending m s
step wake_sent s = send_wake s
step wake s = if is_idle s.holding then writer_wake s else s
step take s = writer_take s
step (write writable) s = writer_write writable s

unfoldable pub run : List Event → Access → Access
run [] s = s
run (e ∷ es) s = run es (step e s)

-- The configuration that a restart would find.
unfoldable pub reloaded : Access → Config
unfolding init start init_from
reloaded s = (init (start s.file)).cfg

-- Either the configuration waits and the writer is on its way to it, or the writer holds it, or a
-- restart would find it.
abbrev IsSynced : Access → Type 0
IsSynced s =
    ((s.pending ≡ some s.cfg) × ((s.woken || s.waking || s.awake) ≡ true))
    ⊎ (((s.pending ≡ none) × (s.holding ≡ some s.cfg) × (s.awake ≡ false))
        ⊎ ((s.pending ≡ none) × (s.holding ≡ none) × (reloaded s ≡ s.cfg)))

-- The writer takes a snapshot only when it holds none.
abbrev IsOrdered : Access → Type 0
IsOrdered s = s.awake ≡ true → s.holding ≡ none

step-IsSynced :
    (e : Event) (s : Access)
    → Succeeds e
    → IsOrdered s × IsSynced s
    → IsOrdered (step e s) × IsSynced (step e s)
unfolding step reloaded
step-IsSynced (mode_set m) s w h = ground arith
step-IsSynced (write writable) s w h = ground arith
step-IsSynced e s w h = ground arith

run-IsSynced :
    (es : List Event) (s : Access)
    → All Succeeds es
    → IsOrdered s × IsSynced s
    → IsOrdered (run es s) × IsSynced (run es s)
unfolding run
run-IsSynced [] s w h = h
run-IsSynced (e ∷ es) s w h = run-IsSynced es (step e s) w.1 (step-IsSynced e s w.0 h)

start-IsSynced :
    (file : Option Config) → IsOrdered (init (start file)) × IsSynced (init (start file))
unfolding init start init_from reloaded
start-IsSynced none = ((λ h. refl), inr (inr (refl, refl, refl)))
start-IsSynced (some c) = ((λ h. refl), inr (inr (refl, refl, refl)))

-- However the calls and the steps of the writer interleave after a start, while every write of the file
-- succeeds: once the writer has nothing left to do, a restart finds the configuration of the last call.
pub writer-keeps_last :
    (file : Option Config) (es : List Event)
    → All Succeeds es
    → (run es (init (start file))).pending ≡ none
    → (run es (init (start file))).holding ≡ none
    → reloaded (run es (init (start file))) ≡ (run es (init (start file))).cfg
unfolding init start init_from reloaded
writer-keeps_last file es w p h =
    ground (arith, run-IsSynced es (init (start file)) w (start-IsSynced file))

-- After any calls and steps of the writer since a start, while every write of the file succeeds: once the
-- last call has sent its wake-up, one more round of the writer (it writes what it holds, takes the signal
-- and the snapshot, and writes that) leaves nothing pending or held, and a restart would find the
-- configuration of the last call.
pub writer_round-writes :
    (file : Option Config) (es : List Event)
    → All Succeeds es
    → let s = run es (init (start file)) in
      let s' = step (write true) (step take (step wake (step (write true) (step wake_sent s)))) in
      (s'.pending ≡ none) × (s'.holding ≡ none) × (reloaded s' ≡ s.cfg)
unfolding init start init_from reloaded step
writer_round-writes file es w =
    ground (arith, run-IsSynced es (init (start file)) w (start-IsSynced file))
