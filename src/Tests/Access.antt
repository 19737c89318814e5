-- ===== src/Tests/Access.antt =====
-- The global model list on concrete configurations.
use windsurf_to_api_go.Prelude.{true, false, none, List, [], ◌∷◌, ◌≡◌, refl}
use windsurf_to_api_go.ModelAccess.{
  Access, start, init, init_from, put_pending, send_wake, writer_wake, writer_take, writer_write,
  write_held, mode_allowlist,
}
use windsurf_to_api_go.ModelAccess.Writer.{
  Event, added, wake_sent, wake, take, write, run, step, reloaded, writer-keeps_last,
  writer_round-writes,
}

abbrev allowing : Access
allowing = record (start none) { cfg = record { mode = mode_allowlist; list = "m1" ∷ [] } }

-- A second edit comes while the writer holds the first, and the writer takes its snapshot before the
-- wake-up.
abbrev edits : List Event
edits =
    added "m1"
    ∷ wake_sent
    ∷ wake
    ∷ take
    ∷ added "m2"
    ∷ write true
    ∷ wake_sent
    ∷ wake
    ∷ take
    ∷ write true
    ∷ []

writer-keeps_last_example :
    reloaded (run edits (init (start none))) ≡ (run edits (init (start none))).cfg
unfolding run step init start init_from put_pending send_wake writer_wake writer_take writer_write
    write_held
writer-keeps_last_example =
    writer-keeps_last none edits (tt, (tt, (tt, (tt, (tt, (refl, (tt, (tt, (tt, (refl, tt))))))))))
      refl refl

abbrev edited : Access
edited = run (added "m1" ∷ []) (init (start none))

abbrev after_round : Access
after_round = step (write true) (step take (step wake (step (write true) (step wake_sent edited))))

writer_round-writes_example :
    (after_round.pending ≡ none)
    × (after_round.holding ≡ none)
    × (reloaded after_round ≡ edited.cfg)
writer_round-writes_example = writer_round-writes none (added "m1" ∷ []) (tt, tt)

-- A write that the disk refuses is lost: nothing waits, and the file has no configuration.
refused_write : (step (write false) (step take (step wake (step wake_sent edited)))).file ≡ none
unfolding run step init start init_from put_pending send_wake writer_wake writer_take writer_write
    write_held
refused_write = refl
