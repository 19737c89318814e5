-- ===== src/Web/Views/Logs/Buffer.antt =====
-- The buffer of web/src/views/Logs.vue over any sequence of frames.
use windsurf_to_api_go.Prelude.{
  ℕ, ◌≤◌, ◌≡◌, refl, ap, ◌∙◌, sym, Option, none, false, some, List, [], ◌∷◌, ◌++◌, length, arith,
  Bool-cases, inl, inr, ltb,
}
use windsurf_to_api_go.Prelude.Lists.{
  last_of, last_of-append, length-last_of, last_of_short, append_nil, append_assoc,
}
use windsurf_to_api_go.Web.Api.LogStream.{Sent, on_message}
use windsurf_to_api_go.Web.Views.Logs.{LogsPage, max_buffer, push, receive}

-- The frames that arrive, one after the other; one that is no JSON is `none`.
unfoldable pub receive_all : List (Option Sent) → LogsPage → LogsPage
unfolding receive
receive_all [] s = s
receive_all (frame ∷ frames) s = receive_all frames (receive frame s)

abbrev pub well_formed : List (Option Sent) → List Sent
well_formed [] = []
well_formed (none ∷ frames) = well_formed frames
well_formed (some e ∷ frames) = e ∷ well_formed frames

within_bound : (n : ℕ) → ltb max_buffer n ≡ false → n ≤ max_buffer
within_bound n h = ground arith

-- `push` keeps the last thousand of the entries.
pub push-last_of :
    (e : Sent) (s : LogsPage) → (push e s).entries ≡ last_of max_buffer (s.entries ++ e ∷ [])
unfolding push
push-last_of e s = elim (Bool-cases (ltb max_buffer (length (s.entries ++ e ∷ [])))) [
  | inl h ↦ rw h refl
  | inr h ↦ rw h (
      sym (
        last_of_short max_buffer (s.entries ++ e ∷ [])
          (within_bound (length (s.entries ++ e ∷ [])) h)))
]

-- However many frames arrive at a page within its bound, its buffer has the last thousand of its entries
-- and of the values that came, whatever these are; a frame that is no JSON changes nothing.
pub receive_all-entries :
    (frames : List (Option Sent)) (s : LogsPage)
    → length s.entries ≤ max_buffer
    → (receive_all frames s).entries ≡ last_of max_buffer (s.entries ++ well_formed frames)
unfolding receive_all receive on_message
receive_all-entries [] s h =
    sym (ap (last_of max_buffer) (append_nil (s.entries)) ∙ last_of_short max_buffer (s.entries) h)
receive_all-entries (none ∷ frames) s h = receive_all-entries frames s h
receive_all-entries (some e ∷ frames) s h =
    receive_all-entries frames (push e s)
      (rw (push-last_of e s) (length-last_of max_buffer (s.entries ++ e ∷ [])))
    ∙ ap (λ xs. last_of max_buffer (xs ++ well_formed frames)) (push-last_of e s)
    ∙ last_of-append max_buffer (s.entries ++ e ∷ []) (well_formed frames)
    ∙ ap (last_of max_buffer) (append_assoc (s.entries) (e ∷ []) (well_formed frames))
