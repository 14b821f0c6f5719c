-- ===== src/Protocol/Client/Ends.antt =====
-- src/protocol.rs, `handle_client`: the loop ends with the bytes that the client sends.
use whaletracker.Prelude.{
  ℕ, ◌<◌, ◌≡◌, ◌≢◌, refl, sym, arith, ap, ◌∙◌, List, [], ◌∷◌, Bool, true, Option, none, some, Text,
  length, inl, inr, Bool-cases, ltb, word_max,
}
use whaletracker.Reader.Line.{first_line}
use whaletracker.Reader.{Source, bytes_of, ending, ends, fails}
use whaletracker.Reader
use whaletracker.Sink.{Sink, Outside}
use whaletracker.Protocol.Frame.{Frame, read, error, line, end_of_stream, too_long, read_frame}
use whaletracker.Protocol.Frame.Chunks.{
  view, a_line, judged, at_ending, frame_of, read_frame-frame_of,
}
use whaletracker.Protocol.Session.{
  Reply, complaint, frame_too_large, Handler, Handled, answers, silent, closes, sleeps, dies,
  handle_line, new_session,
}
use whaletracker.Protocol.Client
use whaletracker.Protocol.Client.Awake.{reaches, handle_line-awake}
use whaletracker.Protocol.Client.{
  Turn, Ended, unfinished, asleep, last_reply, after_line, after_frame, client_loop, handle_client,
}

first_line-lt : (t r : Text) → (first_line t).1 ≡ some r → length r < length t
unfolding first_line
first_line-lt [] r h = cc
first_line-lt (b ∷ bs) r h = ground (arith, first_line-lt bs r)

at_ending-ne : (l : Text) (e e' : Reader.Ending) (out r : Text) → at_ending l e ≢ a_line out r e'
at_ending-ne l fails e' out r h = cc
at_ending-ne [] ends e' out r h = cc
at_ending-ne (b ∷ bs) ends e' out r h = cc

judged-a_line :
    (maximum : ℕ) (l : Text) (after : Option Text) (e e' : Reader.Ending) (out r : Text)
    → judged maximum l after e ≡ a_line out r e'
    → after ≡ some r
judged-a_line maximum l none e e' out r h = elim (Bool-cases (ltb maximum (length l))) [
  | inl long ↦ let h' = rw long at h in cc
  | inr short ↦ let h' = rw short at h in absurd (at_ending-ne l e e' out r h')
]
judged-a_line maximum l (some x) e e' out r h = elim (Bool-cases (ltb maximum (length l))) [
  | inl long ↦ let h' = rw long at h in cc
  | inr short ↦ let h' = rw short at h in cc
]

-- A line takes its newline out of the stream.
read_frame-lt :
    (src : Source) (maximum : ℕ) {out : Text} {rest : Source}
    → maximum < word_max
    → read_frame maximum src ≡ read line out rest
    → length (bytes_of rest) < length (bytes_of src)
unfolding view frame_of
read_frame-lt src maximum {out} {rest} m e = first_line-lt (bytes_of src) (bytes_of rest) (
    judged-a_line maximum _ _ (ending src) (ending rest) out (bytes_of rest)
      (sym (read_frame-frame_of src maximum m) ∙ ap view e))

-- Neither the rounds nor the wake-ups ran out.
abbrev pub IsOver : Client.Ending → Type 0
IsOver e = (e ≢ unfinished) × (e ≢ asleep)

-- The wake-ups of every round reach the deadline of its wait.
abbrev pub InTime : List Turn → Type 0
InTime [] = Unit {0}
InTime (t ∷ ts) = (reaches t.meets.deadline t.meets.wakes ≡ true) × InTime ts

last_reply-IsOver : (t : Turn) (s : Sink) (reply : Reply) → IsOver (last_reply t s reply).ending
last_reply-IsOver t s reply = elim (Bool-cases t.sent) [
  | inl sent ↦ rw sent (λ e. cc, λ e. cc)
  | inr lost ↦ rw lost (λ e. cc, λ e. cc)
]

after_line-IsOver :
    (t : Turn) (s : Sink) (loop : Bool → Sink → Ended) (x : Handled)
    → x ≢ sleeps
    → ((a : Bool) (u : Sink) → IsOver (loop a u).ending)
    → IsOver (after_line t s loop x).ending
after_line-IsOver t s loop (answers a u reply) n k = elim (Bool-cases t.sent) [
  | inl sent ↦ rw sent (k a u)
  | inr lost ↦ rw lost (λ e. cc, λ e. cc)
]
after_line-IsOver t s loop (silent a u) n k = k a u
after_line-IsOver t s loop (closes u reply) n k = last_reply-IsOver t u reply
after_line-IsOver t s loop sleeps n k = absurd (n refl)
after_line-IsOver t s loop dies n k = (λ e. cc, λ e. cc)

module _ (o : Outside) (h : Handler) (max_frame_bytes : ℕ) where
  after_frame-IsOver :
      (t : Turn) (loop : Source → Bool → Sink → Ended) (authenticated : Bool) (s : Sink) (f : Frame)
      → reaches t.meets.deadline t.meets.wakes ≡ true
      → ((out : Text) (rest : Source) (a : Bool) (u : Sink)
          → f ≡ read line out rest
          → IsOver (loop rest a u).ending)
      → IsOver (after_frame o h max_frame_bytes t loop authenticated s f).ending
  after_frame-IsOver t loop authenticated s (error e) w k = (λ e. cc, λ e. cc)
  after_frame-IsOver t loop authenticated s (read end_of_stream out rest) w k = (λ e. cc, λ e. cc)
  after_frame-IsOver t loop authenticated s (read too_long out rest) w k =
      last_reply-IsOver t s (complaint none frame_too_large)
  after_frame-IsOver t loop authenticated s (read line out rest) w k =
      after_line-IsOver t s (loop rest) (handle_line o h t.meets authenticated s out)
        (handle_line-awake t.meets w o h authenticated s out) (λ a u. k out rest a u refl)

  client_loop-IsOver :
      (turns : List Turn) (src : Source) (authenticated : Bool) (s : Sink)
      → max_frame_bytes < word_max
      → length (bytes_of src) < length turns
      → InTime turns
      → IsOver (client_loop o h max_frame_bytes turns src authenticated s).ending
  unfolding client_loop
  client_loop-IsOver [] src authenticated s m lt w = absurd (omega arith)
  client_loop-IsOver (t ∷ ts) src authenticated s m lt w =
      after_frame-IsOver t (client_loop o h max_frame_bytes ts) authenticated (t.others s)
        (read_frame max_frame_bytes src) w.0
        (λ out rest a u e.
          client_loop-IsOver ts rest a u m (omega (arith, read_frame-lt src max_frame_bytes m e))
            w.1)

-- Below the largest `usize`, and where each wait for an acknowledgement is woken at its deadline or
-- behind it, a connection of n bytes ends within n + 1 rounds of the loop, and its handler does not
-- sleep for ever: it returns, or its thread panics or the process ends.
pub handle_client-ends :
    (o : Outside) (h : Handler) (max_frame_bytes : ℕ) (turns : List Turn) (src : Source) (s : Sink)
    → max_frame_bytes < word_max
    → length (bytes_of src) < length turns
    → InTime turns
    → IsOver (handle_client o h max_frame_bytes turns src s).ending
unfolding handle_client
handle_client-ends o h max_frame_bytes turns src s m lt w =
    client_loop-IsOver o h max_frame_bytes turns src (new_session h) s m lt w
