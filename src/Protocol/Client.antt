-- ===== src/Protocol/Client.antt =====
-- src/protocol.rs, `handle_client`: the loop over the frames of one connection, with what is sent
-- to the client. The other threads change the sink between the lines.
pub mod Order
pub mod Awake
pub mod Ends
use whaletracker.Prelude.{ℕ, List, [], ◌∷◌, Bool, true, false, none, if◌then◌else◌, Text}
use whaletracker.Reader.{Source}
use whaletracker.Sink.{Sink, Outside}
use whaletracker.Protocol.Frame.{
  Frame, FrameError, read, error, line, end_of_stream, too_long, read_frame,
}
use whaletracker.Protocol.Session.{
  Reply, complaint, frame_too_large, Handler, Meets, Handled, answers, silent, closes, sleeps, dies,
  handle_line, new_session,
}

-- What a round of the loop meets: the sink as the other threads leave it, what the line meets, and
-- whether the reply can be written to the socket.
pub record Turn : Type 0 where
  pub others : Sink → Sink
  pub meets : Meets
  pub sent : Bool

-- `asleep` where the list of wake-ups ends while the handler waits, `died` where its thread panics
-- or the process ends, `unfinished` where the list of rounds ends before the connection does.
pub data Ending : Type 0 where
  ended send_failed asleep died unfinished : Ending
  read_failed : FrameError → Ending

pub record Ended : Type 0 where
  pub replies : List Reply
  pub sink : Sink
  pub ending : Ending

abbrev pub stops : Sink → Ending → Ended
stops s e = record { replies = []; sink = s; ending = e }

-- The last reply of a connection.
abbrev pub last_reply : Turn → Sink → Reply → Ended
last_reply t s reply =
    if t.sent
    then record { replies = reply ∷ []; sink = s; ending = ended }
    else stops s send_failed

abbrev pub and_reply : Reply → Ended → Ended
and_reply reply e = record e { replies = reply ∷ e.replies }

-- After a line: the loop goes on as a function of the flag and the sink.
abbrev pub after_line : Turn → Sink → (Bool → Sink → Ended) → Handled → Ended
after_line t s₀ loop (answers authenticated s reply) = elim t.sent [
  | true ↦ and_reply reply (loop authenticated s)
  | false ↦ stops s send_failed
]
after_line t s₀ loop (silent authenticated s) = loop authenticated s
after_line t s₀ loop (closes s reply) = last_reply t s reply
after_line t s₀ loop sleeps = stops s₀ asleep
after_line t s₀ loop dies = stops s₀ died

module _ (o : Outside) (h : Handler) (max_frame_bytes : ℕ) where
  abbrev pub after_frame : Turn → (Source → Bool → Sink → Ended) → Bool → Sink → Frame → Ended
  after_frame t loop authenticated s (error e) = stops s (read_failed e)
  after_frame t loop authenticated s (read end_of_stream bytes rest) = stops s ended
  after_frame t loop authenticated s (read too_long bytes rest) =
      last_reply t s (complaint none frame_too_large)
  after_frame t loop authenticated s (read line bytes rest) =
      after_line t s (loop rest) (handle_line o h t.meets authenticated s bytes)

  unfoldable pub client_loop : List Turn → Source → Bool → Sink → Ended
  unfolding handle_line read_frame
  client_loop [] src authenticated s = stops s unfinished
  client_loop (t ∷ ts) src authenticated s =
      after_frame t (client_loop ts) authenticated (t.others s) (read_frame max_frame_bytes src)

  unfoldable pub handle_client : List Turn → Source → Sink → Ended
  unfolding client_loop new_session
  handle_client turns src s = client_loop turns src (new_session h) s
