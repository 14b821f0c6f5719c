-- ===== src/Limits/Deadline.antt =====
-- src/runtime_limits.rs: `DeadlineStream`. The socket is the list of what the peer does, each at
-- its time: a socket's read waits for the next event, for as long as its timeout at most.
use whaletracker.Prelude.{
  ℕ, ◌+◌, ◌≤◌, ◌≡◌, refl, arith, List, [], ◌∷◌, ◌++◌, ◌==◌, ltb, if◌then◌else◌, max, ap,
  saturating_sub, Text, length, take, drop, ◌⊎◌, inl, inr,
}

-- A fragment that arrives, the end of the stream, or an error of the socket.
pub data Event : Type 0 where
  fragment : ℕ → Text → Event
  closed broken : ℕ → Event

abbrev pub Socket : Type 0
Socket = List Event

pub data ReadError : Type 0 where
  timed_out socket_error : ReadError

-- What a read returns, the time at which it does, and the socket that it leaves.
pub data Read : Type 0 where
  got : Text → ℕ → Socket → Read
  failed : ReadError → ℕ → Socket → Read

-- A fragment longer than the buffer leaves its rest; a stream that has ended stays at its end.
take_event : ℕ → ℕ → Event → Socket → Read
take_event size time (fragment arrives bytes) rest =
    if ltb size (length bytes)
    then got (take size bytes) time (fragment arrives (drop size bytes) ∷ rest)
    else got bytes time rest
take_event size time (closed arrives) rest = got [] time (closed arrives ∷ rest)
take_event size time (broken arrives) rest = failed socket_error time rest

arrival : Event → ℕ
arrival (fragment arrives bytes) = arrives
arrival (closed arrives) = arrives
arrival (broken arrives) = arrives

-- `TcpStream::read` into a buffer of `size` bytes, from `now`, with a read timeout.
unfoldable pub socket_read : ℕ → ℕ → ℕ → Socket → Read
unfolding take_event arrival
socket_read size now timeout [] = failed timed_out (now + timeout) []
socket_read size now timeout (e ∷ rest) =
    if ltb (arrival e) (now + timeout)
    then take_event size (max now (arrival e)) e rest
    else failed timed_out (now + timeout) (e ∷ rest)

pub record DeadlineStream : Type 0 where
  pub stream : Socket
  pub deadline : ℕ

unfoldable pub new_stream : Socket → ℕ → ℕ → DeadlineStream
new_stream stream now timeout = record { stream = stream; deadline = now + timeout }

unfoldable pub begin_frame : DeadlineStream → ℕ → ℕ → DeadlineStream
begin_frame s now timeout = record s { deadline = now + timeout }

-- `Read::read`.
unfoldable pub read : DeadlineStream → ℕ → ℕ → Read
unfolding socket_read
read s size now =
    if size == 0
    then got [] now s.stream
    else if saturating_sub s.deadline now == 0
    then failed timed_out now s.stream
    else socket_read size now (saturating_sub s.deadline now) s.stream

-- The reads of one frame: each follows some work, into a buffer of its size, and the first that
-- fails or gives no bytes ends the frame. The result is the bytes, in order, and the time.
unfoldable pub read_all : DeadlineStream → ℕ → List (ℕ × ℕ) → Text × ℕ
read_all s now [] = ([], now)
read_all s now ((work, size) ∷ more) = elim (read s size (now + work)) [
  | got [] time socket ↦ ([], time)
  | got (b ∷ bs) time socket ↦
      let (rest, last) = read_all (record s { stream = socket }) time more in
      ((b ∷ bs) ++ rest, last)
  | failed e time socket ↦ ([], time)
]

-- The work between the reads.
abbrev pub work_of : List (ℕ × ℕ) → ℕ
work_of [] = 0
work_of ((work, size) ∷ more) = work + work_of more

abbrev time_of : Read → ℕ
time_of (got bytes time socket) = time
time_of (failed e time socket) = time

take_event-time :
    (size time : ℕ) (e : Event) (rest : Socket) → time_of (take_event size time e rest) ≡ time
unfolding take_event
take_event-time size time (fragment arrives bytes) rest = ground arith
take_event-time size time (closed arrives) rest = refl
take_event-time size time (broken arrives) rest = refl

socket_read-time :
    (size now timeout : ℕ) (stream : Socket)
    → (now ≤ time_of (socket_read size now timeout stream))
      × (time_of (socket_read size now timeout stream) ≤ now + timeout)
unfolding socket_read
socket_read-time size now timeout [] = omega arith
socket_read-time size now timeout (e ∷ rest) =
    ground (arith, take_event-time size (max now (arrival e)) e rest)

-- A read ends by the deadline, or at once.
pub read-time :
    (s : DeadlineStream) (size now : ℕ)
    → (now ≤ time_of (read s size now)) × (time_of (read s size now) ≤ max now s.deadline)
unfolding read
read-time s size now =
    ground (arith, socket_read-time size now (saturating_sub s.deadline now) s.stream)

-- To split on what a read returns.
Read-cases :
    (r : Read)
    → ((time : ℕ) × (socket : Socket) × (r ≡ got [] time socket))
      ⊎ ((b : ℕ) × (bs : Text) × (time : ℕ) × (socket : Socket) × (r ≡ got (b ∷ bs) time socket))
      ⊎ ((e : ReadError) × (time : ℕ) × (socket : Socket) × (r ≡ failed e time socket))
Read-cases (got [] time socket) = inl (time, socket, refl)
Read-cases (got (b ∷ bs) time socket) = inr (inl (b, bs, time, socket, refl))
Read-cases (failed e time socket) = inr (inr (e, time, socket, refl))

read_all-le :
    (s : DeadlineStream) (now : ℕ) (reads : List (ℕ × ℕ))
    → (read_all s now reads).1 ≤ max now s.deadline + work_of reads
unfolding read_all
read_all-le s now [] = omega arith
read_all-le s now ((work, size) ∷ more) = elim (Read-cases (read s size (now + work))) [
  | inl (time, socket, e) ↦ rw (e, read_all) (omega (arith, bound, ap time_of e))
  | inr (inl (b, bs, time, socket, e)) ↦
      rw (e, read_all)
        (omega (arith, bound, ap time_of e, read_all-le (record s { stream = socket }) time more))
  | inr (inr (x, time, socket, e)) ↦ rw (e, read_all) (omega (arith, bound, ap time_of e))
]
  where
    bound :
        (now + work ≤ time_of (read s size (now + work)))
        × (time_of (read s size (now + work)) ≤ max (now + work) s.deadline)
    bound = read-time s size (now + work)

-- Whatever fragments arrive and whenever, the reads of a frame, as many as there are, return by
-- the deadline set at its beginning, delayed by no more than the work between them.
pub read_all-begin_frame :
    (s : DeadlineStream) (now timeout : ℕ) (reads : List (ℕ × ℕ))
    → (read_all (begin_frame s now timeout) now reads).1 ≤ now + timeout + work_of reads
unfolding begin_frame
read_all-begin_frame s now timeout reads =
    omega (arith, read_all-le (record s { deadline = now + timeout }) now reads)
