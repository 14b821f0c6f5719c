-- ===== src/Protocol/Frame.antt =====
-- src/protocol.rs, `read_frame`: bounded lines out of a buffered reader.
pub mod Chunks
use whaletracker.Prelude.{
  ℕ, ◌+◌, List, [], ◌∷◌, ◌++◌, Bool, true, false, Option, none, some, ◌==◌, ltb, if◌then◌else◌,
  length, take, drop, position, saturating_add, Text,
}
use whaletracker.Reader.Line.{is_newline}
use whaletracker.Reader.{Source, eof, failed, chunk, put_back}

pub data FrameRead : Type 0 where
  line end_of_stream too_long : FrameRead

pub data FrameError : Type 0 where
  unterminated stream_error : FrameError

-- The outcome, with the output buffer and the reader; or the I/O error.
pub data Frame : Type 0 where
  read : FrameRead → Text → Source → Frame
  error : FrameError → Frame

-- `if output.last() == Some(&b'\r') { output.pop(); }`
unfoldable pub strip_cr : Text → Text
strip_cr [] = []
strip_cr (b ∷ []) = if b == b'\r' then [] else b ∷ []
strip_cr (b ∷ c ∷ rest) = b ∷ strip_cr (c ∷ rest)

at_end : Text → Frame
at_end [] = read end_of_stream [] eof
at_end (b ∷ bs) = error unterminated

-- The loop, over the output so far.
unfoldable pub read_frame_loop : ℕ → Text → Source → Frame
unfolding at_end
read_frame_loop maximum output eof = at_end output
read_frame_loop maximum output failed = error stream_error
read_frame_loop maximum output (chunk b bs rest) = elim (position is_newline (b ∷ bs)) [
  | some at ↦
      if ltb maximum (saturating_add (length output) at)
      then read too_long [] (chunk b bs rest)
      else read line (strip_cr (output ++ take at (b ∷ bs)))
          (put_back (drop (at + 1) (b ∷ bs)) rest)
  | none ↦ elim (ltb maximum (saturating_add (length output) (length (b ∷ bs)))) [
    | true ↦ read too_long [] (chunk b bs rest)
    | false ↦ read_frame_loop maximum (output ++ b ∷ bs) rest
  ]
]

unfoldable pub read_frame : ℕ → Source → Frame
unfolding read_frame_loop
read_frame maximum reader = read_frame_loop maximum [] reader
