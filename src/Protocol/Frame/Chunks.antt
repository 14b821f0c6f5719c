-- ===== src/Protocol/Frame/Chunks.antt =====
-- src/protocol.rs, `read_frame`: what it returns does not depend on how the bytes come in.
use whaletracker.Prelude.{
  ℕ, ◌+◌, ◌≤◌, ◌<◌, ◌≡◌, ap, ◌∙◌, [], ◌∷◌, ◌++◌, Option, none, some, inl, inr, arith, ltb,
  if◌then◌else◌, length, length-append, take, drop, position, word_max, Text, append_assoc,
  append-nil,
}
use whaletracker.Reader.Line.{
  is_newline, Splits, line_cases, position-one_line, position-line, take-append, drop_line,
  first_line, first_line-append, first_line-newline,
}
use whaletracker.Reader.{
  Source, eof, failed, chunk, bytes_of, Ending, ends, fails, ending, bytes_of-put_back,
  ending-put_back,
}
use whaletracker.Protocol.Frame.{
  line, end_of_stream, too_long, Frame, read, error, unterminated, stream_error, strip_cr, at_end,
  read_frame_loop, read_frame,
}

-- An outcome, up to the chunks of what is left to read.
pub data FrameView : Type 0 where
  a_line : Text → Text → Ending → FrameView
  nothing_left exceeded cut_off broken : FrameView

unfoldable pub view : Frame → FrameView
view (read line out rest) = a_line out (bytes_of rest) (ending rest)
view (read end_of_stream out rest) = nothing_left
view (read too_long out rest) = exceeded
view (error unterminated) = cut_off
view (error stream_error) = broken

abbrev pub at_ending : Text → Ending → FrameView
at_ending l fails = broken
at_ending [] ends = nothing_left
at_ending (b ∷ bs) ends = cut_off

abbrev pub judged : ℕ → Text → Option Text → Ending → FrameView
judged maximum l after e =
    if ltb maximum (length l)
    then exceeded
    else elim after [ none ↦ at_ending l e | some rest ↦ a_line (strip_cr l) rest e ]

-- The reference: cut all the bytes at the first newline.
unfoldable pub frame_of : ℕ → Text → Text → Ending → FrameView
frame_of maximum output bytes e =
    judged maximum (output ++ (first_line bytes).0) (first_line bytes).1 e

at_end-judged :
    (output : Text) (maximum : ℕ)
    → length output ≤ maximum
    → view (at_end output) ≡ judged maximum (output ++ []) none ends
unfolding at_end view
at_end-judged [] maximum o = ground arith
at_end-judged (b ∷ bs) maximum o = rw append-nil (ground arith)

failed-judged :
    (output : Text) (maximum : ℕ)
    → length output ≤ maximum
    → broken ≡ judged maximum (output ++ []) none fails
failed-judged output maximum o = rw append-nil (ground arith)

-- A chunk with a newline decides the outcome.
line-judged :
    (b : ℕ) (bs : Text) (rest : Source) (maximum : ℕ) (output : Text)
    → maximum < word_max
    → Splits (b ∷ bs)
    → view (read_frame_loop maximum output (chunk b bs rest))
      ≡ frame_of maximum output (bytes_of (chunk b bs rest)) (ending (chunk b bs rest))
unfolding read_frame_loop view frame_of bytes_of ending
line-judged b bs rest maximum output m s =
    let pos : position is_newline (b ∷ bs) ≡ some (length s.before) =
      ap (position is_newline) s.whole ∙ position-line s.after s.before s.one_line in
    let taken : take (length s.before) (b ∷ bs) ≡ s.before =
      ap (take (length s.before)) s.whole ∙ take-append s.before (b'\n' ∷ s.after) in
    let dropped : drop (length s.before + 1) (b ∷ bs) ≡ s.after =
      ap (drop (length s.before + 1)) s.whole ∙ drop_line s.before s.after in
    let split : first_line ((b ∷ bs) ++ bytes_of rest)
        ≡ (s.before, some (s.after ++ bytes_of rest)) =
      ap (λ (t : Text). first_line (t ++ bytes_of rest)) s.whole
      ∙ ap first_line (append_assoc s.before (b'\n' ∷ s.after) (bytes_of rest))
      ∙ first_line-newline s.before (s.after ++ bytes_of rest) s.one_line in
    ground (
      arith,
      pos,
      taken,
      dropped,
      split,
      bytes_of-put_back s.after rest,
      ending-put_back s.after rest,
      length-append output s.before,
    )

frame_of-loop :
    (src : Source) (maximum : ℕ) (output : Text)
    → maximum < word_max
    → length output ≤ maximum
    → view (read_frame_loop maximum output src)
      ≡ frame_of maximum output (bytes_of src) (ending src)
unfolding read_frame_loop view frame_of bytes_of ending first_line
frame_of-loop eof maximum output m o = at_end-judged output maximum o
frame_of-loop failed maximum output m o = failed-judged output maximum o
frame_of-loop (chunk b bs rest) maximum output m o = elim (line_cases (b ∷ bs)) [
  | inl one ↦ ground (
    arith,
    position-one_line (b ∷ bs) one,
    first_line-append (b ∷ bs) (bytes_of rest) one,
    frame_of-loop rest maximum (output ++ b ∷ bs) m,
    length-append output (b ∷ bs),
    length-append output ((b ∷ bs) ++ (first_line (bytes_of rest)).0),
    length-append (b ∷ bs) (first_line (bytes_of rest)).0,
    append_assoc output (b ∷ bs) (first_line (bytes_of rest)).0,
  )
  | inr s ↦ line-judged b bs rest maximum output m s
]

-- Below the largest `usize`, however the bytes are split into chunks, `read_frame` returns what
-- the reference makes of them: the text before the first newline less a final carriage return,
-- with all that follows left to read; `TooLong` exactly where that text is longer than the
-- maximum; at the end of the stream `Eof` on no byte, and an error on an unfinished line.
pub read_frame-frame_of :
    (src : Source) (maximum : ℕ)
    → maximum < word_max
    → view (read_frame maximum src) ≡ frame_of maximum [] (bytes_of src) (ending src)
unfolding read_frame
read_frame-frame_of src maximum m = frame_of-loop src maximum [] m (omega arith)
