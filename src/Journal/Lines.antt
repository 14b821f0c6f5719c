-- ===== src/Journal/Lines.antt =====
-- src/journal.rs, `read_state`: the inner loop on a file that starts with a whole line.
use whaletracker.Prelude.{
  ◌+◌, ◌<◌, ◌≡◌, ap, ◌∙◌, [], ◌∷◌, ◌++◌, some, inl, inr, arith, length, length-append, take, drop,
  position, Text, append_assoc,
}
use whaletracker.Reader.Line.{
  is_newline, line_cases, position-one_line, position-line, drop_line, take_line, first_line,
  first_line-append, first_line-newline,
}
use whaletracker.Reader.{
  Source, eof, failed, chunk, put_back, bytes_of, bytes_of-put_back, ending, ending-put_back,
}
use whaletracker.Journal.Load.{line, read_line, max_journal_line}

-- On a file that starts with a line, the line is read whole, however the chunks are cut.
pub read_line-first_line :
    (src : Source) (out more : Text)
    → (first_line (bytes_of src)).1 ≡ some more
    → length out + length (first_line (bytes_of src)).0 < max_journal_line
    → (rest : Source) × (read_line out src
        ≡ line (out ++ ((first_line (bytes_of src)).0 ++ b'\n' ∷ [])) rest)
      × (bytes_of rest ≡ more)
      × (ending rest ≡ ending src)
unfolding read_line bytes_of ending first_line
read_line-first_line eof out more e h = cc
read_line-first_line failed out more e h = cc
read_line-first_line (chunk b bs src) out more e h = elim (line_cases (b ∷ bs)) [
  | inl one ↦
      let split = first_line-append (b ∷ bs) (bytes_of src) one in
      let (rest, got, left, end) =
        read_line-first_line src (out ++ b ∷ bs) more (ground (arith, split)) (
          ground (
            arith,
            split,
            length-append out (b ∷ bs),
            length-append (b ∷ bs) (first_line (bytes_of src)).0,
          )) in
      (
        rest,
        ground (
          arith,
          split,
          position-one_line (b ∷ bs) one,
          got,
          length-append (b ∷ bs) (first_line (bytes_of src)).0,
          append_assoc out (b ∷ bs) ((first_line (bytes_of src)).0 ++ b'\n' ∷ []),
          append_assoc (b ∷ bs) (first_line (bytes_of src)).0 (b'\n' ∷ []),
        ),
        left,
        end,
      )
  | inr s ↦
      let pos : position is_newline (b ∷ bs) ≡ some (length s.before) =
        ap (position is_newline) s.whole ∙ position-line s.after s.before s.one_line in
      let taken : take (length s.before + 1) (b ∷ bs) ≡ s.before ++ b'\n' ∷ [] =
        ap (take (length s.before + 1)) s.whole ∙ take_line s.before s.after in
      let dropped : drop (length s.before + 1) (b ∷ bs) ≡ s.after =
        ap (drop (length s.before + 1)) s.whole ∙ drop_line s.before s.after in
      let split : first_line ((b ∷ bs) ++ bytes_of src)
          ≡ (s.before, some (s.after ++ bytes_of src)) =
        ap (λ (t : Text). first_line (t ++ bytes_of src)) s.whole
        ∙ ap first_line (append_assoc s.before (b'\n' ∷ s.after) (bytes_of src))
        ∙ first_line-newline s.before (s.after ++ bytes_of src) s.one_line in
      (
        put_back s.after src,
        ground (arith, pos, taken, dropped, split),
        ground (arith, split, bytes_of-put_back s.after src),
        ending-put_back s.after src,
      )
]
