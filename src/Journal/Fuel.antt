-- ===== src/Journal/Fuel.antt =====
-- src/journal.rs, `read_state`: a line takes its bytes off the file, so the loop ends.
use whaletracker.Prelude.{
  ℕ, zero, suc, ◌+◌, ◌<◌, ◌≡◌, ◌≢◌, refl, ap, [], ◌∷◌, ◌++◌, Option, none, some, inl, inr, arith,
  length, length-append, take, drop, take-append-drop, position, Text, append-nil, append_assoc,
  Option-cases,
}
use whaletracker.Reader.Line.{is_newline}
use whaletracker.Reader.{Source, eof, failed, chunk, bytes_of, bytes_of-put_back}
use whaletracker.Journal.{
  Codec, Record, pending, done, out_of_fuel, err, Result-cases, Loading, Limits, no_records,
  apply_record, apply_pending, add_pending, apply_done,
}
use whaletracker.Journal.Load.{
  LineRead, line, io_error, over_limit, read_line, apply_line, read_lines, read_state,
}

-- Where a line is read, it and what is left to read make up the text that was read before it and
-- what was left then: no byte is lost or doubled.
pub read_line-bytes :
    (src : Source) (out text : Text) (rest : Source)
    → read_line out src ≡ line text rest
    → text ++ bytes_of rest ≡ out ++ bytes_of src
unfolding read_line bytes_of
read_line-bytes eof out text rest e = ground (arith, append-nil out)
read_line-bytes failed out text rest e = cc
read_line-bytes (chunk b bs more) out text rest e =
    elim (Option-cases (position is_newline (b ∷ bs))) [
      | inl missing ↦ ground (
        arith,
        missing,
        read_line-bytes more (out ++ b ∷ bs) text rest,
        append_assoc out (b ∷ bs) (bytes_of more),
      )
      | inr (at, found) ↦ ground (
        arith,
        found,
        bytes_of-put_back (drop (at + 1) (b ∷ bs)) more,
        append_assoc out (take (at + 1) (b ∷ bs)) (drop (at + 1) (b ∷ bs) ++ bytes_of more),
        append_assoc (take (at + 1) (b ∷ bs)) (drop (at + 1) (b ∷ bs)) (bytes_of more),
        take-append-drop (at + 1) (b ∷ bs),
      )
    ]

apply_pending-ends :
    (l : Limits) (n : ℕ) (r : Record) (s : Loading) → apply_record l n r s ≢ err out_of_fuel
unfolding apply_record apply_pending add_pending apply_done
apply_pending-ends l n (pending w) s e = ground arith
apply_pending-ends l n (done id ts) s e = ground arith

apply_line-ends :
    (codec : Codec) (l : Limits) (n : ℕ) (text : Text) (s : Loading)
    → apply_line codec l n text s ≢ err out_of_fuel
unfolding apply_line
apply_line-ends codec l n text s e = elim (Option-cases (codec.decode text)) [
  | inl corrupt ↦ ground (arith, corrupt)
  | inr (r, decoded) ↦ ground (arith, decoded, apply_pending-ends l n r s)
]

read_lines-ends :
    (fuel : ℕ) (codec : Codec) (l : Limits) (ordinal : ℕ) (src : Source) (s : Loading)
    → length (bytes_of src) < fuel
    → read_lines fuel codec l ordinal src s ≢ err out_of_fuel
unfolding read_lines
read_lines-ends zero codec l ordinal src s h e = elim h [ ]
read_lines-ends (suc fuel) codec l ordinal src s h e =
    go (read_line [] src) refl (λ text rest u n. read_lines-ends fuel codec l (ordinal + 1) rest u)
  where
    go :
        (r : LineRead)
        → read_line [] src ≡ r
        → ((text : Text) (rest : Source) (u : Loading) (n : ℕ)
            → length (bytes_of rest) < fuel
            → read_lines fuel codec l (ordinal + 1) rest u ≢ err out_of_fuel)
        → ⊥
    go io_error k ih = ground (arith, k)
    go over_limit k ih = ground (arith, k)
    go (line [] rest) k ih = ground (arith, k)
    go (line (b ∷ bs) rest) k ih =
        elim (Result-cases (apply_line codec l (ordinal + 1) (b ∷ bs) s)) [
          | inl (why, refused) ↦
              ground (arith, k, refused, apply_line-ends codec l (ordinal + 1) (b ∷ bs) s)
          | inr (u, taken) ↦
              ih (b ∷ bs) rest u 0
                (omega (
                  arith,
                  ap length (read_line-bytes src [] (b ∷ bs) rest k),
                  length-append (b ∷ bs) (bytes_of rest),
                ))
                (ground (arith, k, taken))
        ]

-- The fuel is enough for every file: the loop of `read_state` ends, with a replay or with one of
-- the errors of the source.
pub read_state-ends :
    (codec : Codec) (l : Limits) (file : Option Source) → read_state codec l file ≢ err out_of_fuel
unfolding read_state
read_state-ends codec l none e = cc
read_state-ends codec l (some src) e =
    elim (Result-cases (read_lines (suc (length (bytes_of src))) codec l 0 src no_records)) [
      | inl (why, failed') ↦
          read_lines-ends (suc (length (bytes_of src))) codec l 0 src no_records (omega arith)
            (ground (arith, failed'))
      | inr (s, loaded) ↦ ground (arith, loaded)
    ]
