-- ===== src/Journal/Encoded.antt =====
-- src/journal.rs, `read_state` on a file that is made of encoded records.
use whaletracker.Prelude.{
  ℕ, zero, suc, ◌+◌, ◌≤◌, ◌<◌, ◌≡◌, refl, sym, ap, ◌∙◌, List, [], ◌∷◌, ◌++◌, true, false, Option,
  some, inl, inr, arith, length, length-append, all, Text,
}
use whaletracker.Ascii.{is_ascii_whitespace}
use whaletracker.Reader.Line.{IsOneLine, first_line, first_line-newline}
use whaletracker.Reader.{Source, eof, failed, chunk, bytes_of, ends, ending}
use whaletracker.Journal.{
  Codec, Record, Result, ok, err, Result-cases, Loading, Limits, no_records, apply_record,
}
use whaletracker.Journal.Load.{
  line, read_line, max_journal_line, apply_line, read_lines, read_state, to_replay, ends_line,
}
use whaletracker.Journal.Lines.{read_line-first_line}

-- What the journal relies on of `serde_json`: a record is written as one line that opens with a
-- brace, and a line that was written is read back.
pub record IsCodec (codec : Codec) : Type 0 where
  pub one_line : (r : Record) → IsOneLine (codec.encode r)
  pub opens : (r : Record) → (t : Text) × (codec.encode r ≡ b'{' ∷ t)
  pub reads_back : (r : Record) → codec.decode (codec.encode r ++ b'\n' ∷ []) ≡ some r

-- The lines that `append_pending` and `append_done` write.
unfoldable pub encode_all : Codec → List Record → Text
encode_all codec [] = []
encode_all codec (r ∷ rs) = codec.encode r ++ b'\n' ∷ encode_all codec rs

-- Each line is within the limit of recovery.
abbrev pub LinesFit : Codec → List Record → Type 0
LinesFit codec [] = Unit {0}
LinesFit codec (r ∷ rs) = (length (codec.encode r) < max_journal_line) × LinesFit codec rs

-- The records taken in, one after the other.
unfoldable pub apply_records : Limits → ℕ → Loading → List Record → Result Loading
apply_records l ordinal s [] = ok s
apply_records l ordinal s (r ∷ rs) = elim (apply_record l (ordinal + 1) r s) [
  | err e ↦ err e
  | ok t ↦ apply_records l (ordinal + 1) t rs
]

pub apply_records-step :
    (l : Limits) (n : ℕ) (s t : Loading) (r : Record) (rs : List Record)
    → apply_record l (n + 1) r s ≡ ok t
    → apply_records l n s (r ∷ rs) ≡ apply_records l (n + 1) t rs
unfolding apply_records
apply_records-step l n s t r rs h = rw (h, apply_records)

pub apply_records-append :
    (rs qs : List Record) (l : Limits) (n : ℕ) (s t : Loading)
    → apply_records l n s rs ≡ ok t
    → apply_records l n s (rs ++ qs) ≡ apply_records l (n + length rs) t qs
unfolding apply_records
apply_records-append [] qs l n s t h = let e : n + 0 ≡ n = omega arith in rw e (ground arith)
apply_records-append (r ∷ rs) qs l n s t h = elim (Result-cases (apply_record l (n + 1) r s)) [
  | inl (why, refused) ↦ absurd (ground (arith, refused))
  | inr (u, taken) ↦
      let e : n + length (r ∷ rs) ≡ n + 1 + length rs = omega arith in
      rw e (
        apply_records-step l n s u r (rs ++ qs) taken
        ∙ apply_records-append rs qs l (n + 1) u t (ground (arith, taken)))
]

ends_line-push : (t : Text) → ends_line (t ++ b'\n' ∷ []) ≡ true
unfolding ends_line
ends_line-push [] = refl
ends_line-push (b ∷ []) = refl
ends_line-push (b ∷ c ∷ t) = ends_line-push (c ∷ t)

apply_line-encode :
    (codec : Codec) (c : IsCodec codec) (l : Limits) (n : ℕ) (r : Record) (s : Loading)
    → apply_line codec l n (codec.encode r ++ b'\n' ∷ []) s ≡ apply_record l n r s
unfolding apply_line is_ascii_whitespace
apply_line-encode codec c l n r s =
    let (t, e) = c.opens r in
    let full : all is_ascii_whitespace (codec.encode r ++ b'\n' ∷ []) ≡ false = rw e in
    ground (arith, ends_line-push (codec.encode r), full, c.reads_back r)

empty-eof : (src : Source) → bytes_of src ≡ [] → ending src ≡ ends → src ≡ eof
unfolding bytes_of ending
empty-eof eof b e = refl
empty-eof failed b e = cc
empty-eof (chunk x xs src) b e = cc

-- A round of the outer loop on a line that is read.
read_lines_step :
    (fuel : ℕ) (codec : Codec) (l : Limits) (ordinal : ℕ) (src rest : Source) (s : Loading) (b : ℕ)
    (bs : Text)
    → read_line [] src ≡ line (b ∷ bs) rest
    → read_lines (suc fuel) codec l ordinal src s
      ≡ elim (apply_line codec l (ordinal + 1) (b ∷ bs) s) [
        | err e ↦ err e
        | ok t ↦ read_lines fuel codec l (ordinal + 1) rest t
      ]
unfolding read_lines
read_lines_step fuel codec l ordinal src rest s b bs h = rw (h, read_lines)

-- The source, after a line that encodes `r`.
record Next (codec : Codec) (r : Record) (rs : List Record) (src : Source) : Type 0 where
  rest : Source
  text : Text
  got : read_line [] src ≡ line (b'{' ∷ text) rest
  encodes : b'{' ∷ text ≡ codec.encode r ++ b'\n' ∷ []
  left : bytes_of rest ≡ encode_all codec rs
  end : ending rest ≡ ending src

read_line-Next :
    (codec : Codec) (c : IsCodec codec) (r : Record) (rs : List Record) (src : Source)
    → bytes_of src ≡ encode_all codec (r ∷ rs)
    → length (codec.encode r) < max_journal_line
    → Next codec r rs src
unfolding encode_all
read_line-Next codec c r rs src b fit =
    let split : first_line (bytes_of src) ≡ (codec.encode r, some (encode_all codec rs)) =
      ap first_line b ∙ first_line-newline (codec.encode r) (encode_all codec rs) (c.one_line r) in
    let text_is : (first_line (bytes_of src)).0 ≡ codec.encode r =
      ap (λ (p : Text × Option Text). p.0) split in
    let (t, e) = c.opens r in
    let (rest, got, left, end) =
      read_line-first_line src [] (encode_all codec rs) (ap (λ (p : Text × Option Text). p.1) split)
        (omega (arith, ap length text_is)) in
    record {
      rest = rest;
      text = t ++ b'\n' ∷ [];
      got = got ∙ ap (λ (x : Text). line (x ++ b'\n' ∷ []) rest) (text_is ∙ e);
      encodes = ap (λ (x : Text). x ++ b'\n' ∷ []) (sym e);
      left = left;
      end = end;
    }

pub read_lines-encode_all :
    (rs : List Record) (fuel : ℕ) (codec : Codec) (c : IsCodec codec) (l : Limits) (ordinal : ℕ)
    (src : Source) (s : Loading)
    → bytes_of src ≡ encode_all codec rs
    → ending src ≡ ends
    → LinesFit codec rs
    → length rs < fuel
    → read_lines fuel codec l ordinal src s ≡ apply_records l ordinal s rs
unfolding read_lines apply_records encode_all read_line
read_lines-encode_all rs zero codec c l ordinal src s b e fit h = elim h [ ]
read_lines-encode_all [] (suc fuel) codec c l ordinal src s b e fit h = rw (empty-eof src b e)
read_lines-encode_all (r ∷ rs) (suc fuel) codec c l ordinal src s b e fit h =
    let n = read_line-Next codec c r rs src b fit.0 in
    let taken : apply_line codec l (ordinal + 1) (b'{' ∷ n.text) s
        ≡ apply_record l (ordinal + 1) r s =
      ap (λ (t : Text). apply_line codec l (ordinal + 1) t s) n.encodes
      ∙ apply_line-encode codec c l (ordinal + 1) r s in
    read_lines_step fuel codec l ordinal src n.rest s b'{' n.text n.got
    ∙ elim (Result-cases (apply_record l (ordinal + 1) r s)) [
      | inl (why, refused) ↦ ground (arith, taken, refused)
      | inr (t, ok_t) ↦ ground (
        arith,
        taken,
        ok_t,
        read_lines-encode_all rs fuel codec c l (ordinal + 1) n.rest t n.left (n.end ∙ e) fit.1
            (omega arith),
      )
    ]

length-encode_all : (codec : Codec) (rs : List Record) → length rs ≤ length (encode_all codec rs)
unfolding encode_all
length-encode_all codec [] = omega arith
length-encode_all codec (r ∷ rs) = omega (
  arith,
  length-encode_all codec rs,
  length-append (codec.encode r) (b'\n' ∷ encode_all codec rs),
)

-- Let the codec write each record as a line that it reads back. A file of encoded records, each
-- within the limit on lines, is read as exactly those records, in order and numbered from 1,
-- however the reader cuts it into chunks.
pub read_state-encode_all :
    (rs : List Record) (codec : Codec) (c : IsCodec codec) (l : Limits) (src : Source)
    → bytes_of src ≡ encode_all codec rs
    → ending src ≡ ends
    → LinesFit codec rs
    → read_state codec l (some src)
      ≡ elim (apply_records l 0 no_records rs) [ err e ↦ err e | ok s ↦ ok (to_replay s) ]
unfolding read_state
read_state-encode_all rs codec c l src b e fit =
    ap (λ (x : Result Loading). elim x [ err e ↦ err e | ok s ↦ ok (to_replay s) ])
      (read_lines-encode_all rs (suc (length (bytes_of src))) codec c l 0 src no_records b e fit
        (omega (arith, length-encode_all codec rs, ap length b)))
