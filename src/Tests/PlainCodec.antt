-- ===== src/Tests/PlainCodec.antt =====
-- A codec of the journal's records, in place of `serde_json`: every number in unary, `,` behind
-- each number and `;` behind each text.
use whaletracker.Prelude.{
  ℕ, zero, suc, ◌+◌, ◌≡◌, refl, sym, ap, ◌∙◌, List, [], ◌∷◌, ◌++◌, true, false, Option, none, some,
  arith, Text, append_assoc, append-nil, ℤ, pos, negsuc, ◌==◌,
}
use whaletracker.Reader.Line.{IsOneLine}
use whaletracker.Journal.{Record, pending, done, Codec}
use whaletracker.Journal.Encoded.{IsCodec}

ones : ℕ → Text → Text
ones zero rest = rest
ones (suc n) rest = b'1' ∷ ones n rest

unfoldable print_text : Text → Text → Text
unfolding ones
print_text [] rest = b';' ∷ rest
print_text (b ∷ bs) rest = ones b (b',' ∷ print_text bs rest)

parse_text : ℕ → Text → Text → Option (Text × Text)
parse_text n read [] = none
parse_text n read (b ∷ bs) = elim (b == b'1') [
  | true ↦ parse_text (n + 1) read bs
  | false ↦ elim (b == b',') [ true ↦ parse_text 0 (read ++ n ∷ []) bs | false ↦ some (read, bs) ]
]

parse_text-ones :
    (k n : ℕ) (read rest : Text) → parse_text n read (ones k rest) ≡ parse_text (n + k) read rest
unfolding parse_text ones
parse_text-ones zero n read rest = let e : n + 0 ≡ n = omega arith in rw e refl
parse_text-ones (suc k) n read rest =
    let e : n + 1 + k ≡ n + suc k = omega arith in parse_text-ones k (n + 1) read rest ∙ rw e refl

parse_text-print :
    (t read rest : Text) → parse_text 0 read (print_text t rest) ≡ some (read ++ t, rest)
unfolding parse_text print_text
parse_text-print [] read rest = rw append-nil refl
parse_text-print (b ∷ bs) read rest =
    let e : 0 + b ≡ b = omega arith in
    ground (
      arith,
      e,
      parse_text-ones b 0 read (b',' ∷ print_text bs rest),
      parse_text-print bs (read ++ b ∷ []) rest,
      append_assoc read (b ∷ []) bs,
    )

print_texts : List Text → Text → Text
unfolding print_text
print_texts [] rest = rest
print_texts (t ∷ ts) rest = print_text t (print_texts ts rest)

prepend : Text → Option (List Text) → Option (List Text)
prepend t none = none
prepend t (some ts) = some (t ∷ ts)

parse_texts : ℕ → Text → Option (List Text)
unfolding parse_text prepend
parse_texts zero bs = some []
parse_texts (suc n) bs = elim (parse_text 0 [] bs) [
  | none ↦ none
  | some (t, rest) ↦ prepend t (parse_texts n rest)
]

count : List Text → ℕ
count [] = 0
count (t ∷ ts) = suc (count ts)

parse_texts-print :
    (ts : List Text) (rest : Text) → parse_texts (count ts) (print_texts ts rest) ≡ some ts
unfolding parse_texts print_texts count prepend
parse_texts-print [] rest = refl
parse_texts-print (t ∷ ts) rest =
    ground (arith, parse_text-print t [] (print_texts ts rest), parse_texts-print ts rest)

ones-append : (n : ℕ) (r z : Text) → ones n r ++ z ≡ ones n (r ++ z)
unfolding ones
ones-append zero r z = refl
ones-append (suc n) r z = ap (◌∷◌ b'1') (ones-append n r z)

print_text-append : (t r z : Text) → print_text t r ++ z ≡ print_text t (r ++ z)
unfolding print_text
print_text-append [] r z = refl
print_text-append (b ∷ bs) r z =
    ones-append b (b',' ∷ print_text bs r) z
    ∙ ap (λ (x : Text). ones b (b',' ∷ x)) (print_text-append bs r z)

print_texts-append : (ts : List Text) (r z : Text) → print_texts ts r ++ z ≡ print_texts ts (r ++ z)
unfolding print_texts
print_texts-append [] r z = refl
print_texts-append (t ∷ ts) r z =
    print_text-append t (print_texts ts r) z ∙ ap (print_text t) (print_texts-append ts r z)

ones-IsOneLine : (n : ℕ) (r : Text) → IsOneLine r → IsOneLine (ones n r)
unfolding ones
ones-IsOneLine zero r h = h
ones-IsOneLine (suc n) r h = (refl, ones-IsOneLine n r h)

print_text-IsOneLine : (t r : Text) → IsOneLine r → IsOneLine (print_text t r)
unfolding print_text
print_text-IsOneLine [] r h = (refl, h)
print_text-IsOneLine (b ∷ bs) r h =
    ones-IsOneLine b (b',' ∷ print_text bs r) (refl, print_text-IsOneLine bs r h)

print_texts-IsOneLine : (ts : List Text) (r : Text) → IsOneLine r → IsOneLine (print_texts ts r)
unfolding print_texts
print_texts-IsOneLine [] r h = h
print_texts-IsOneLine (t ∷ ts) r h =
    print_text-IsOneLine t (print_texts ts r) (print_texts-IsOneLine ts r h)

user_text : Option ℕ → Text
user_text none = []
user_text (some n) = n ∷ []

batch_text : Option ℤ → Text
batch_text none = []
batch_text (some (pos n)) = n ∷ []
batch_text (some (negsuc n)) = n ∷ 0 ∷ []

parsed_user : Text → Option ℕ
parsed_user [] = none
parsed_user (n ∷ ns) = some n

parsed_batch : Text → Option ℤ
parsed_batch [] = none
parsed_batch (n ∷ []) = some (pos n)
parsed_batch (n ∷ m ∷ ms) = some (negsuc n)

fields : Record → List Text
unfolding user_text batch_text
fields (pending w) =
    (0 ∷ [])
    ∷ w.event_id
    ∷ w.sql
    ∷ user_text w.user_id
    ∷ batch_text w.batch_id
    ∷ (w.ts_ms ∷ [])
    ∷ []
fields (done id ts) = (1 ∷ []) ∷ id ∷ (ts ∷ []) ∷ [] ∷ [] ∷ [] ∷ []

parsed_record : Option (List Text) → Option Record
unfolding parsed_user parsed_batch
parsed_record (some ((zero ∷ []) ∷ id ∷ sql ∷ user ∷ batch ∷ (ts ∷ []) ∷ [])) = some (
    pending (record {
      event_id = id;
      sql = sql;
      user_id = parsed_user user;
      batch_id = parsed_batch batch;
      ts_ms = ts;
    }))
parsed_record (some ((suc k ∷ _) ∷ id ∷ (ts ∷ []) ∷ rest)) = some (done id ts)
parsed_record _ = none

decode_line : Text → Option Record
unfolding parsed_record parse_texts
decode_line [] = none
decode_line (b ∷ bs) = parsed_record (parse_texts 6 bs)

unfoldable pub plain : Codec
unfolding print_texts fields decode_line
plain = record { encode = λ r. b'{' ∷ print_texts (fields r) []; decode = decode_line }

parsed_user_text : (u : Option ℕ) → parsed_user (user_text u) ≡ u
unfolding parsed_user user_text
parsed_user_text none = refl
parsed_user_text (some n) = refl

parsed_batch_text : (b : Option ℤ) → parsed_batch (batch_text b) ≡ b
unfolding parsed_batch batch_text
parsed_batch_text none = refl
parsed_batch_text (some (pos n)) = refl
parsed_batch_text (some (negsuc n)) = refl

parsed_fields : (r : Record) → parsed_record (some (fields r)) ≡ some r
unfolding parsed_record fields
parsed_fields (pending w) = ground (arith, parsed_user_text w.user_id, parsed_batch_text w.batch_id)
parsed_fields (done id ts) = refl

count-fields : (r : Record) → count (fields r) ≡ 6
unfolding count fields
count-fields (pending w) = refl
count-fields (done id ts) = refl

plain_decodes : (r : Record) → decode_line (b'{' ∷ print_texts (fields r) [] ++ b'\n' ∷ []) ≡ some r
unfolding decode_line
plain_decodes r =
    rw
      (
        print_texts-append (fields r) [] (b'\n' ∷ []),
        sym (count-fields r),
        parse_texts-print (fields r) (b'\n' ∷ []),
      )
      (parsed_fields r)

pub plain-IsCodec : IsCodec plain
unfolding plain
plain-IsCodec = record {
  one_line = λ r. (refl, print_texts-IsOneLine (fields r) [] tt);
  opens = λ r. (print_texts (fields r) [], refl);
  reads_back = plain_decodes;
}
