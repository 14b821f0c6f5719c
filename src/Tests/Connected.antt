-- ===== src/Tests/Connected.antt =====
-- src/protocol.rs: a connection that has no token, and a response as a line.
use whaletracker.Prelude.{
  ℕ, ◌+◌, ◌≡◌, refl, arith, List, [], ◌∷◌, true, false, Option, none, some, Text, codes, text_eq,
  if◌then◌else◌, ltb, Bool-cases, inl, inr, subst,
}
use whaletracker.Reader.{Source, chunk, eof, bytes_of, put_back}
use whaletracker.Reader.Line.{IsOneLine}
use whaletracker.Protocol.Frame.{read_frame, read_frame_loop, strip_cr}
use whaletracker.Protocol.Session.{hello, new_session}
use whaletracker.Protocol.Client.{Turn, handle_client}
use whaletracker.Protocol.Client.Order.{Shut, NoToken, handle_client-Shut}
use whaletracker.Protocol.Client.Ends.{IsOver, handle_client-ends}
use whaletracker.Protocol.Encode.{
  encode_line, get_field, encode_fields, ok, NoLineFeeds, OneLine, encode_line-OneLine,
}
use whaletracker.Tests.Delivered.{outside, started}
use whaletracker.Tests.Served.{handler, meets}

-- The parser knows a hello with the token, and reads every other line as a batch.
abbrev turn : Turn
turn = record {
  others = λ s. s;
  meets = record meets {
    parse = λ l.
        if text_eq l (codes "HI") then some (hello none (some (codes "secret"))) else meets.parse l;
  };
  sent = true;
}

-- Two frames, in one chunk of four bytes; neither is the hello.
abbrev two_lines : Source
two_lines = chunk b'{' (b'\n' ∷ b'}' ∷ b'\n' ∷ []) eof

abbrev five_turns : List Turn
five_turns = turn ∷ turn ∷ turn ∷ turn ∷ turn ∷ []

handler_has_token : new_session handler ≡ false
unfolding new_session
handler_has_token = refl

no_hello : NoToken handler 1024 five_turns two_lines
unfolding read_frame read_frame_loop strip_cr text_eq put_back
no_hello = (λ proto auth e. cc, (λ proto auth e. cc, tt))

handle_client-Shut_example :
    Shut five_turns started (handle_client outside handler 1024 five_turns two_lines started)
handle_client-Shut_example =
    handle_client-Shut outside handler 1024 five_turns two_lines started handler_has_token no_hello

handle_client-ends_example :
    IsOver (handle_client outside handler 1024 five_turns two_lines started).ending
unfolding bytes_of
handle_client-ends_example =
    handle_client-ends outside handler 1024 five_turns two_lines started (omega arith) (omega arith)
      (refl, (refl, (refl, (refl, (refl, tt)))))

-- Values that are numbers of one digit, and keys in quotes.
abbrev digit : ℕ → Option Text
digit n = if ltb n 10 then some ((b'0' + n) ∷ []) else none

abbrev quoted : Text → Option Text
quoted k = if text_eq k (codes "type") then some (codes "\"type\"") else some (codes "\"id\"")

digit_in_range : (n : ℕ) → (ltb n 10 ≡ true) → IsOneLine ((b'0' + n) ∷ [])
digit_in_range n h = ground arith

digit-IsOneLine : (n : ℕ) {t : Text} → digit n ≡ some t → IsOneLine t
digit-IsOneLine n {t} h = elim (Bool-cases (ltb n 10)) [
  | inl small ↦
      let h' = rw small at h in
      let e : (b'0' + n) ∷ [] ≡ t = cc h' in subst IsOneLine e (digit_in_range n small)
  | inr large ↦ let h' = rw large at h in cc
]

quoted-IsOneLine : (k : Text) {t : Text} → quoted k ≡ some t → IsOneLine t
quoted-IsOneLine k {t} h = elim (Bool-cases (text_eq k (codes "type"))) [
  | inl e ↦
      let h' = rw e at h in
      let e' : codes "\"type\"" ≡ t = cc h' in
      subst IsOneLine e' (refl, (refl, (refl, (refl, (refl, (refl, tt))))))
  | inr e ↦
      let h' = rw e at h in
      let e' : codes "\"id\"" ≡ t = cc h' in subst IsOneLine e' (refl, (refl, (refl, (refl, tt))))
]

no_line_feeds : NoLineFeeds digit quoted
no_line_feeds = record { in_values = digit-IsOneLine; in_keys = quoted-IsOneLine }

abbrev response : Option (List (Text × ℕ))
response = some ((codes "id", 7) ∷ (codes "type", 2) ∷ [])

-- The type goes first.
encoded : encode_line digit quoted response ≡ ok (codes "{\"type\":2,\"id\":7}\n")
unfolding encode_line get_field encode_fields text_eq
encoded = refl

encode_line-OneLine_example : OneLine (encode_line digit quoted response)
encode_line-OneLine_example = encode_line-OneLine digit quoted response no_line_feeds
