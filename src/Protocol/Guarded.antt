-- ===== src/Protocol/Guarded.antt =====
-- src/protocol.rs, `handle_client`: who may write, and what an acknowledgement means.
use whaletracker.Prelude.{
  ℕ, ◌≡◌, inl, inr, refl, List, true, false, Option, none, some, all, Text, ℤ, Bool-cases,
}
use whaletracker.Ascii.{is_ascii_whitespace}
use whaletracker.Sink.{Sink, Outside}
use whaletracker.Sink.Publish.{Classed}
use whaletracker.Sink.Enqueued.{Enqueued}
use whaletracker.Sink.Publish
use whaletracker.Protocol.Session.{
  Inbound, hello, sql_batch, health, Complaint, unauthorized, unsupported_version, hello_required,
  invalid_json, hello_ack, ack, complaint, Handler, Meets, Handled, answers, silent, closes,
  count_parse_error, handle_batch, has_token, bad_version, handle_hello, handle_health,
  handle_message, handle_line, new_session,
}

-- An acknowledgement in the sink `t`, where the batch arrived in `s`: the jobs that it counts are
-- queued at the ends of their lanes, and they count on the completion that the handler waits on.
pub record Acked (s : Sink) (b : Option ℤ) (t : Sink) (b' : Option ℤ) (n executed : ℕ)
    : Type 0 where
  pub batch : List Classed
  pub index : ℕ
  pub enqueued : Enqueued s t batch n index
  pub all_executed : executed ≡ n
  pub same_batch : b' ≡ b

-- What an acknowledgement can say.
abbrev pub AllDone : Sink → Option ℤ → Handled → Type 0
AllDone s b (answers a t (ack b' n executed)) = Acked s b t b' n executed
AllDone s b _ = Unit {0}

-- What a session that is not authenticated can do with a line: nothing, close with a complaint, or
-- accept a hello that has the token. The sink is as before, but for the counter of parse errors.
pub data Locked (h : Handler) (s : Sink) (parsed : Option Inbound) : Handled → Type 0 where
  ignores : Locked h s parsed (silent false s)
  refuses : (b : Option ℤ) (c : Complaint) → Locked h s parsed (closes s (complaint b c))
  misreads :
      (c : Complaint)
      → parsed ≡ none
      → Locked h s parsed (closes (count_parse_error s) (complaint none c))
  opens :
      (proto : Option ℕ) (auth : Option Text)
      → parsed ≡ some (hello proto auth)
      → has_token h auth ≡ true
      → Locked h s parsed (answers true s hello_ack)

hello-Locked :
    (h : Handler) (s : Sink) (proto : Option ℕ) (auth : Option Text)
    → new_session h ≡ false
    → Locked h s (some (hello proto auth)) (handle_hello h s proto auth)
unfolding handle_hello new_session
hello-Locked h s proto auth closed = elim (Bool-cases (has_token h auth)) [
  | inr wrong ↦ rw (closed, wrong) (refuses none unauthorized)
  | inl right ↦
      rw (closed, right)
        (elim (Bool-cases (bad_version proto)) [
          | inl old ↦ rw old (refuses none unsupported_version)
          | inr good ↦ rw good (opens proto auth refl right)
        ])
]

message-Locked :
    (o : Outside) (h : Handler) (m : Meets) (s : Sink) (message : Inbound)
    → new_session h ≡ false
    → Locked h s (some message) (handle_message o h m false s message)
unfolding handle_message handle_batch handle_health
message-Locked o h m s (hello proto auth) closed = hello-Locked h s proto auth closed
message-Locked o h m s (sql_batch b writes) closed = refuses b hello_required
message-Locked o h m s health closed = refuses none hello_required

parsed-Locked :
    (o : Outside) (h : Handler) (m : Meets) (s : Sink) (parsed : Option Inbound)
    → new_session h ≡ false
    → Locked h s parsed (elim parsed [
      | none ↦ closes (count_parse_error s) (complaint none invalid_json)
      | some message ↦ handle_message o h m false s message
    ])
parsed-Locked o h m s none closed = misreads invalid_json refl
parsed-Locked o h m s (some message) closed = message-Locked o h m s message closed

-- Where a token is set, a session that is not authenticated writes nothing: on every line it keeps
-- silent, closes with a complaint, or accepts a hello that has the token; the sink stays as it is,
-- but for the counter of parse errors on a line that does not parse.
pub handle_line-Locked :
    (o : Outside) (h : Handler) (m : Meets) (s : Sink) (line : Text)
    → new_session h ≡ false
    → Locked h s (m.parse line) (handle_line o h m false s line)
unfolding handle_line
handle_line-Locked o h m s line closed = elim (Bool-cases (all is_ascii_whitespace line)) [
  | inl blank ↦ rw blank ignores
  | inr text ↦ rw text (parsed-Locked o h m s (m.parse line) closed)
]
