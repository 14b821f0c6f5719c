-- ===== src/Protocol/Client/Order.antt =====
-- src/protocol.rs, `handle_client`: a connection that never gives the token.
use whaletracker.Prelude.{
  ℕ, ◌≡◌, ◌≢◌, ap, text_eq_iff, List, [], ◌∷◌, Bool, true, false, Option, none, some, Text, inl,
  inr, Bool-cases,
}
use whaletracker.Reader.{Source}
use whaletracker.Sink.{Sink, Outside}
use whaletracker.Protocol.Frame.{Frame, read, error, line, end_of_stream, too_long, read_frame}
use whaletracker.Protocol.Session.{
  Inbound, hello, Reply, complaint, frame_too_large, Handler, Handled, new_session, has_token,
  count_parse_error,
}
use whaletracker.Protocol.Guarded.{Locked, ignores, refuses, misreads, opens, handle_line-Locked}
use whaletracker.Protocol.Client.{
  Turn, Ending, Ended, stops, last_reply, after_line, after_frame, client_loop, handle_client,
}

abbrev pub AllComplaints : List Reply → Type 0
AllComplaints [] = Unit {0}
AllComplaints (complaint b c ∷ replies) = AllComplaints replies
AllComplaints (_ ∷ replies) = ⊥

-- The sink at the end is what the other threads made of it, but for one parse error counted.
pub data OnlyOthers : List Turn → Sink → Sink → Type 0 where
  same : (ts : List Turn) (s : Sink) → OnlyOthers ts s s
  counted : (ts : List Turn) (s : Sink) → OnlyOthers ts s (count_parse_error s)
  turn :
      (t : Turn) (ts : List Turn) (s s' : Sink)
      → OnlyOthers ts (t.others s) s'
      → OnlyOthers (t ∷ ts) s s'

pub record Shut (turns : List Turn) (s : Sink) (e : Ended) : Type 0 where
  pub complaints : AllComplaints e.replies
  pub only_others : OnlyOthers turns s e.sink

abbrev pub NotHello : Handler → Option Inbound → Type 0
NotHello h parsed =
    (proto : Option ℕ) (auth : Option Text)
    → parsed ≡ some (hello proto auth)
    → auth ≢ some h.auth_token

abbrev pub OnLine : Handler → Turn → (Source → Type 0) → Frame → Type 0
OnLine h t Later (read line bytes rest) = NotHello h (t.meets.parse bytes) × Later rest
OnLine h t Later _ = Unit {0}

-- None of the lines that the rounds read from the connection is a hello with the token.
abbrev pub NoToken : Handler → ℕ → List Turn → Source → Type 0
NoToken h max_frame_bytes [] src = Unit {0}
NoToken h max_frame_bytes (t ∷ ts) src =
    OnLine h t (NoToken h max_frame_bytes ts) (read_frame max_frame_bytes src)

has_token-some :
    (h : Handler) (auth : Option Text) → has_token h auth ≡ true → auth ≡ some h.auth_token
unfolding has_token
has_token-some h none e = cc
has_token-some h (some t) e = ap some ((text_eq_iff t h.auth_token).0 e)

stops-Shut : (ts : List Turn) (s : Sink) (e : Ending) → Shut ts s (stops s e)
stops-Shut ts s e = record { complaints = tt; only_others = same ts s }

last_reply-Shut :
    (ts : List Turn) (t : Turn) (s s' : Sink) (reply : Reply)
    → AllComplaints (reply ∷ [])
    → OnlyOthers ts s s'
    → Shut ts s (last_reply t s' reply)
last_reply-Shut ts t s s' reply c o = elim (Bool-cases t.sent) [
  | inl sent ↦ rw sent (record { complaints = c; only_others = o })
  | inr lost ↦ rw lost (record { complaints = tt; only_others = o })
]

after_line-Shut :
    (h : Handler) (t : Turn) (ts : List Turn) (s : Sink) (loop : Bool → Sink → Ended)
    (parsed : Option Inbound) {x : Handled}
    → NotHello h parsed
    → Locked h s parsed x
    → ((u : Sink) → Shut ts u (loop false u))
    → Shut ts s (after_line t s loop x)
after_line-Shut h t ts s loop parsed n ignores k = k s
after_line-Shut h t ts s loop parsed n (refuses b c) k =
    last_reply-Shut ts t s s (complaint b c) tt (same ts s)
after_line-Shut h t ts s loop parsed n (misreads c e) k =
    last_reply-Shut ts t s (count_parse_error s) (complaint none c) tt (counted ts s)
after_line-Shut h t ts s loop parsed n (opens proto auth e r) k =
    absurd (n proto auth e (has_token-some h auth r))

module _ (o : Outside) (h : Handler) (max_frame_bytes : ℕ) (has_one : new_session h ≡ false) where
  after_frame-Shut :
      (t : Turn) (ts : List Turn) (s : Sink) (f : Frame)
      → OnLine h t (NoToken h max_frame_bytes ts) f
      → ((src : Source) (u : Sink)
          → NoToken h max_frame_bytes ts src
          → Shut ts u (client_loop o h max_frame_bytes ts src false u))
      → Shut ts s (after_frame o h max_frame_bytes t (client_loop o h max_frame_bytes ts) false s f)
  after_frame-Shut t ts s (error e) n k = stops-Shut ts s _
  after_frame-Shut t ts s (read end_of_stream bytes rest) n k = stops-Shut ts s _
  after_frame-Shut t ts s (read too_long bytes rest) n k =
      last_reply-Shut ts t s s (complaint none frame_too_large) tt (same ts s)
  after_frame-Shut t ts s (read line bytes rest) n k =
      after_line-Shut h t ts s (client_loop o h max_frame_bytes ts rest) (t.meets.parse bytes) n.0
        (handle_line-Locked o h t.meets s bytes has_one) (λ u. k rest u n.1)

  client_loop-Shut :
      (turns : List Turn) (src : Source) (s : Sink)
      → NoToken h max_frame_bytes turns src
      → Shut turns s (client_loop o h max_frame_bytes turns src false s)
  unfolding client_loop
  client_loop-Shut [] src s n = stops-Shut [] s _
  client_loop-Shut (t ∷ ts) src s n =
      let rest =
        after_frame-Shut t ts (t.others s) (read_frame max_frame_bytes src) n
          (λ src' u n'. client_loop-Shut ts src' u n') in
      record { complaints = rest.complaints; only_others = turn t ts s _ rest.only_others }

-- Where a token is set and none of the lines that are read from a connection is a hello with it,
-- every reply is a complaint, and the connection leaves the sink as the other threads make it, but
-- for one parse error that it may count.
pub handle_client-Shut :
    (o : Outside) (h : Handler) (max_frame_bytes : ℕ) (turns : List Turn) (src : Source) (s : Sink)
    → new_session h ≡ false
    → NoToken h max_frame_bytes turns src
    → Shut turns s (handle_client o h max_frame_bytes turns src s)
unfolding handle_client
handle_client-Shut o h max_frame_bytes turns src s has_one n =
    rw has_one (client_loop-Shut o h max_frame_bytes has_one turns src s n)
