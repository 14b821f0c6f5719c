-- ===== src/Tests/Served.antt =====
-- src/protocol.rs: a session that has a token set.
use whaletracker.Prelude.{◌≡◌, refl, List, [], ◌∷◌, false, none, some, codes, pos}
use whaletracker.Journal.File.{written}
use whaletracker.Protocol.Message.{InboundWrite, typed}
use whaletracker.Protocol.Session.{sql_batch, Handler, Meets, handle_line, new_session}
use whaletracker.Protocol.Guarded.{Locked, handle_line-Locked}
use whaletracker.Tests.Delivered.{outside, started}

abbrev pub handler : Handler
handler = record { auth_token = codes "secret"; max_inbound_writes = 8; max_sql_bytes = 1000 }

abbrev pub writes : List InboundWrite
writes =
    typed (record {
      kind = codes "online_clear_host";
      steamid = none;
      host_port = some 27015;
      user_id = none;
      event_id = some (codes "e1");
    })
    ∷ []

-- Every line is read as a batch.
abbrev pub meets : Meets
meets = record {
  parse = λ line. some (sql_batch (some (pos 4)) writes);
  made = λ k. ([], 7);
  append = written;
  early = 0;
  deadline = 100;
  wakes = record { now = 10; finished = 1 } ∷ record { now = 100; finished = 0 } ∷ [];
}

has_secret : new_session handler ≡ false
unfolding new_session
has_secret = refl

handle_line-Locked_example :
    Locked handler started
      (some (sql_batch (some (pos 4)) writes))
      (handle_line outside handler meets false started (codes "{}"))
handle_line-Locked_example =
    handle_line-Locked outside handler meets started (codes "{}") has_secret
