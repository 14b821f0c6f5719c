-- ===== src/Tests/Framed.antt =====
-- src/protocol.rs on a small stream and a typed write.
use whaletracker.Prelude.{
  false, none, some, codes, text_eq, refl, ◌≡◌, [], ◌∷◌, arith, Text, leb, ◌*◌,
}
use whaletracker.Protocol.Message.{
  InboundWrite, TypedWrite, RawWrite, typed, raw_is, stored, raw_write, positive, typed_sql,
  decimal, decimal_loop, check_write, id_of, is_bad_id, materialize,
}
use whaletracker.Ascii.{is_ascii_control}
use whaletracker.Journal.{StoredWrite, bad_id}
use whaletracker.Protocol.Materialized.{Checks, Shaped, materialize-Checks}
use whaletracker.Protocol.Placed.{materialize-placed}
use whaletracker.Sql.Lane.{online}
use whaletracker.Sql.LogRate.{RateTest}
use whaletracker.Sql.Classify.{classified, validate_and_classify}
use whaletracker.Reader.{Source, eof, chunk, bytes_of, ending}
use whaletracker.Protocol.Frame.{read_frame}
use whaletracker.Protocol.Frame.Chunks.{view, frame_of, read_frame-frame_of}

abbrev two_chunks : Source
two_chunks = chunk b'o' (b'k' ∷ []) (chunk b'\r' (b'\n' ∷ b'x' ∷ []) eof)

read_frame-frame_of_example :
    view (read_frame 16 two_chunks) ≡ frame_of 16 [] (bytes_of two_chunks) (ending two_chunks)
read_frame-frame_of_example = read_frame-frame_of two_chunks 16 (omega arith)

abbrev clear_host : TypedWrite
clear_host = record {
  kind = codes "online_clear_host";
  steamid = none;
  host_port = some 27015;
  user_id = none;
  event_id = some (codes "e1");
}

abbrev removal : InboundWrite
removal = typed clear_host

abbrev clearing : Text
clearing = codes "DELETE FROM whaletracker_online WHERE host_port = 27015"

abbrev accepted_write : StoredWrite
accepted_write = record {
  event_id = codes "e1";
  sql = clearing;
  user_id = none;
  batch_id = none;
  ts_ms = 7;
}

is_stored : materialize removal none 1000 [] 7 ≡ stored accepted_write
unfolding materialize raw_write positive typed_sql text_eq decimal decimal_loop check_write id_of
    is_bad_id bad_id is_ascii_control
is_stored = refl

materialize-Checks_example :
    (r : RawWrite) × (raw_write removal ≡ raw_is r)
    × Checks r none 1000 7 accepted_write
    × ((t : TypedWrite) → removal ≡ typed t → Shaped accepted_write.sql)
materialize-Checks_example = materialize-Checks removal none 1000 [] 7 accepted_write is_stored

abbrev plausible : RateTest
plausible damage playtime = leb damage (500 * playtime)

materialize-placed_example :
    validate_and_classify plausible clearing
    ≡ classified (record { lane = online; invalidates_points = false })
materialize-placed_example =
    materialize-placed plausible clear_host none 1000 [] 7 accepted_write is_stored
