-- ===== src/Reader.antt =====
-- `BufRead`, as src/journal.rs and src/protocol.rs use it: what `fill_buf` hands out, chunk by
-- chunk, up to the end of the stream or an I/O error. A chunk that is handed out has a byte.
pub mod Line
use whaletracker.Prelude.{ℕ, List, [], ◌∷◌, ◌++◌, ◌≡◌, refl, Text}

pub data Source : Type 0 where
  eof failed : Source
  chunk : ℕ → Text → Source → Source

-- `consume` leaves the unread part of the chunk in front.
unfoldable pub put_back : Text → Source → Source
put_back [] rest = rest
put_back (b ∷ bs) rest = chunk b bs rest

-- All the bytes that the stream still yields, and how it ends.
unfoldable pub bytes_of : Source → Text
bytes_of eof = []
bytes_of failed = []
bytes_of (chunk b bs rest) = b ∷ (bs ++ bytes_of rest)

pub data Ending : Type 0 where
  ends fails : Ending

unfoldable pub ending : Source → Ending
ending eof = ends
ending failed = fails
ending (chunk b bs rest) = ending rest

pub bytes_of-put_back :
    (bs : Text) (rest : Source) → bytes_of (put_back bs rest) ≡ bs ++ bytes_of rest
unfolding put_back bytes_of
bytes_of-put_back [] rest = refl
bytes_of-put_back (b ∷ bs) rest = refl

pub ending-put_back : (bs : Text) (rest : Source) → ending (put_back bs rest) ≡ ending rest
unfolding put_back ending
ending-put_back [] rest = refl
ending-put_back (b ∷ bs) rest = refl
