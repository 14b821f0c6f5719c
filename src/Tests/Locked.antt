-- ===== src/Tests/Locked.antt =====
-- src/journal_lock.rs: a second opening of a journal that is owned, and one of another journal.
use whaletracker.Prelude.{[], ◌∷◌, true, false, some, codes, refl, Text, contains, text_eq, remove}
use whaletracker.Ascii.{trim, trim_start, trim_reversed, white1, white2, white3}
use whaletracker.Journal.Lock.{
  PathIo, FileIo, Owned, Machine, Reach, nothing_open, then_step, opens, acquire, lock_path,
  try_lock, open_file, open_journal, settle, release,
}
use whaletracker.Journal.Exclusive.{IsExclusive, Reach-IsExclusive}

abbrev at : Text → PathIo
at name = record {
  is_symlink = false;
  directory = some (codes "/var/lib");
  file_name = some name;
  lock_opens = true;
}

abbrev empty_file : FileIo
empty_file = record { contents = some []; file_synced = true; directory_synced = true }

abbrev unsynced_file : FileIo
unsynced_file = record { contents = some []; file_synced = true; directory_synced = false }

abbrev owned : Text → Text → Owned
owned path lock = record {
  journal = record { path = some path; file = some [] };
  process_lock = some lock;
}

abbrev two_open : Machine
two_open = record {
  held = codes "/var/lib/b.lock" ∷ codes "/var/lib/a.lock" ∷ [];
  journals =
      owned (codes "b") (codes "/var/lib/b.lock")
      ∷ owned (codes "./a") (codes "/var/lib/a.lock")
      ∷ [];
}

-- `a` under two spellings, where the second is refused, and `b`, where the first try fails late.
two_open-Reach : Reach two_open
unfolding settle open_journal open_file acquire try_lock lock_path release contains remove text_eq
    trim trim_start trim_reversed white1 white2 white3
two_open-Reach =
    then_step
      (then_step
        (then_step (then_step nothing_open (opens (codes "./a") (at (codes "a")) empty_file refl))
          (opens (codes "/var/lib/a") (at (codes "a")) empty_file refl))
        (opens (codes "b") (at (codes "b")) unsynced_file refl))
      (opens (codes "b") (at (codes "b")) empty_file refl)

Reach-IsExclusive_example : IsExclusive two_open.held two_open.journals
Reach-IsExclusive_example = Reach-IsExclusive two_open two_open-Reach
