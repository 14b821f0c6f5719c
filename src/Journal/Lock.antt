-- ===== src/Journal/Lock.antt =====
-- src/journal_lock.rs, and `Journal::open` of src/journal.rs, with what the operating system makes
-- of each call as an argument. A lock file is known by its path.
use whaletracker.Prelude.{
  List, [], ◌∷◌, ◌++◌, Bool, not, Option, none, some, ◌==◌, if◌then◌else◌, length, Text, codes, ◌≡◌,
  TextSet, contains, remove,
}
use whaletracker.Ascii.{trim}
use whaletracker.Journal.File.{Journal}

-- What `acquire` meets: whether the path is a symbolic link, the canonical form of its directory
-- (`none` where there is none), its last component, and whether the lock file can be opened.
pub record PathIo : Type 0 where
  pub is_symlink : Bool
  pub directory : Option Text
  pub file_name : Option Text
  pub lock_opens : Bool

pub data OpenError : Type 0 where
  symbolic_link no_directory no_filename no_lock_file not_owned : OpenError
  not_opened not_synced directory_not_synced : OpenError

pub data Acquired : Type 0 where
  acquired : Text → Acquired
  refused : OpenError → Acquired

-- `parent.join(lock_name)`.
unfoldable pub lock_path : Text → Text → Text
lock_path directory name = directory ++ (codes "/" ++ (name ++ codes ".lock"))

-- `try_lock`: the lock files that are held, by whichever process, are in `held`.
unfoldable pub try_lock : TextSet → Text → Acquired
unfolding contains
try_lock held path = if contains path held then refused not_owned else acquired path

unfoldable pub acquire : TextSet → PathIo → Acquired
unfolding lock_path try_lock
acquire held io = if io.is_symlink then refused symbolic_link else elim io.directory [
  | none ↦ refused no_directory
  | some directory ↦ elim io.file_name [
    | none ↦ refused no_filename
    | some name ↦
        if not io.lock_opens then refused no_lock_file else try_lock held (lock_path directory name)
  ]
]

-- What `open` meets behind the lock: the bytes of the file, which may just have been created
-- (`none` where it is not opened), and whether the two synchronisations succeed.
pub record FileIo : Type 0 where
  pub contents : Option Text
  pub file_synced : Bool
  pub directory_synced : Bool

-- A journal with its `_process_lock`.
pub record Owned : Type 0 where
  pub journal : Journal
  pub process_lock : Option Text

-- `opening` and `closed` with the lock files that are held from then on: an error that returns
-- behind `acquire` drops the lock.
pub data Opening : Type 0 where
  opening : TextSet → Owned → Opening
  failing : TextSet → OpenError → Opening

unfoldable pub release : TextSet → Option Text → TextSet
unfolding remove
release held none = held
release held (some lock) = remove lock held

unfoldable pub open_file : TextSet → Text → Text → FileIo → Opening
unfolding release
open_file held lock path io = elim io.contents [
  | none ↦ failing (release held (some lock)) not_opened
  | some contents ↦
      if not io.file_synced
      then failing (release held (some lock)) not_synced
      else if not io.directory_synced
      then failing (release held (some lock)) directory_not_synced
      else opening held (record {
        journal = record { path = some path; file = some contents };
        process_lock = some lock;
      })
]

abbrev pub journaling_off : Owned
journaling_off = record { journal = record { path = none; file = none }; process_lock = none }

unfoldable pub open_journal : TextSet → Text → PathIo → FileIo → Opening
unfolding acquire open_file
open_journal held path at io =
    if length (trim path) == 0 then opening held journaling_off else elim (acquire held at) [
      | refused e ↦ failing held e
      | acquired lock ↦ open_file (lock ∷ held) lock path io
    ]

-- All the processes of the machine: the lock files that are held and the journals that are open.
pub record Machine : Type 0 where
  pub held : TextSet
  pub journals : List Owned

unfoldable pub settle : Machine → Opening → Machine
settle m (opening held j) = record { held = held; journals = j ∷ m.journals }
settle m (failing held e) = record m { held = held }

-- One process opens a journal, or a journal is dropped, by its owner or with its process.
pub data Step (m v : Machine) : Type 0 where
  opens :
      (path : Text) (at : PathIo) (io : FileIo)
      → v ≡ settle m (open_journal m.held path at io)
      → Step m v
  drops :
      (before after : List Owned) (j : Owned)
      → m.journals ≡ before ++ j ∷ after
      → v ≡ record { held = release m.held j.process_lock; journals = before ++ after }
      → Step m v

pub data Reach : Machine → Type 0 where
  nothing_open : Reach (record { held = []; journals = [] })
  then_step : {m v : Machine} → Reach m → Step m v → Reach v
