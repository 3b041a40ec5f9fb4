-- ===== src/Backup.antt =====
-- src/sprinter/backup.py and src/sprinter/restore.py: an online backup with its checksum, and the
-- restore of one.
--
-- The disk gives each path its contents and its mode. What SQLite does and finds is an argument: the
-- contents of a copy, the answer of `pragma integrity_check` and the revision of Alembic; so are
-- SHA-256 and the name of a path. `none` is an answer without a row. Errors that SQLite raises, and those of the file system in the
-- middle of a write, are left out.
pub mod Restored
pub mod Roundtrip
use Prim.Native.Char.{Char, code}
use Prim.Native.String.{◌++◌ as ◌⧺◌}
use sprinter_oss.Prelude.{
  ℕ, String, Bool, true, false, not, ◌&&◌, ◌||◌, Option, none, some, List, [], ◌∷◌, ◌==◌, string_eq,
  ltb, if◌then◌else◌, words,
}
use sprinter_oss.Models.Table.{first}

pub record Disk : Type 0 where
  pub files : String → Option String
  pub modes : String → ℕ

pub record Sqlite : Type 0 where
  pub copy : String → String
  pub integrity : String → Option String
  pub revision : String → Option String
  pub sha256 : String → String
  pub name : String → String

-- The exceptions, each by what it tells.
pub data Failure : Type 0 where
  already_exists missing not_ascii empty_checksum wrong_checksum not_intact wrong_revision
        same_file :
      Failure

pub data Outcome : Type 0 where
  done : Outcome
  failed : Failure → Outcome

abbrev pub private_mode : ℕ
private_mode = 384

-- The contents of a path are written.
unfoldable pub write : String → String → Disk → Disk
write path contents disk = record disk {
  files = λ p. if path == p then some contents else disk.files p;
}

unfoldable pub chmod : String → ℕ → Disk → Disk
chmod path mode disk = record disk { modes = λ p. if path == p then mode else disk.modes p }

-- `source.replace(target)`.
unfoldable pub move : String → String → Disk → Disk
move source target disk = record {
  files =
      λ p. if target == p then disk.files source else if source == p then none else disk.files p;
  modes = λ p. if target == p then disk.modes source else disk.modes p;
}

-- Does a text hold characters of ASCII only?
unfoldable pub is_ascii : String → Bool
is_ascii String.[] = true
is_ascii (String.◌∷◌ c s) = ltb (code c) 128 && is_ascii s

-- `result and result[0] == "ok"`.
unfoldable pub is_intact : Sqlite → String → Bool
is_intact sqlite contents = elim (sqlite.integrity contents) [ none ↦ false | some r ↦ r == "ok" ]

-- Has the database a row of `alembic_version`?
unfoldable pub has_revision : Sqlite → String → Bool
has_revision sqlite contents = elim (sqlite.revision contents) [ none ↦ false | some r ↦ true ]

abbrev pub checksum_path : String → String
checksum_path destination = destination ⧺ ".sha256"

abbrev pub checksum_text : Sqlite → String → String → String
checksum_text sqlite destination contents =
    sqlite.sha256 contents ⧺ ("  " ⧺ (sqlite.name destination ⧺ "\n"))

-- The checksum beside a backup that is in order.
unfoldable pub write_checksum : Sqlite → String → String → Disk → Outcome × Disk
unfolding write chmod is_ascii
write_checksum sqlite destination contents disk =
    let secured : Disk = chmod destination private_mode disk in
    if is_ascii (checksum_text sqlite destination contents)
    then (
      done,
      chmod (checksum_path destination) private_mode
          (write (checksum_path destination) (checksum_text sqlite destination contents) secured),
    )
    else (failed not_ascii, write (checksum_path destination) "" secured)

-- The checks of the copy, which stays where it is if it fails one.
unfoldable pub check_copy : Sqlite → String → String → Disk → Outcome × Disk
unfolding is_intact has_revision write_checksum
check_copy sqlite destination contents disk =
    if not (is_intact sqlite contents)
    then (failed not_intact, disk)
    else if not (has_revision sqlite contents)
    then (failed wrong_revision, disk)
    else write_checksum sqlite destination contents disk

-- `backup_database`, of a source with the given contents.
unfoldable pub backup_database : Sqlite → String → String → Disk → Outcome × Disk
unfolding check_copy write
backup_database sqlite source destination disk = elim (disk.files destination) [
  | some old ↦ (failed already_exists, disk)
  | none ↦
      check_copy sqlite destination (sqlite.copy source)
        (write destination (sqlite.copy source) disk)
]

-- The word that a checksum holds, or the exception that reading it raises.
pub data Expected : Type 0 where
  expects : String → Expected
  unreadable : Failure → Expected

-- `checksum.read_text(encoding="ascii").split()[0]`.
unfoldable pub expected_checksum : String → Disk → Expected
unfolding words is_ascii
expected_checksum checksum disk = elim (disk.files checksum) [
  | none ↦ unreadable missing
  | some text ↦
      if is_ascii text
      then elim (first (words text)) [ none ↦ unreadable empty_checksum | some word ↦ expects word ]
      else unreadable not_ascii
]

-- `revision and revision[0] == "0001_clean_v1"`.
unfoldable pub is_supported : Sqlite → String → Bool
is_supported sqlite contents = elim (sqlite.revision contents) [
  | none ↦ false
  | some r ↦ r == "0001_clean_v1"
]

-- The checks of a backup, in their order: the failure, if there is one.
unfoldable pub check_backup : Sqlite → String → String → Option Failure
unfolding is_intact is_supported
check_backup sqlite expected contents =
    if not (expected == sqlite.sha256 contents)
    then some wrong_checksum
    else if not (is_intact sqlite contents)
    then some not_intact
    else if not (is_supported sqlite contents)
    then some wrong_revision
    else none

abbrev pub temporary : String → String
temporary destination = destination ⧺ ".restoring"

-- The copy, by way of a temporary file.
unfoldable pub place : String → String → Disk → Disk
unfolding write chmod move
place contents destination disk =
    move (temporary destination) destination
      (chmod (temporary destination) private_mode (write (temporary destination) contents disk))

-- The restore of a backup that can be read. `shutil.copyfile` raises SameFileError where the backup
-- is the temporary file itself.
unfoldable pub restore_contents : Sqlite → String → String → String → String → Disk → Outcome × Disk
unfolding check_backup place
restore_contents sqlite expected contents backup destination disk =
    elim (check_backup sqlite expected contents) [
      | some f ↦ (failed f, disk)
      | none ↦
          if backup == temporary destination
          then (failed same_file, disk)
          else (done, place contents destination disk)
    ]

unfoldable pub restore_expected : Sqlite → String → String → String → Disk → Outcome × Disk
unfolding restore_contents
restore_expected sqlite expected backup destination disk = elim (disk.files backup) [
  | none ↦ (failed missing, disk)
  | some contents ↦ restore_contents sqlite expected contents backup destination disk
]

-- `restore_database`.
unfoldable pub restore_database : Sqlite → String → String → String → Disk → Outcome × Disk
unfolding expected_checksum restore_expected
restore_database sqlite backup checksum destination disk = elim (disk.files destination) [
  | some old ↦ (failed already_exists, disk)
  | none ↦ elim (expected_checksum checksum disk) [
    | unreadable f ↦ (failed f, disk)
    | expects word ↦ restore_expected sqlite word backup destination disk
  ]
]
