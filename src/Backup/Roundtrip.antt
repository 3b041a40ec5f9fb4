-- ===== src/Backup/Roundtrip.antt =====
-- A backup of src/sprinter/backup.py is restored by src/sprinter/restore.py.
use Prim.Native.Char.{Char}
use Prim.Native.String.{◌++◌}
use text.Mathlib.TextLemmas.{nil-append, cons-append}
use sprinter_oss.Prelude.{
  ◌≡◌, refl, ap, ◌∙◌, String, Bool, true, false, not, ◌&&◌, none, some, ◌∷◌, arith, ◌==◌, string_eq,
  Option-cases, Bool-cases, inl, inr, eq_refl, eq_iff, is_space, if◌then◌else◌, add_to_first, split,
  nonempty, words, chars,
}
use sprinter_oss.Engine.Evidence.Literals.{chars-append}
use sprinter_oss.Models.Table.{first}
use sprinter_oss.Backup.{
  Disk, Sqlite, Outcome, done, failed, same_file, temporary, write, chmod, is_ascii, is_intact,
  is_supported, has_revision, checksum_path, checksum_text, write_checksum, check_copy,
  backup_database, expects, expected_checksum, check_backup, place, restore_contents,
  restore_expected, restore_database, unreadable, empty_checksum,
}
use sprinter_oss.Backup.Restored.{IsPlaced, place-IsPlaced}

-- Does a text hold no white space?
abbrev is_word : String → Bool
is_word String.[] = true
is_word (String.◌∷◌ c s) = not (is_space c) && is_word s

split-word :
    (word rest : String) (c : Char)
    → is_word word ≡ true
    → is_space c ≡ true
    → split is_space (word ++ String.◌∷◌ c rest) ≡ word ∷ split is_space rest
unfolding split
split-word String.[] rest c w h =
    ap (split is_space) (nil-append (String.◌∷◌ c rest)) ∙ ground (arith, h)
split-word (String.◌∷◌ d word) rest c w h = elim (Bool-cases (is_space d)) [
  | inl e ↦ absurd (ground (arith, e, w))
  | inr e ↦
      ap (split is_space) (cons-append d word (String.◌∷◌ c rest))
      ∙ (rw e (ap (add_to_first d) (split-word word rest c (ground (arith, e, w)) h))
          ∙ unfold add_to_first in refl)
]

first-words :
    (word rest : String) (c : Char)
    → is_word word ≡ true
    → (word == "") ≡ false
    → is_space c ≡ true
    → first (words (word ++ String.◌∷◌ c rest)) ≡ some word
unfolding words nonempty
first-words word rest c w e h = rw (split-word word rest c w h, e) refl

checksum_path-other : (path : String) → (checksum_path path == path) ≡ false
checksum_path-other path = elim (Bool-cases (checksum_path path == path)) [
  | inr e ↦ e
  | inl e ↦ absurd (
      omega (arith, chars-append path ".sha256", ap chars ((eq_iff (checksum_path path) path).0 e)))
]

-- What a backup that is done leaves on the disk.
record IsBackup (sqlite : Sqlite) (contents backup : String) (disk : Disk) : Type 0 where
  intact : is_intact sqlite contents ≡ true
  ascii : is_ascii (checksum_text sqlite backup contents) ≡ true
  checksum : disk.files (checksum_path backup) ≡ some (checksum_text sqlite backup contents)
  stored : disk.files backup ≡ some contents

write_checksum-IsBackup :
    (sqlite : Sqlite) (backup contents : String) (disk : Disk)
    → is_intact sqlite contents ≡ true
    → (write_checksum sqlite backup contents (write backup contents disk)).0 ≡ done
    → IsBackup sqlite contents backup
        (write_checksum sqlite backup contents (write backup contents disk)).1
unfolding write_checksum write chmod
write_checksum-IsBackup sqlite backup contents disk i h =
    elim (Bool-cases (is_ascii (checksum_text sqlite backup contents))) [
      | inr a ↦ absurd (ground (arith, a, h))
      | inl a ↦
          rw (a, write_checksum)
            (record {
              intact = i;
              ascii = a;
              checksum = ground (arith, eq_refl (checksum_path backup));
              stored = ground (arith, eq_refl backup, checksum_path-other backup);
            })
    ]

check_copy-IsBackup :
    (sqlite : Sqlite) (backup contents : String) (disk : Disk)
    → (check_copy sqlite backup contents (write backup contents disk)).0 ≡ done
    → IsBackup sqlite contents backup
        (check_copy sqlite backup contents (write backup contents disk)).1
unfolding check_copy
check_copy-IsBackup sqlite backup contents disk h = elim (Bool-cases (is_intact sqlite contents)) [
  | inr i ↦ absurd (ground (arith, i, h))
  | inl i ↦ elim (Bool-cases (has_revision sqlite contents)) [
    | inr r ↦ absurd (ground (arith, i, r, h))
    | inl r ↦
        rw (i, check_copy, r)
          (write_checksum-IsBackup sqlite backup contents disk i (rw (i, check_copy, r) at h))
  ]
]

backup_database-IsBackup :
    (sqlite : Sqlite) (source backup : String) (disk : Disk)
    → (backup_database sqlite source backup disk).0 ≡ done
    → IsBackup sqlite (sqlite.copy source) backup (backup_database sqlite source backup disk).1
unfolding backup_database
backup_database-IsBackup sqlite source backup disk h = elim (Option-cases (disk.files backup)) [
  | inr (old, b) ↦ absurd (ground (arith, b, h))
  | inl b ↦
      rw (b, backup_database)
        (check_copy-IsBackup sqlite backup (sqlite.copy source) disk (rw (b, backup_database) at h))
]

expected_checksum-word :
    (sqlite : Sqlite) (contents backup : String) (disk : Disk)
    → IsBackup sqlite contents backup disk
    → is_word (sqlite.sha256 contents) ≡ true
    → (sqlite.sha256 contents == "") ≡ false
    → expected_checksum (checksum_path backup) disk ≡ expects (sqlite.sha256 contents)
unfolding expected_checksum
expected_checksum-word sqlite contents backup disk k w e =
    rw (k.checksum, expected_checksum, k.ascii)
      (ap
          (λ t. elim (first (words (sqlite.sha256 contents ++ t))) [
            | none ↦ unreadable empty_checksum
            | some word ↦ expects word
          ])
          (cons-append " " " " (sqlite.name backup ++ "\n"))
        ∙ ap (λ o. elim o [ none ↦ unreadable empty_checksum | some word ↦ expects word ])
            (first-words (sqlite.sha256 contents) (" " ++ (sqlite.name backup ++ "\n")) " " w e
              refl))

-- The answer of a restore whose backup passes every check: `shutil.copyfile` refuses the temporary file
-- itself.
abbrev restored_or_same : String → String → String → Disk → Outcome × Disk
restored_or_same contents backup destination disk =
    if backup == temporary destination
    then (failed same_file, disk)
    else (done, place contents destination disk)

restore_contents-done :
    (sqlite : Sqlite) (contents backup destination : String) (disk : Disk)
    → is_intact sqlite contents ≡ true
    → sqlite.revision contents ≡ some "0001_clean_v1"
    → restore_contents sqlite (sqlite.sha256 contents) contents backup destination disk
      ≡ restored_or_same contents backup destination disk
unfolding restore_contents check_backup is_supported
restore_contents-done sqlite contents backup destination disk i r =
    ground (arith, eq_refl (sqlite.sha256 contents), i, r, eq_refl "0001_clean_v1")

restore_expected_known :
    (sqlite : Sqlite) (word contents backup destination : String) (disk : Disk)
    → disk.files backup ≡ some contents
    → restore_expected sqlite word backup destination disk
      ≡ restore_contents sqlite word contents backup destination disk
unfolding restore_expected
restore_expected_known sqlite word contents backup destination disk b = rw (b, restore_expected)

restore_database_free :
    (sqlite : Sqlite) (word backup checksum destination : String) (disk : Disk)
    → disk.files destination ≡ none
    → expected_checksum checksum disk ≡ expects word
    → restore_database sqlite backup checksum destination disk
      ≡ restore_expected sqlite word backup destination disk
unfolding restore_database
restore_database_free sqlite word backup checksum destination disk d x = rw (d, restore_database, x)

restored_or_same_lem :
    (contents backup destination : String) (disk : Disk)
    → disk.files destination ≡ none
    → let restored = restored_or_same contents backup destination disk in
      (restored.0 ≡ (if backup == temporary destination then failed same_file else done))
      × (restored.1.files destination
          ≡ (if backup == temporary destination then none else some contents))
restored_or_same_lem contents backup destination disk d =
    let placed : IsPlaced contents destination disk (place contents destination disk) =
      place-IsPlaced contents destination disk in
    ground (arith, d, placed.files destination, eq_refl destination)

-- Where SHA-256 gives a text without white space that is not empty, and the copy of the source is of
-- the supported revision: a backup that is done can be restored, with the checksum that was written
-- beside it, to any path that is free, and the path then holds the copy. Only where the backup is
-- itself the temporary file of that path does the restore fail, and leaves the path free.
pub restore_database-backup_database :
    (sqlite : Sqlite) (source backup destination : String) (disk : Disk)
    → is_word (sqlite.sha256 (sqlite.copy source)) ≡ true
    → (sqlite.sha256 (sqlite.copy source) == "") ≡ false
    → sqlite.revision (sqlite.copy source) ≡ some "0001_clean_v1"
    → (backup_database sqlite source backup disk).0 ≡ done
    → (backup_database sqlite source backup disk).1.files destination ≡ none
    → let after = (backup_database sqlite source backup disk).1 in
      let restored = restore_database sqlite backup (checksum_path backup) destination after in
      (restored.0 ≡ (if backup == temporary destination then failed same_file else done))
      × (restored.1.files destination
          ≡ (if backup == temporary destination then none else some (sqlite.copy source)))
restore_database-backup_database sqlite source backup destination disk w e r h d =
    let contents : String = sqlite.copy source in
    let after : Disk = (backup_database sqlite source backup disk).1 in
    let k : IsBackup sqlite contents backup after =
      backup_database-IsBackup sqlite source backup disk h in
    let same : restore_database sqlite backup (checksum_path backup) destination after
        ≡ restored_or_same contents backup destination after =
      restore_database_free sqlite (sqlite.sha256 contents) backup (checksum_path backup)
        destination after d (expected_checksum-word sqlite contents backup after k w e)
      ∙ (restore_expected_known sqlite (sqlite.sha256 contents) contents backup destination after
            k.stored
          ∙ restore_contents-done sqlite contents backup destination after k.intact r) in
    let (answer, stored) = restored_or_same_lem contents backup destination after d in
    (
      ap (λ (x : Outcome × Disk). x.0) same ∙ answer,
      ap (λ (x : Outcome × Disk). x.1.files destination) same ∙ stored,
    )
