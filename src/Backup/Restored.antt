-- ===== src/Backup/Restored.antt =====
-- What `restore_database` of src/sprinter/restore.py does to the disk.
use sprinter_oss.Prelude.{
  ◌≡◌, ◌⊎◌, refl, ap, ◌∙◌, String, true, ◌||◌, none, some, arith, ◌==◌, string_eq, if◌then◌else◌,
  Option-cases, Bool-cases, inl, inr, eq_refl, eq_iff,
}
use sprinter_oss.Backup.{
  Disk, Sqlite, Failure, Outcome, done, failed, already_exists, private_mode, write, chmod, move,
  is_intact, is_supported, expected_checksum, check_backup, temporary, place, restore_contents,
  restore_expected, restore_database, Expected, expects, unreadable, missing, same_file,
}

-- A backup that passes every check.
pub record IsSound (sqlite : Sqlite) (checksum contents : String) (disk : Disk) : Type 0 where
  pub expected : expected_checksum checksum disk ≡ expects (sqlite.sha256 contents)
  pub intact : sqlite.integrity contents ≡ some "ok"
  pub supported : sqlite.revision contents ≡ some "0001_clean_v1"

-- What a successful restore leaves: the backup at the destination, for its owner only, no temporary
-- file, and every other path as it was.
pub record IsPlaced (contents destination : String) (disk disk' : Disk) : Type 0 where
  pub files :
      (p : String)
      → disk'.files p ≡ (
          if destination == p
          then some contents
          else if temporary destination == p
          then none
          else disk.files p)
  pub mode : disk'.modes destination ≡ private_mode
  pub modes :
      (p : String)
      → disk'.modes p
        ≡ (if destination == p || temporary destination == p then private_mode else disk.modes p)

is_intact-ok :
    (sqlite : Sqlite) (contents : String)
    → is_intact sqlite contents ≡ true
    → sqlite.integrity contents ≡ some "ok"
unfolding is_intact
is_intact-ok sqlite contents h = elim (Option-cases (sqlite.integrity contents)) [
  | inl n ↦ absurd (ground (arith, n, h))
  | inr (r, n) ↦ ground (arith, n, h, eq_iff r "ok")
]

is_supported-ok :
    (sqlite : Sqlite) (contents : String)
    → is_supported sqlite contents ≡ true
    → sqlite.revision contents ≡ some "0001_clean_v1"
unfolding is_supported
is_supported-ok sqlite contents h = elim (Option-cases (sqlite.revision contents)) [
  | inl n ↦ absurd (ground (arith, n, h))
  | inr (r, n) ↦ ground (arith, n, h, eq_iff r "0001_clean_v1")
]

check_backup_sound :
    (sqlite : Sqlite) (expected contents : String)
    → check_backup sqlite expected contents ≡ none
    → (expected ≡ sqlite.sha256 contents)
      × (sqlite.integrity contents ≡ some "ok")
      × (sqlite.revision contents ≡ some "0001_clean_v1")
unfolding check_backup
check_backup_sound sqlite expected contents h =
    elim (Bool-cases (expected == sqlite.sha256 contents)) [
      | inr c ↦ absurd (ground (arith, c, h))
      | inl c ↦ elim (Bool-cases (is_intact sqlite contents)) [
        | inr i ↦ absurd (ground (arith, c, i, h))
        | inl i ↦ elim (Bool-cases (is_supported sqlite contents)) [
          | inr s ↦ absurd (ground (arith, c, i, s, h))
          | inl s ↦ (
            (eq_iff expected (sqlite.sha256 contents)).0 c,
            is_intact-ok sqlite contents i,
            is_supported-ok sqlite contents s,
          )
        ]
      ]
    ]

pub place-IsPlaced :
    (contents destination : String) (disk : Disk)
    → IsPlaced contents destination disk (place contents destination disk)
unfolding place write chmod move
place-IsPlaced contents destination disk = record {
  files = λ p. ground (arith, eq_refl (temporary destination));
  mode = ground (arith, eq_refl destination, eq_refl (temporary destination));
  modes = λ p. ground (arith, eq_refl (temporary destination));
}

Expected-cases :
    (x : Expected) → ((f : Failure) × (x ≡ unreadable f)) ⊎ ((w : String) × (x ≡ expects w))
Expected-cases (unreadable f) = inl (f, refl)
Expected-cases (expects w) = inr (w, refl)

-- What a restore may do: fail and leave the disk as it was, or succeed as described.
pub data Restores (sqlite : Sqlite) (backup checksum destination : String) (disk : Disk)
    : Outcome × Disk → Type 0 where
  refuses : (f : Failure) → Restores sqlite backup checksum destination disk (failed f, disk)
  restores :
      (contents : String) (disk' : Disk)
      → disk.files destination ≡ none
      → disk.files backup ≡ some contents
      → IsSound sqlite checksum contents disk
      → IsPlaced contents destination disk disk'
      → Restores sqlite backup checksum destination disk (done, disk')

module _ (sqlite : Sqlite) (backup checksum destination : String) (disk : Disk) where
  restore_contents-Restores :
      (word contents : String)
      → disk.files destination ≡ none
      → disk.files backup ≡ some contents
      → expected_checksum checksum disk ≡ expects word
      → Restores sqlite backup checksum destination disk
          (restore_contents sqlite word contents backup destination disk)
  unfolding restore_contents
  restore_contents-Restores word contents d b x =
      elim (Option-cases (check_backup sqlite word contents)) [
        | inr (f, c) ↦ rw (c, restore_contents) (refuses f)
        | inl c ↦
            let (same, intact, supported) = check_backup_sound sqlite word contents c in
            elim (Bool-cases (backup == temporary destination)) [
              | inl t ↦ rw (c, restore_contents, t) (refuses same_file)
              | inr t ↦
                  rw (c, restore_contents, t)
                    (restores contents _ d b
                      (record {
                        expected = x ∙ ap expects same;
                        intact = intact;
                        supported = supported;
                      })
                      (place-IsPlaced contents destination disk))
            ]
      ]

  restore_expected-Restores :
      (word : String)
      → disk.files destination ≡ none
      → expected_checksum checksum disk ≡ expects word
      → Restores sqlite backup checksum destination disk
          (restore_expected sqlite word backup destination disk)
  unfolding restore_expected
  restore_expected-Restores word d x = elim (Option-cases (disk.files backup)) [
    | inl b ↦ rw (b, restore_expected) (refuses missing)
    | inr (contents, b) ↦ rw (b, restore_expected) (restore_contents-Restores word contents d b x)
  ]

  -- A restore either fails and leaves the disk as it was, or the destination was free and now holds
  -- the backup, for its owner only, and every other path is as it was, but that a temporary file is gone; the backup is
  -- then of the expected checksum, intact and of the supported revision.
  pub restore_database-Restores :
      Restores sqlite backup checksum destination disk
        (restore_database sqlite backup checksum destination disk)
  unfolding restore_database
  restore_database-Restores = elim (Option-cases (disk.files destination)) [
    | inr (old, d) ↦ rw (d, restore_database) (refuses already_exists)
    | inl d ↦ elim (Expected-cases (expected_checksum checksum disk)) [
      | inl (f, x) ↦ rw (d, restore_database, x) (refuses f)
      | inr (word, x) ↦ rw (d, restore_database, x) (restore_expected-Restores word d x)
    ]
  ]
