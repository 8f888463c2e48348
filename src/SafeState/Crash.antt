-- ===== src/SafeState/Crash.antt =====
-- What a reader finds when a write stops half way.
use trading_hub.Base.{
  String, ◌≡◌, refl, ◌⊎◌, Option, none, some, List, [], ◌∷◌, ◌++◌, nat_eq, string_eq, pair_eq, true,
}
use trading_hub.SafeState.Disk.{
  complete, stopped, Copy, Disk, Document, rotate_prev, rotate_main, rotate_backups, read_document,
  copy_over, Outcome, commit,
}

-- Every disk that a write of `raw` passes through, the finished one last. A copy or a write that is cut
-- off leaves the text `torn` in the file.
abbrev pub torn_tmp : String → Disk → Disk
torn_tmp torn d = record d { tmp = some torn }

abbrev pub passed_rotation : String → String → Disk → List Disk
passed_rotation torn raw d =
    let with_tmp : Disk = record d { tmp = some raw } in
    let half_prev2 : Disk = record with_tmp { prev2 = copy_over d.prev d.prev2 } in
    let rotated = rotate_prev with_tmp in
    let half_prev : Disk = record rotated { prev = copy_over d.main rotated.prev } in
    record with_tmp { prev2 = some torn }
    ∷ half_prev2
    ∷ record half_prev2 { prev2_sum = some torn }
    ∷ rotated
    ∷ record rotated { prev = some torn }
    ∷ half_prev
    ∷ record half_prev { prev_sum = some torn }
    ∷ rotate_main rotated
    ∷ []

abbrev final : Disk → List Disk → Disk
final d [] = d
final d (x ∷ xs) = final x xs

module _ (hash : String → String) (serialize : Document → String)
    (parse : String → Option Document) where
  abbrev pub passed : String → String → Disk → List Disk
  passed torn raw d =
      let rotated = rotate_backups complete (record d { tmp = some raw }) in
      let replaced : Disk = record rotated { main = some raw; tmp = none } in
      (d ∷ torn_tmp torn d ∷ record d { tmp = some raw } ∷ passed_rotation torn raw d)
      ++ (replaced
          ∷ record replaced { main_sum = some torn }
          ∷ record replaced { main_sum = some (hash raw) }
          ∷ [])

  -- The disk after the last step is the one that `commit` leaves.
  passed-commit :
      (torn raw : String) (o : Outcome) (d : Disk)
      → o.sum_ok ≡ true
      → final d (passed torn raw d)
        ≡ commit hash serialize parse o raw (rotate_backups complete (record d { tmp = some raw }))
  unfolding commit
  passed-commit torn raw o d ok = rw ok refl

  -- The disk when an error has stopped the rotation, and when the write is then finished.
  abbrev pub passed_stopped : Copy → Option String → String → Disk → List Disk
  passed_stopped n part raw d =
      let rotated = rotate_backups (stopped n part) (record d { tmp = some raw }) in
      rotated ∷ record rotated { main = some raw; main_sum = some (hash raw); tmp = none } ∷ []

  abbrev pub IsOldOrNew : Document → Document → Disk → Type 0
  IsOldOrNew old new d =
      (read_document hash serialize parse d ≡ some old)
      ⊎ (read_document hash serialize parse d ≡ some new)
