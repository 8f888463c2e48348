-- ===== src/SafeState/Disk.antt =====
-- `class SafeStateFile` of lifecycle/safe_state.py over an explicit disk. JSON and SHA-256 are
-- parameters: a serializer, a parser and a hash. The lock makes each call atomic among the processes.
use trading_hub.Base.{
  ℕ, ◌+◌, String, Bool, true, false, not, Option, none, some, ltb, leb, if◌then◌else◌, is_some,
  ◌==◌, nat_eq, string_eq, pair_eq,
}

-- The JSON document: the three metadata fields that a write injects, and the rest as one text, with
-- its keys sorted.
pub record Document : Type 0 where
  pub version : ℕ
  pub timestamp : ℕ
  pub date : ℕ
  pub content : String

-- The files beside the state file: `.sha256`, `.prev`, `.prev2`, their checksums, and `.tmp`.
pub record Disk : Type 0 where
  pub main : Option String
  pub main_sum : Option String
  pub prev : Option String
  pub prev_sum : Option String
  pub prev2 : Option String
  pub prev2_sum : Option String
  pub tmp : Option String

-- What a process keeps between calls.
pub record Handle : Type 0 where
  pub last_hash : String
  pub last_read_version : ℕ
  pub max_age : ℕ

-- A rotation goes through, or an OSError stops it at one of its four copies. The copy that fails may
-- leave a part of the text in its place.
pub data Copy : Type 0 where
  prev_copy prev_sum_copy main_copy main_sum_copy : Copy

pub data Rotation : Type 0 where
  complete : Rotation
  stopped : Copy → Option String → Rotation

-- What the system answers during a write.
pub record Outcome : Type 0 where
  pub today : ℕ
  pub now : ℕ
  pub space_ok : Bool
  pub tmp_ok : Bool
  pub rotation : Rotation
  pub replace_ok : Bool
  pub sum_ok : Bool

-- `shutil.copy2`, where the source is there.
abbrev pub copy_over : Option String → Option String → Option String
copy_over none old = old
copy_over (some t) old = some t

-- The copies of `_rotate_backups`: a checksum is only copied beside its file.
abbrev pub copy_prev : Disk → Disk
copy_prev d = if is_some d.prev then record d { prev2 = d.prev } else d

abbrev pub copy_prev_sum : Disk → Disk
copy_prev_sum d =
    if is_some d.prev then record d { prev2_sum = copy_over d.prev_sum d.prev2_sum } else d

abbrev pub copy_main : Disk → Disk
copy_main d = if is_some d.main then record d { prev = d.main } else d

abbrev pub copy_main_sum : Disk → Disk
copy_main_sum d =
    if is_some d.main then record d { prev_sum = copy_over d.main_sum d.prev_sum } else d

unfoldable pub rotate_prev : Disk → Disk
rotate_prev d = copy_prev_sum (copy_prev d)

unfoldable pub rotate_main : Disk → Disk
rotate_main d = copy_main_sum (copy_main d)

-- The copies before the one that fails.
unfoldable pub copies : Copy → Disk → Disk
unfolding rotate_prev
copies prev_copy d = d
copies prev_sum_copy d = copy_prev d
copies main_copy d = rotate_prev d
copies main_sum_copy d = copy_main (rotate_prev d)

unfoldable pub tear_at : Copy → String → Disk → Disk
tear_at prev_copy t d = record d { prev2 = some t }
tear_at prev_sum_copy t d = record d { prev2_sum = some t }
tear_at main_copy t d = record d { prev = some t }
tear_at main_sum_copy t d = record d { prev_sum = some t }

-- The place of the copy that failed.
unfoldable pub tear : Copy → Option String → Disk → Disk
unfolding tear_at
tear c none d = d
tear c (some t) d = tear_at c t d

-- The error is swallowed, so the write goes on either way.
unfoldable pub rotate_backups : Rotation → Disk → Disk
unfolding rotate_prev rotate_main copies tear
rotate_backups complete d = rotate_main (rotate_prev d)
rotate_backups (stopped n torn) d = tear n torn (copies n d)

module _ (hash : String → String) (serialize : Document → String)
    (parse : String → Option Document) where
  -- A file counts as corrupt where a checksum stands beside it and differs.
  abbrev pub read_and_validate : Option String → Option String → Option Document
  read_and_validate none sum = none
  read_and_validate (some raw) none = parse raw
  read_and_validate (some raw) (some expected) = if hash raw == expected then parse raw else none

  abbrev pub or_else : Option Document → Option Document → Option Document
  or_else none b = b
  or_else (some a) b = some a

  -- The primary, then the two backups.
  unfoldable pub read_document : Disk → Option Document
  read_document d =
      or_else (read_and_validate d.main d.main_sum)
        (or_else (read_and_validate d.prev d.prev_sum) (read_and_validate d.prev2 d.prev2_sum))

  -- The document, whether it is fresh, and the handle, which remembers the highest version read.
  unfoldable pub read : ℕ → Handle → Disk → (Option Document × Bool) × Handle
  unfolding read_document
  read now h d = elim (read_document d) [
    | none ↦ ((none, false), h)
    | some doc ↦
        let fresh = ltb now (doc.timestamp + h.max_age) in
        let seen =
          if ltb doc.version h.last_read_version then h.last_read_version else doc.version in
        ((some doc, fresh), record h { last_read_version = seen })
  ]

  -- `read_if_changed`
  unfoldable pub read_if_changed : ℕ → ℕ → Handle → Disk → (Option Document × Bool × ℕ) × Handle
  unfolding read
  read_if_changed now last_version h d =
      let (r, h') = read now h d in
      elim r.0 [
        | none ↦ ((none, false, last_version), h')
        | some doc ↦
            if leb doc.version last_version
            then ((none, r.1, last_version), h')
            else ((some doc, r.1, doc.version), h')
      ]

  abbrev pub version_of : Option String → ℕ
  version_of none = 0
  version_of (some raw) = elim (parse raw) [ none ↦ 0 | some doc ↦ doc.version ]

  abbrev pub stamped : Outcome → String → Disk → Document
  stamped o content d = record {
    version = version_of d.main + 1;
    timestamp = o.now;
    date = o.today;
    content = content;
  }

  -- The last two steps of a write: the new file takes the place of the old, then its checksum.
  unfoldable pub commit : Outcome → String → Disk → Disk
  commit o raw d =
      let replaced : Disk = record d { main = some raw; tmp = none } in
      if o.sum_ok then record replaced { main_sum = some (hash raw) } else replaced

  -- `_write_inner`. The result is false where nothing is written.
  unfoldable pub write : Outcome → String → Handle → Disk → Bool × Handle × Disk
  unfolding rotate_backups commit
  write o content h d =
      let raw = serialize (stamped o content d) in
      let rotated = rotate_backups o.rotation (record d { tmp = some raw }) in
      if hash content == h.last_hash
      then (false, h, d)
      else if not o.space_ok
      then (false, h, d)
      else if not o.tmp_ok
      then (false, h, record d { tmp = none })
      else if not o.replace_ok
      then (false, h, record rotated { tmp = none })
      else (true, record h { last_hash = hash content }, commit o raw rotated)
