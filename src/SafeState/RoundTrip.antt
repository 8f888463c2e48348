-- ===== src/SafeState/RoundTrip.antt =====
-- What a write leaves for the next reader, and for the other process that writes.
use trading_hub.Base.{
  String, ◌≡◌, refl, ap, ◌∙◌, Bool, true, false, Option, some, ◌==◌, nat_eq, string_eq, pair_eq,
  beq_self,
}
use trading_hub.SafeState.Disk.{Disk, Document, Handle, Outcome, read_document, stamped, write}

-- Everything that the write asks of the system succeeds.
abbrev pub AllOk : Outcome → Type 0
AllOk o = (o.space_ok ≡ true) × (o.tmp_ok ≡ true) × (o.replace_ok ≡ true) × (o.sum_ok ≡ true)

module _ (hash : String → String) (serialize : Document → String) (parse : String → Option Document)
    (parse-serialize : (doc : Document) → parse (serialize doc) ≡ some doc) where
  abbrev write_doc : Outcome → String → Handle → Disk → Bool × Handle × Disk
  write_doc = write hash serialize parse

  abbrev read_doc : Disk → Option Document
  read_doc = read_document hash serialize parse

  write-changed :
      (o : Outcome) (content : String) (h : Handle) (d : Disk)
      → (hash content == h.last_hash) ≡ false
      → AllOk o
      → let doc = stamped hash serialize parse o content d in
        (write_doc o content h d).0 ≡ true
        × ((write_doc o content h d).1.last_hash ≡ hash content)
        × ((write_doc o content h d).2.main ≡ some (serialize doc))
        × ((write_doc o content h d).2.main_sum ≡ some (hash (serialize doc)))
  unfolding write
  write-changed o content h d new ok =
      rw new (rw ok.0 (rw ok.1 (rw ok.2 (rw ok.3 (refl, refl, refl, refl)))))

  write-unchanged :
      (o : Outcome) (content : String) (h : Handle) (d : Disk)
      → (hash content == h.last_hash) ≡ true
      → write_doc o content h d ≡ (false, h, d)
  unfolding write
  write-unchanged o content h d same = rw same

  read-main :
      (d : Disk) (doc : Document)
      → d.main ≡ some (serialize doc)
      → d.main_sum ≡ some (hash (serialize doc))
      → read_doc d ≡ some doc
  unfolding read_document
  read-main d doc m s = rw m (rw s (rw (beq_self (hash (serialize doc))) (rw parse-serialize)))

  -- A write that the system lets through, of content that differs from what this process last
  -- wrote, is what the next reader gets, one version up, whatever stood on the disk before, if the
  -- parser inverts the serializer.
  pub read-write :
      (o : Outcome) (content : String) (h : Handle) (d : Disk)
      → (hash content == h.last_hash) ≡ false
      → AllOk o
      → read_doc (write_doc o content h d).2 ≡ some (stamped hash serialize parse o content d)
  read-write o content h d new ok =
      let w = write-changed o content h d new ok in
      read-main (write_doc o content h d).2 (stamped hash serialize parse o content d) w.2 w.3

  -- A lost update: where two processes write in turn and both writes go through, and the first then
  -- writes its own last content again, that third write is skipped as unchanged although the file
  -- holds the second content, which stays there. The hashes of the two first writes are new to
  -- their processes, and the parser inverts the serializer.
  pub write-lost :
      (o o' o'' : Outcome) (c c' : String) (h h' : Handle) (d : Disk)
      → AllOk o
      → AllOk o'
      → (hash c == h.last_hash) ≡ false
      → (hash c' == h'.last_hash) ≡ false
      → let (_, first, d1) = write_doc o c h d in
        let (_, second, d2) = write_doc o' c' h' d1 in
        let third = write_doc o'' c first d2 in
        (third.0 ≡ false) × (read_doc third.2 ≡ some (stamped hash serialize parse o' c' d1))
  write-lost o o' o'' c c' h h' d ok ok' n n' =
      let w = write-changed o c h d n ok in
      let d1 = (write_doc o c h d).2 in
      let d2 = (write_doc o' c' h' d1).2 in
      let same : (hash c == (write_doc o c h d).1.last_hash) ≡ true = rw w.1 (beq_self (hash c)) in
      let skipped = write-unchanged o'' c (write_doc o c h d).1 d2 same in
      (ap (λ r. r.0) skipped, ap (λ r. read_doc r.2) skipped ∙ read-write o' c' h' d1 n' ok')
