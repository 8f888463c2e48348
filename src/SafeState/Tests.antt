-- ===== src/SafeState/Tests.antt =====
-- Runs of the state file on a concrete encoding: numbers in unary, the text behind them, and the
-- text itself as its hash.
use Prim.Native.Char.{code}
use trading_hub.Base.{
  ℕ, zero, suc, ◌+◌, String, ◌≡◌, refl, ap, ◌∙◌, true, false, Option, none, some, arith, eqb,
  if◌then◌else◌, nat_eq, string_eq, pair_eq,
}
use trading_hub.SafeState.Disk.{
  complete, Disk, Document, Handle, Outcome, read_document, stamped, write,
}
use trading_hub.SafeState.RoundTrip.{write-lost}

unfoldable put_number : ℕ → String → String
put_number zero s = String.◌∷◌ "0" s
put_number (suc n) s = String.◌∷◌ "1" (put_number n s)

unfoldable get_number : String → ℕ → Option (ℕ × String)
get_number String.[] n = none
get_number (String.◌∷◌ c s) n = if eqb (code c) 49 then get_number s (n + 1) else some (n, s)

unfoldable serialize : Document → String
serialize d = put_number d.version (put_number d.timestamp (put_number d.date d.content))

abbrev then_get {ℓ} : {A : Type ℓ} → Option (ℕ × String) → (ℕ → String → Option A) → Option A
then_get none f = none
then_get (some (n, s)) f = f n s

unfoldable parse : String → Option Document
parse s = then_get (get_number s 0) (λ v r. then_get (get_number r 0) (λ t q.
    then_get (get_number q 0)
      (λ d c. some (record { version = v; timestamp = t; date = d; content = c }))))

get_number-put_number :
    (n : ℕ) (s : String) (m : ℕ) → get_number (put_number n s) m ≡ some (m + n, s)
unfolding get_number put_number
get_number-put_number zero s m = ap (λ (k : ℕ). some (k, s)) (omega arith)
get_number-put_number (suc n) s m =
    get_number-put_number n s (m + 1) ∙ ap (λ (k : ℕ). some (k, s)) (omega arith)

get_put : (n : ℕ) (s : String) → get_number (put_number n s) 0 ≡ some (n, s)
get_put n s = get_number-put_number n s 0 ∙ ap (λ (k : ℕ). some (k, s)) (omega arith)

parse-serialize : (d : Document) → parse (serialize d) ≡ some d
unfolding parse serialize
parse-serialize d = rw get_put (rw get_put (rw get_put refl))

abbrev same_text : String → String
same_text s = s

abbrev fine : ℕ → Outcome
fine now = record {
  today = 3;
  now = now;
  space_ok = true;
  tmp_ok = true;
  rotation = complete;
  replace_ok = true;
  sum_ok = true;
}

abbrev empty_disk : Disk
empty_disk = record {
  main = none;
  main_sum = none;
  prev = none;
  prev_sum = none;
  prev2 = none;
  prev2_sum = none;
  tmp = none;
}

abbrev new_handle : Handle
new_handle = record { last_hash = ""; last_read_version = 0; max_age = 30 }

abbrev document : ℕ → String → Document
document version content = record { version = version; timestamp = 5; date = 3; content = content }

abbrev disk_with : Document → Disk
disk_with d = record empty_disk { main = some (serialize d); main_sum = some (serialize d) }

write-lost_example :
    let w1 = write same_text serialize parse (fine 5) "a" new_handle empty_disk in
    let w2 = write same_text serialize parse (fine 6) "b" new_handle w1.2 in
    let third = write same_text serialize parse (fine 7) "a" w1.1 w2.2 in
    (third.0 ≡ false)
    × (read_document same_text serialize parse third.2
        ≡ some (stamped same_text serialize parse (fine 6) "b" w1.2))
write-lost_example =
    write-lost same_text serialize parse parse-serialize (fine 5) (fine 6) (fine 7) "a" "b"
      new_handle new_handle empty_disk (refl, refl, refl, refl) (refl, refl, refl, refl) refl refl
