-- ===== src/Cursor/Laws.antt =====
-- Reading and writing at a cursor, for the code of src/backend/utility.hpp: a writer is described by
-- the bytes that it lays down, a reader by the bytes that it takes up.
use kndb.Base.{
  true, ℕ, ◌+◌, ◌%◌, ◌≤◌, ◌<◌, ◌^◌, ◌≡◌, sym, ap, ◌∙◌, List, [], ◌++◌, append_assoc, append-nil, M,
  ok, length, drop, arith, length-append, length-drop, drop-drop, take-append, drop-append, ◌>>=◌,
  ◌>>◌, leb, pure,
}
use kndb.Base.Words.{word_bytes, length-word_bytes, word_of-word_bytes}
use kndb.Constants.{pg_sz}
use kndb.Cursor.{
  start, within_page, page_sized, Cursor, read_bytes, write_bytes, read_word, write_word,
}

-- The cursor that has passed `before` and has `after` ahead.
abbrev pub at : List ℕ → List ℕ → Cursor
at before after = record { bytes = before ++ after; offset = length before }

-- `m` writes exactly `source` wherever there is room for it.
pub record Writes (m : M Cursor (Unit {0})) (source : List ℕ) : Type 0 where
  pub run :
      (before after : List ℕ)
      → length source ≤ length after
      → length before + length after ≤ pg_sz
      → m (at before after) ≡ ok tt (at (before ++ source) (drop (length source) after))

-- `m` takes up exactly `source` and returns `a`.
pub record Reads {ℓ} {A : Type ℓ} (m : M Cursor A) (source : List ℕ) (a : A) : Type ℓ where
  pub run :
      (before after : List ℕ)
      → length before + length source ≤ pg_sz
      → m (at before (source ++ after)) ≡ ok a (at (before ++ source) after)

le→leb : (a b : ℕ) → a ≤ b → leb a b ≡ true
le→leb a b h = ground arith

at_path :
    {bs cs : List ℕ} {m n : ℕ}
    → bs ≡ cs
    → m ≡ n
    → ◌≡◌ {A = Cursor} (record { bytes = bs; offset = m }) (record { bytes = cs; offset = n })
at_path p q = λ i. record { bytes = p i; offset = q i }

drop_past :
    (before after : List ℕ) (n : ℕ) → drop (length before + n) (before ++ after) ≡ drop n after
drop_past before after n = sym (drop-drop (length before) n _) ∙ rw (drop-append before after)

offset_lem :
    (before source : List ℕ)
    → length before + length source < 2 ^ 16
    → (length before + length source) % 2 ^ 16 ≡ length (before ++ source)
offset_lem before source h = omega (arith, length-append before source)

pub write_bytes-Writes : (source : List ℕ) → Writes (write_bytes source) source
unfolding write_bytes
write_bytes-Writes source = record {
  run = λ before after room small.
      rw
        (le→leb (length before + length source) (length (before ++ after))
          (omega (arith, length-append before after)))
        (ap (ok tt) (
          at_path
            (rw (take-append before after, drop_past before after (length source))
              (sym (append_assoc before source _)))
            (offset_lem before source (omega arith))));
}

pub read_bytes-Reads :
    (n : ℕ) (source : List ℕ) → length source ≡ n → Reads (read_bytes n) source source
unfolding read_bytes
read_bytes-Reads n source e = record {
  run = λ before after small. rw (← e) (
      rw
        (le→leb (length before + length source) (length (before ++ (source ++ after)))
          (omega (arith, length-append before (source ++ after), length-append source after)))
        (rw (drop-append before (source ++ after), take-append source after)
          (ap (ok source) (
            at_path (sym (append_assoc before source after))
              (offset_lem before source (omega arith))))));
}

module _ {m : M Cursor (Unit {0})} {a b : List ℕ} where
  pub >>-Writes : {k : M Cursor (Unit {0})} → Writes m a → Writes k b → Writes (m >> k) (a ++ b)
  >>-Writes h g = record {
    run = λ before after room small.
        rw (h.run before after (omega (arith, length-append a b)) small) (
          rw
            (g.run (before ++ a) (drop (length a) after)
              (omega (arith, length-append a b, length-drop (length a) after))
              (omega
                (arith, length-append a b, length-append before a, length-drop (length a) after)))
            (rw
              (drop-drop (length a) (length b) after, length-append a b, append_assoc before a b)));
  }

pub >>=-Reads {ℓ κ} :
    {A : Type ℓ} {B : Type κ} {m : M Cursor A} (f : A → M Cursor B) {a b : List ℕ} {x : A} {y : B}
    → Reads m a x
    → Reads (f x) b y
    → Reads (m >>= f) (a ++ b) y
>>=-Reads f {a} {b} {x} h g = record {
  run = λ before after small. rw (append_assoc a b after) (
      rw (h.run before (b ++ after) (omega (arith, length-append a b))) (
        rw (g.run (before ++ a) after (omega (arith, length-append a b, length-append before a)))
          (rw (append_assoc before a b))));
}

pub pure-Reads {ℓ} : {A : Type ℓ} (x : A) → Reads (pure x) [] x
pure-Reads x = record { run = λ before after small. rw (append-nil) }

pub write_word-Writes : (w n : ℕ) → Writes (write_word w n) (word_bytes w n)
unfolding write_word
write_word-Writes w n = write_bytes-Writes (word_bytes w n)

pub read_word-Reads : (w n : ℕ) → n < 256 ^ w → Reads (read_word w) (word_bytes w n) n
unfolding read_word
read_word-Reads w n h = record {
  run = λ before after small.
      rw ((read_bytes-Reads w (word_bytes w n) (length-word_bytes w n)).run before after small)
        (rw (word_of-word_bytes w n h));
}

pub within_page-Writes : Writes within_page []
unfolding within_page
within_page-Writes = record {
  run = λ before after room small. rw (le→leb (length before) pg_sz (omega arith), append-nil);
}

pub within_page-Reads : Reads within_page [] tt
unfolding within_page
within_page-Reads = record {
  run = λ before after small. rw (le→leb (length before) pg_sz (omega arith), append-nil);
}

pub page_sized-run : (bs : List ℕ) → length bs ≡ pg_sz → page_sized (start bs) ≡ ok tt (start bs)
unfolding page_sized
page_sized-run bs e = rw e

-- The whole of a page that a writer lays down from its start.
pub Writes-from_start :
    {m : M Cursor (Unit {0})} {source : List ℕ} (buf : List ℕ)
    → Writes m source
    → length buf ≡ pg_sz
    → length source ≤ pg_sz
    → m (start buf) ≡ ok tt (at source (drop (length source) buf))
Writes-from_start buf w size fits = w.run [] buf (omega arith) (omega arith)

pub Reads-from_start {ℓ} :
    {A : Type ℓ} {m : M Cursor A} {source : List ℕ} {a : A} (after : List ℕ)
    → Reads m source a
    → length source ≤ pg_sz
    → m (start (source ++ after)) ≡ ok a (at source after)
Reads-from_start after r fits = r.run [] after (omega arith)
