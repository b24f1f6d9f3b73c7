-- ===== src/Client/SendQueue/Durable.antt =====
-- What Add and Ack keep, and what a restart of the client finds.
use multiplayer.Prelude.{
  All, List, Result, [], ap, length, ok, some, sym, ℕ, ◌%◌, ◌++◌, ◌<◌, ◌^◌, ◌∙◌, ◌≡◌, All-append,
  Option, arith, err, none, panic, refl, ◌∷◌, append_assoc, inl, inr, ◌⊎◌,
}
use multiplayer.File.{File, seek_end, write, opened, sync, truncate}
use multiplayer.Client.SendQueue.{
  lookup, Entries, write_entry, SendQueue, add, add_new, after_write, put, ack, ack_some,
  empty_file, open_send_queue, remove, rewind,
}
use multiplayer.Client.SendQueue.Reload.{
  replay, records, record_bytes, records-append, replay-append, open_send_queue-records,
}
use multiplayer.Bytes.{ByteArray, bytes}
use multiplayer.File.Success.{
  sync-content, write-ok, seek_end-ok, resume-eq-ok, seek_start-content, truncate-content,
}
use multiplayer.Client.SendQueue.Acks.{lookup-put, lookup-remove}
use multiplayer.Bytes.Words.{le32}
use multiplayer.File.Laws.{standing}

-- The file holds the records of a history, and each entry of the map is the one that the history
-- leaves for its key; the history may leave more.
pub record IsQueue (sq : SendQueue) : Type 0 where
  pub history : Entries
  pub content : sq.file.content ≡ records history
  pub short : All (λ e. length e.1 < 2 ^ 32) history
  pub lookups :
      (k : ByteArray 16) (d : List ℕ)
      → lookup k sq.entries ≡ some d
      → lookup k (replay history []) ≡ some d

chain :
    {s a b c d : List ℕ} (x y z : List ℕ)
    → a ≡ s
    → b ≡ a ++ x
    → c ≡ b ++ y
    → d ≡ c ++ z
    → d ≡ s ++ (x ++ (y ++ z))
chain {s} x y z p q r t =
    rw t (rw r (rw q (rw p (append_assoc (s ++ x) y z ∙ append_assoc s x (y ++ z)))))

write_entry-ok :
    (k : ByteArray 16) (d : List ℕ) (f : File) {g : File}
    → write_entry k d f ≡ (ok tt, g)
    → g.content ≡ f.content ++ record_bytes k d
unfolding write_entry record_bytes
write_entry-ok k d f {g} h =
    let (_, f1, h1, r1) = resume-eq-ok _ (seek_end f) h in
    let (_, f2, h2, r2) = resume-eq-ok _ (write (bytes 16 k) f1) r1 in
    let (_, f3, h3, r3) = resume-eq-ok _ (write (le32 (length d % 2 ^ 32)) f2) r2 in
    let (_, f4, h4, r4) = resume-eq-ok _ (write d f3) r3 in
    let (c1, p1) = seek_end-ok f h1 in
    let (c2, p2) = write-ok (bytes 16 k) f1 p1 h2 in
    let (c3, p3) = write-ok (le32 (length d % 2 ^ 32)) f2 p2 h3 in
    let (c4, _) = write-ok d f3 p3 h4 in
    let c5 : g.content ≡ f4.content =
      ap (λ (x : Result (Unit {0}) × File). x.1.content) (sym r4) ∙ sync-content f4 in
    c5 ∙ chain (bytes 16 k) (le32 (length d % 2 ^ 32)) d c1 c2 c3 c4

empty-IsQueue : (f : File) → f.content ≡ [] → IsQueue (record { file = f; entries = [] })
unfolding records lookup
empty-IsQueue f h = record { history = []; content = h; short = tt; lookups = λ k d e. absurd (cc) }

put-IsQueue :
    (sq : SendQueue) (id : ByteArray 16) (d : List ℕ) (g : File)
    → IsQueue sq
    → length d < 2 ^ 32
    → g.content ≡ sq.file.content ++ record_bytes id d
    → IsQueue (record { file = g; entries = put id d sq.entries })
put-IsQueue sq id d g v l h = record {
  history = v.history ++ (id, d) ∷ [];
  content =
      h
      ∙ ap (λ (x : List ℕ). x ++ record_bytes id d) v.content
      ∙ sym (records-append v.history id d);
  short = All-append (λ e. length e.1 < 2 ^ 32) v.history ((id, d) ∷ []) v.short (l, tt);
  lookups = λ k c e. rw (replay-append v.history [] id d) (
      rw (lookup-put id k d (replay v.history []))
        (ground (arith, lookup-put id k d sq.entries, v.lookups k c)));
}

after_write-IsQueue :
    (sq : SendQueue) (id : ByteArray 16) (d : List ℕ) (o : Result (Unit {0}) × File)
    → IsQueue sq
    → length d < 2 ^ 32
    → write_entry id d sq.file ≡ o
    → (after_write id d sq o).0 ≡ ok tt
    → IsQueue (after_write id d sq o).1
unfolding after_write
after_write-IsQueue sq id d (ok _, f) v l h e =
    put-IsQueue sq id d f v l (write_entry-ok id d sq.file h)
after_write-IsQueue sq id d (err x, f) v l h e = absurd (cc)
after_write-IsQueue sq id d (panic, f) v l h e = absurd (cc)

add_new-IsQueue :
    (o : Option (List ℕ)) (id : ByteArray 16) (d : List ℕ) (sq : SendQueue)
    → IsQueue sq
    → length d < 2 ^ 32
    → (add_new o id d sq).0 ≡ ok tt
    → IsQueue (add_new o id d sq).1
unfolding add_new
add_new-IsQueue (some c) id d sq v l e = v
add_new-IsQueue none id d sq v l e =
    after_write-IsQueue sq id d (write_entry id d sq.file) v l refl e

pub add-IsQueue :
    (sq : SendQueue) (id : ByteArray 16) (d : List ℕ)
    → IsQueue sq
    → length d < 2 ^ 32
    → (add id d sq).0 ≡ ok tt
    → IsQueue (add id d sq).1
unfolding add
add-IsQueue sq id d v l e = add_new-IsQueue (lookup id sq.entries) id d sq v l e

-- Ack only ever removes entries from the map, and from the file only when the map is empty.
rewind-content : (o : Result (Unit {0}) × File) → (rewind o).content ≡ o.1.content
unfolding rewind
rewind-content (ok _, f) = seek_start-content 0 f
rewind-content (err e, f) = refl
rewind-content (panic, f) = refl

empty_file-content :
    (es : Entries) (f : File)
    → ((es ≡ []) × ((empty_file es f).content ≡ [])) ⊎ ((empty_file es f).content ≡ f.content)
unfolding empty_file
empty_file-content [] f = elim (truncate-content f) [
  | inl h ↦ inl (refl, rewind-content (truncate 0 f) ∙ h)
  | inr h ↦ inr (rewind-content (truncate 0 f) ∙ h)
]
empty_file-content (e ∷ es) f = inr refl

remove-lookups :
    (sq : SendQueue) (id : ByteArray 16) (f : File)
    → IsQueue sq
    → f.content ≡ sq.file.content
    → IsQueue (record { file = f; entries = remove id sq.entries })
remove-lookups sq id f v h = record {
  history = v.history;
  content = h ∙ v.content;
  short = v.short;
  lookups = λ k d e. ground (arith, lookup-remove id k sq.entries, v.lookups k d);
}

cut-IsQueue :
    (es : Entries) (f : File)
    → es ≡ []
    → f.content ≡ []
    → IsQueue (record { file = f; entries = es })
cut-IsQueue es f q h = rw q (empty-IsQueue f h)

ack_some-IsQueue :
    (es : Entries) (id : ByteArray 16) (sq : SendQueue) → IsQueue sq → IsQueue (ack_some es id sq)
unfolding ack_some
ack_some-IsQueue [] id sq v = v
ack_some-IsQueue (e ∷ es) id sq v =
    let rest = remove id sq.entries in
    let f = empty_file rest sq.file in
    elim (empty_file-content rest sq.file) [
      | inl (q, h) ↦ cut-IsQueue rest (sync f).1 q (sync-content f ∙ h)
      | inr h ↦ remove-lookups sq id (sync f).1 v (sync-content f ∙ h)
    ]

pub ack-IsQueue : (sq : SendQueue) (id : ByteArray 16) → IsQueue sq → IsQueue (ack id sq)
unfolding ack
ack-IsQueue sq id v = ack_some-IsQueue sq.entries id sq v

-- The life of a queue in which each call of Add has returned without an error.
pub data Reach : SendQueue → Type 0 where
  created : (f : File) → f.content ≡ [] → Reach (record { file = f; entries = [] })
  added :
      (sq : SendQueue) (id : ByteArray 16) (d : List ℕ)
      → Reach sq
      → length d < 2 ^ 32
      → (add id d sq).0 ≡ ok tt
      → Reach (add id d sq).1
  acked : (sq : SendQueue) (id : ByteArray 16) → Reach sq → Reach (ack id sq)

Reach-IsQueue : (sq : SendQueue) → Reach sq → IsQueue sq
Reach-IsQueue _ (created f h) = empty-IsQueue f h
Reach-IsQueue _ (added sq id d r l h) = add-IsQueue sq id d (Reach-IsQueue sq r) l h
Reach-IsQueue _ (acked sq id r) = ack-IsQueue sq id (Reach-IsQueue sq r)

-- A queue that started on an empty file, with calls of Add that each returned without an error for
-- an entry shorter than 2^32 and any calls of Ack in between, whatever calls on the file failed in
-- Ack: opening the file again succeeds, and each entry that was pending is pending again.
pub reopen-pending :
    (sq : SendQueue)
    → Reach sq
    → (again : SendQueue) × (open_send_queue (opened sq.file.content []) ≡ some (ok again))
      × ((k : ByteArray 16) (d : List ℕ)
          → lookup k sq.entries ≡ some d
          → lookup k again.entries ≡ some d)
reopen-pending sq r =
    let v = Reach-IsQueue sq r in
    (
      record { file = standing (records v.history) []; entries = replay v.history [] },
      rw v.content (open_send_queue-records v.history v.short),
      v.lookups,
    )
