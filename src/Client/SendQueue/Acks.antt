-- ===== src/Client/SendQueue/Acks.antt =====
-- The map of the queue: what Add and Ack do to a lookup.
use multiplayer.Client.SendQueue.{
  SendQueue, after_write, add_new, ack_some, add, ack, write_entry, Entries, lookup, put, remove,
}
use multiplayer.Prelude.{
  List, [], arith, if◌then◌else◌, none, refl, some, ℕ, ◌∷◌, ◌≡◌, Option, Result, err, ok, panic,
  sym, true, All, Bool-cases, inl, inr,
}
use multiplayer.Bytes.{array_eq, ByteArray}
use multiplayer.Bytes.Laws.{array_eq_comm, array_eq_left, array_eq_iff}
use multiplayer.File.{File}

pub lookup-put :
    (k j : ByteArray 16) (d : List ℕ) (es : Entries)
    → lookup j (put k d es) ≡ (if array_eq 16 k j then some d else lookup j es)
unfolding lookup put
lookup-put k j d [] = refl
lookup-put k j d ((i, c) ∷ es) = ground (
  arith,
  lookup-put k j d es,
  array_eq_left 16 i k j,
  array_eq_left 16 i j k,
  array_eq_comm 16 k j,
)

pub lookup-remove :
    (k j : ByteArray 16) (es : Entries)
    → lookup j (remove k es) ≡ (if array_eq 16 k j then none else lookup j es)
unfolding lookup remove
lookup-remove k j [] = ground arith
lookup-remove k j ((i, c) ∷ es) = ground (
  arith,
  lookup-remove k j es,
  array_eq_left 16 i k j,
  array_eq_left 16 i j k,
  array_eq_comm 16 k j,
)

same_lookup :
    (k j : ByteArray 16) (es : Entries) → array_eq 16 k j ≡ true → lookup k es ≡ lookup j es
same_lookup k j es h = rw ((array_eq_iff 16 k j).0 h) refl

-- A map that has all the entries of another.
abbrev pub Extends : Entries → Entries → Type 0
Extends es fs = (j : ByteArray 16) (c : List ℕ) → lookup j es ≡ some c → lookup j fs ≡ some c

after_write-Extends :
    (k : ByteArray 16) (d : List ℕ) (sq : SendQueue) (r : Result (Unit {0}) × File)
    → lookup k sq.entries ≡ none
    → Extends sq.entries (after_write k d sq r).1.entries
unfolding after_write
after_write-Extends k d sq (ok _, f) n j c h =
    rw (lookup-put k j d sq.entries) (ground (arith, same_lookup k j sq.entries))
after_write-Extends k d sq (err x, f) n j c h = h
after_write-Extends k d sq (panic, f) n j c h = h

add_new-Extends :
    (o : Option (List ℕ)) (k : ByteArray 16) (d : List ℕ) (sq : SendQueue)
    → lookup k sq.entries ≡ o
    → Extends sq.entries (add_new o k d sq).1.entries
unfolding add_new
add_new-Extends (some x) k d sq n j c h = h
add_new-Extends none k d sq n j c h = after_write-Extends k d sq (write_entry k d sq.file) n j c h

-- Add takes no entry away.
pub add-Extends :
    (k : ByteArray 16) (d : List ℕ) (sq : SendQueue) → Extends sq.entries (add k d sq).1.entries
unfolding add
add-Extends k d sq = add_new-Extends (lookup k sq.entries) k d sq refl

ack_some-lookup :
    (es : Entries) (k j : ByteArray 16) (sq : SendQueue)
    → es ≡ sq.entries
    → lookup j (ack_some es k sq).entries ≡ (if array_eq 16 k j then none else lookup j sq.entries)
unfolding ack_some lookup
ack_some-lookup [] k j sq h = rw (sym h) (ground arith)
ack_some-lookup (e ∷ es) k j sq h = lookup-remove k j sq.entries

-- Ack takes the entry of its key away, and no other.
pub lookup-ack :
    (k j : ByteArray 16) (sq : SendQueue)
    → lookup j (ack k sq).entries ≡ (if array_eq 16 k j then none else lookup j sq.entries)
unfolding ack
lookup-ack k j sq = ack_some-lookup sq.entries k j sq refl

module _ (P : ByteArray 16 × List ℕ → Type 0) where
  put-All :
      (k : ByteArray 16) (d : List ℕ) (es : Entries) → P (k, d) → All P es → All P (put k d es)
  unfolding put
  put-All k d [] p h = (p, tt)
  put-All k d ((j, c) ∷ es) p (q, h) = elim (Bool-cases (array_eq 16 j k)) [
    | inl x ↦ rw x (p, h)
    | inr x ↦ rw x (q, put-All k d es p h)
  ]

  after_write-All :
      (k : ByteArray 16) (d : List ℕ) (sq : SendQueue) (r : Result (Unit {0}) × File)
      → P (k, d)
      → All P sq.entries
      → All P (after_write k d sq r).1.entries
  unfolding after_write
  after_write-All k d sq (ok _, f) p h = put-All k d sq.entries p h
  after_write-All k d sq (err x, f) p h = h
  after_write-All k d sq (panic, f) p h = h

  add_new-All :
      (o : Option (List ℕ)) (k : ByteArray 16) (d : List ℕ) (sq : SendQueue)
      → P (k, d)
      → All P sq.entries
      → All P (add_new o k d sq).1.entries
  unfolding add_new
  add_new-All (some x) k d sq p h = h
  add_new-All none k d sq p h = after_write-All k d sq (write_entry k d sq.file) p h

  -- What holds of all entries still does after Add, if it does of the one that is added.
  pub add-All :
      (k : ByteArray 16) (d : List ℕ) (sq : SendQueue)
      → P (k, d)
      → All P sq.entries
      → All P (add k d sq).1.entries
  unfolding add
  add-All k d sq p h = add_new-All (lookup k sq.entries) k d sq p h
