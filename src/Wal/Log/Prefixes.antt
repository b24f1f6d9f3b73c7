-- ===== src/Wal/Log/Prefixes.antt =====
-- Two logs of which one begins with the other, by their keys.
use multiplayer.Prelude.{
  ok, refl, arith, [], map, map-append, false, true, All, All-right, List, Result, ap, ok-injective,
  sym, ◌++◌, ◌∙◌, ◌∷◌, ◌≡◌, ◌≢◌,
}
use multiplayer.Wal.Log.Memory.{IsMemory}
use multiplayer.Wal.Log.History.{map-ok-injective}
use multiplayer.Wal.Log.Keys.{Distinct, contains-append}
use multiplayer.Bytes.Laws.{array_eq_comm, array_eq_iff}
use multiplayer.Bytes.{ByteArray}
use multiplayer.Wal.Entry.{WalEntry}
use multiplayer.Wal.Log.{Wal, contains}
use multiplayer.Wal.Key.{dedup_key}
use multiplayer.Wal.Log.Invariant.{dedup_key-IsStored, IsStored}

-- The keys of entries that may be stored.
keys_of :
    (es : List WalEntry)
    → All IsStored es
    → (ks : List (ByteArray 16)) × (map dedup_key es ≡ map ok ks)
keys_of [] s = ([], refl)
keys_of (e ∷ es) s =
    let (k, p) = dedup_key-IsStored e s.0 in
    let (ks, q) = keys_of es s.1 in (k ∷ ks, rw p (ap (◌∷◌ (ok k)) q))

Distinct-middle :
    (ks ls : List (ByteArray 16)) (k : ByteArray 16)
    → Distinct (ks ++ k ∷ ls)
    → contains k ks ≡ false
unfolding contains
Distinct-middle [] ls k d = refl
Distinct-middle (j ∷ ks) ls k d =
    ground
      (arith, contains-append j ks (k ∷ ls), Distinct-middle ks ls k d.1, d.0, array_eq_comm 16 j k)

-- A log whose entries go on past those of another has the keys of the other first.
pub set-prefix :
    (w v : Wal) (es : List WalEntry)
    → IsMemory w
    → IsMemory v
    → w.entries ≡ v.entries ++ es
    → (ks : List (ByteArray 16)) × (w.set ≡ v.set ++ ks) × (map dedup_key es ≡ map ok ks)
set-prefix w v es m n h =
    let (ks, q) = keys_of es (All-right IsStored v.entries es (rw h at m.entries)) in
    (
      ks,
      map-ok-injective w.set (v.set ++ ks) (
          sym m.set
          ∙ ap (map dedup_key) h
          ∙ map-append dedup_key v.entries es
          ∙ rw n.set (rw q (sym (map-append {B = Result (ByteArray 16)} ok v.set ks)))),
      q,
    )

first_key :
    (ks : List (ByteArray 16)) (k : ByteArray 16) (rs : List (Result (ByteArray 16)))
    → ok k ∷ rs ≡ map ok ks
    → (ls : List (ByteArray 16)) × (ks ≡ k ∷ ls)
first_key [] k rs h = absurd (cc)
first_key (j ∷ ks) k rs h = let p : j ≡ k = cc in (ks, rw p refl)

contains-middle :
    (k : ByteArray 16) (ks ls : List (ByteArray 16)) → contains k (ks ++ k ∷ ls) ≡ true
unfolding contains
contains-middle k ks ls =
    ground (arith, contains-append k ks (k ∷ ls), (array_eq_iff 16 k k).1 refl)

-- An entry of such a log behind those of the other is new to the other.
pub contains-next :
    (w v : Wal) (e : WalEntry) (es : List WalEntry) (k : ByteArray 16)
    → IsMemory w
    → IsMemory v
    → w.entries ≡ v.entries ++ e ∷ es
    → dedup_key e ≡ ok k
    → (contains k v.set ≡ false) × (contains k w.set ≡ true)
contains-next w v e es k m n h q =
    let (ks, a, b) = set-prefix w v (e ∷ es) m n h in
    let (ls, c) = first_key ks k (map dedup_key es) (ap (λ x. x ∷ map dedup_key es) (sym q) ∙ b) in
    let d : w.set ≡ v.set ++ k ∷ ls = a ∙ ap (λ (x : List (ByteArray 16)). v.set ++ x) c in
    (Distinct-middle v.set ls k (rw d at m.distinct), rw d (contains-middle k v.set ls))

-- A key that the set does not have is no entry's key.
pub fresh-All :
    (es : List WalEntry) (ks : List (ByteArray 16)) (e : WalEntry) (k : ByteArray 16)
    → map dedup_key es ≡ map ok ks
    → dedup_key e ≡ ok k
    → contains k ks ≡ false
    → All (λ x. dedup_key x ≢ dedup_key e) es
unfolding contains
fresh-All [] ks e k h q c = tt
fresh-All (x ∷ es) [] e k h q c = absurd (cc)
fresh-All (x ∷ es) (l ∷ ks) e k h q c =
    let a : dedup_key x ≡ ok l = cc in
    let b : map dedup_key es ≡ map ok ks = cc in
    (
      λ y. ground (arith, c, (array_eq_iff 16 l k).1 (ok-injective (sym a ∙ y ∙ q))),
      fresh-All es ks e k b q (ground (arith, c)),
    )
