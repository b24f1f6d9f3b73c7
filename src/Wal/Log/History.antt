-- ===== src/Wal/Log/History.antt =====
-- Any history of Append calls, and what a restart finds of it.
use multiplayer.Prelude.{
  List, ok, All, Result, [], inl, inr, map, refl, some, ◌∷◌, ◌≡◌, ap, length, sym, ◌%◌, ◌^◌, ◌∙◌,
}
use multiplayer.Wal.Log.{Wal, append}
use multiplayer.Wal.Log.Load.{open_wal}
use multiplayer.Wal.Log.Invariant.{
  IsWal, IsStored, append-IsWal, append_cases, dedup_key-IsStored, serialize-IsStored,
}
use multiplayer.Bytes.{ByteArray}
use multiplayer.Wal.Entry.{WalEntry}
use multiplayer.File.Laws.{OneFault}
use multiplayer.File.{opened, File}
use multiplayer.Wal.Log.Load.Recovery.{open_wal-frames}
use multiplayer.Wal.Key.{dedup_key}

-- The calls in their order; what each returns is not looked at.
pub append_all : List WalEntry → Wal → Wal
append_all [] w = w
append_all (e ∷ es) w = append_all es (append e w).1

append-OneFault :
    (w : Wal) (e : WalEntry)
    → IsWal w
    → OneFault w.file.outcomes
    → IsStored e
    → OneFault (append e w).1.file.outcomes
append-OneFault w e v h s =
    let (d, q) = serialize-IsStored e s in
    let (k, t) = dedup_key-IsStored e s in
    elim (append_cases w e d k v h q t) [
      | inl (c, r) ↦ rw r h
      | inr (inl (c, os, r, f)) ↦ rw r f
      | inr (inr (c, r)) ↦ rw r tt
    ]

pub append_all-IsWal :
    (es : List WalEntry) (w : Wal)
    → IsWal w
    → OneFault w.file.outcomes
    → All IsStored es
    → IsWal (append_all es w)
unfolding append_all
append_all-IsWal [] w v h s = v
append_all-IsWal (e ∷ es) w v h s =
    append_all-IsWal es (append e w).1 (append-IsWal w e v h s.0) (append-OneFault w e v h s.0) s.1

pub map-ok-injective :
    (ks ls : List (ByteArray 16)) → map {B = Result (ByteArray 16)} ok ks ≡ map ok ls → ks ≡ ls
map-ok-injective [] [] h = refl
map-ok-injective [] (l ∷ ls) h = cc
map-ok-injective (k ∷ ks) [] h = cc
map-ok-injective (k ∷ ks) (l ∷ ls) h =
    let p : k ≡ l = cc in let q = map-ok-injective ks ls (cc) in rw p (ap (◌∷◌ l) q)

-- A log in good order gets any calls of Append, of entries that it may hold, and of all its calls
-- on the file at most one fails: then opening the file anew gives a log with the entries, the
-- keys and the count of the one that was in memory.
pub restart :
    (w : Wal) (es : List WalEntry)
    → IsWal w
    → OneFault w.file.outcomes
    → All IsStored es
    → let now = append_all es w in
      (w' : Wal) × (open_wal (opened now.file.content []) ≡ some (ok w'))
      × (w'.entries ≡ now.entries)
      × (w'.set ≡ now.set)
      × (w'.count ≡ now.count)
restart w es v h s =
    let now = append_all es w in
    let u = append_all-IsWal es w v h s in
    let (w', p, q, x) = open_wal-frames now.entries u.entries in
    (
      w',
      rw (ap (λ (f : File). f.content) u.file) p,
      q,
      map-ok-injective w'.set now.set (sym x.set ∙ ap (map dedup_key) q ∙ u.set),
      x.count ∙ ap (λ (l : List WalEntry). length l % 2 ^ 32) q ∙ sym u.count,
    )
