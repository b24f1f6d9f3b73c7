-- ===== src/Wal/Log/Working.antt =====
-- Append on a file whose calls work.
use multiplayer.Prelude.{refl, false, List, ap, ok, ℕ, ◌∙◌, ◌≡◌, true}
use multiplayer.File.{File, write, seek_current, sync}
use multiplayer.File.Quiet.{IsQuiet, quiet, IsQuiet-quiet}
use multiplayer.Wal.Log.{commit, Wal, after_commit, append, append_locked, contains}
use multiplayer.Wal.Log.Memory.{with_entry}
use multiplayer.Wal.Entry.{WalEntry}
use multiplayer.Bytes.{ByteArray}
use multiplayer.Wal.Log.Invariant.{serialize-IsStored, IsStored}
use multiplayer.Wal.Key.{dedup_key}

commit-quiet :
    (d : List ℕ) (c : List ℕ) (p : ℕ) → (f : File) × (commit d (quiet c p) ≡ (ok tt, f)) × IsQuiet f
unfolding commit write seek_current sync
commit-quiet d c p = ((commit d (quiet c p)).1, refl, record { closed = refl; outcomes = refl })

-- An entry that is new to the log gets into it.
pub append-quiet :
    (w : Wal) (e : WalEntry) (k : ByteArray 16)
    → IsQuiet w.file
    → IsStored e
    → dedup_key e ≡ ok k
    → contains k w.set ≡ false
    → (f : File) × (append e w ≡ (ok tt, with_entry w e k f)) × IsQuiet f
unfolding append append_locked after_commit
append-quiet w e k q s h c =
    let (d, p) = serialize-IsStored e s in
    let (f, r, i) = commit-quiet d w.file.content w.file.pos in
    let x : commit d w.file ≡ (ok tt, f) = ap (commit d) (IsQuiet-quiet w.file q) ∙ r in
    (f, rw p (rw h (rw c (rw x refl))), i)

-- An entry that the log knows changes nothing.
pub append-known :
    (w : Wal) (e : WalEntry) (k : ByteArray 16)
    → IsStored e
    → dedup_key e ≡ ok k
    → contains k w.set ≡ true
    → append e w ≡ (ok tt, w)
unfolding append append_locked
append-known w e k s h c = let (d, p) = serialize-IsStored e s in rw p (rw h (rw c refl))
