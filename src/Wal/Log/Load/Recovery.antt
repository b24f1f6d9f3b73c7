-- ===== src/Wal/Log/Load/Recovery.antt =====
-- Opening the file of a log gives the log back.
use multiplayer.Prelude.{
  List, ok, [], append-nil, arith, length, refl, ℕ, ◌++◌, ◌<◌, ◌^◌, ◌≡◌, All, append_assoc, map,
  some, suc, zero, ◌%◌, ◌∷◌, Result, ap, length-append, map-append, ◌+◌,
}
use multiplayer.File.Laws.{standing, read_full-standing, read_full-eof}
use multiplayer.Wal.Log.{Wal, remember}
use multiplayer.Wal.Entry.{WalEntry, serialize}
use multiplayer.Wal.Entry.RoundTrip.{length-serialize, parse-serialize}
use multiplayer.Wal.Log.Commit.{framed}
use multiplayer.Wal.Log.Load.{
  Continue, decode, on_data, on_entry, on_header, on_length, round, load, open_wal, fresh,
}
use multiplayer.Bytes.{ByteArray}
use multiplayer.Wal.Log.Invariant.{
  IsStored, frames, IsWal, dedup_key-IsStored, frames-append, frames-cons, frames-nil,
  serialize-IsStored, length-frames,
}
use multiplayer.Wal.Key.{dedup_key}
use multiplayer.File.{read_full, opened}
use multiplayer.Bytes.Words.{length-le32, le_uint32-le32, le_uint32, le32}

length-lt-u32 : (e : WalEntry) {d : List ℕ} → serialize e ≡ ok d → length d < 2 ^ 32
length-lt-u32 e h = ground (arith, length-serialize e h)

decode-IsStored :
    (e : WalEntry) (d : List ℕ) (k : ByteArray 16)
    → IsStored e
    → serialize e ≡ ok d
    → dedup_key e ≡ ok k
    → decode d ≡ ok (e, k)
unfolding decode
decode-IsStored e d k s h t =
    rw (rw append-nil at (parse-serialize e d [] s.valid h)) (rw s.is_active (rw t refl))

read_length :
    (d b r : List ℕ)
    → read_full 4 (standing b (framed d ++ r))
      ≡ (ok (le32 (length d % 2 ^ 32)), standing (b ++ le32 (length d % 2 ^ 32)) (d ++ r))
unfolding framed
read_length d b r =
    rw (append_assoc (le32 (length d % 2 ^ 32)) d r)
      (read_full-standing b (le32 (length d % 2 ^ 32)) (d ++ r) 4 (length-le32 _))

le_uint32-length :
    (d : List ℕ) → length d < 2 ^ 32 → le_uint32 (le32 (length d % 2 ^ 32)) ≡ ok (length d)
le_uint32-length d h =
    let e : length d % 2 ^ 32 ≡ length d = omega arith in rw e (le_uint32-le32 (length d) h)

-- A round of the loop on the bytes of one entry takes the entry into the log.
round_entry :
    (again : Continue) (w : Wal) (e : WalEntry) (d : List ℕ) (k : ByteArray 16) (b r : List ℕ)
    → IsStored e
    → serialize e ≡ ok d
    → dedup_key e ≡ ok k
    → w.file ≡ standing b (framed d ++ r)
    → round again w ≡ again (record (remember k e w) { file = standing (b ++ framed d) r })
unfolding round on_header on_length on_data on_entry
round_entry again w e d k b r s h t q = rw q (
    rw (read_length d b r) (
      rw (le_uint32-length d (length-lt-u32 e h)) (
        rw (read_full-standing (b ++ le32 (length d % 2 ^ 32)) d r (length d) refl) (
          rw (decode-IsStored e d k s h t)
            (unfold framed in rw (append_assoc b (le32 (length d % 2 ^ 32)) d) refl)))))

-- What the loop has taken in, and what it has still to read.
record Read (w : Wal) (done rest : List WalEntry) : Type 0 where
  entries : w.entries ≡ done
  set : map dedup_key done ≡ map ok w.set
  count : w.count ≡ length done % 2 ^ 32
  file : w.file ≡ standing (frames done) (frames rest)

load_end :
    (again : Continue) (w : Wal) (b : List ℕ)
    → w.file ≡ standing b []
    → round again w ≡ some (ok tt, record w { file = standing b [] })
unfolding round on_header
load_end again w b h = rw h (rw (read_full-eof b 3) refl)

Read-next :
    (w : Wal) (done rest : List WalEntry) (e : WalEntry) (d : List ℕ) (k : ByteArray 16)
    → serialize e ≡ ok d
    → dedup_key e ≡ ok k
    → Read w done (e ∷ rest)
    → Read
        (record (remember k e w) { file = standing (frames done ++ framed d) (frames rest) })
        (done ++ e ∷ [])
        rest
unfolding remember
Read-next w done rest e d k q t h = record {
  entries = ap (λ (l : List WalEntry). l ++ e ∷ []) h.entries;
  set =
      rw
        (
          map-append dedup_key done (e ∷ []),
          map-append {B = Result (ByteArray 16)} ok w.set (k ∷ []),
          h.set,
          t,
        )
        refl;
  count = omega (arith, h.count, length-append done (e ∷ []));
  file = rw (frames-append done e q) refl;
}

load_rest :
    (rest done : List WalEntry) (n : ℕ) (w : Wal)
    → length rest < n
    → All IsStored rest
    → Read w done rest
    → (w' : Wal) × (load n w ≡ some (ok tt, w')) × Read w' (done ++ rest) []
unfolding load
load_rest rest done zero w l s h = absurd (omega arith)
load_rest [] done (suc n) w l s h = (
  record w { file = standing (frames done) [] },
  load_end (load n) w (frames done) (rw frames-nil at h.file),
  rw (append-nil done) (record {
    entries = h.entries;
    set = h.set;
    count = h.count;
    file = rw frames-nil (rw (append-nil (frames done)) refl);
  }),
)
load_rest (e ∷ rest) done (suc n) w l s h =
    let (d, q) = serialize-IsStored e s.0 in
    let (k, t) = dedup_key-IsStored e s.0 in
    let w1 = record (remember k e w) { file = standing (frames done ++ framed d) (frames rest) } in
    let (w', p, r) =
      load_rest rest (done ++ e ∷ []) n w1 (omega arith) s.1 (Read-next w done rest e d k q t h) in
    (
      w',
      rw
          (round_entry (load n) w e d k (frames done) (frames rest) s.0 q t
            (rw (frames-cons e rest q) at h.file))
          p,
      rw (append_assoc done (e ∷ []) rest) at r,
    )

Read-start : (es : List WalEntry) → Read (fresh (opened (frames es) [])) [] es
Read-start es = record { entries = refl; set = refl; count = refl; file = rw frames-nil refl }

Read-IsWal : (w : Wal) (es : List WalEntry) → Read w es [] → All IsStored es → IsWal w
Read-IsWal w es r h = record {
  file = rw (r.file, frames-nil, append-nil (frames es), r.entries) refl;
  count = rw r.entries r.count;
  set = rw r.entries r.set;
  entries = rw r.entries h;
}

-- The file that a log leaves behind opens as a log with the same entries and the same keys, which
-- stands at the end of the file.
pub open_wal-frames :
    (es : List WalEntry)
    → All IsStored es
    → (w : Wal) × (open_wal (opened (frames es) []) ≡ some (ok w)) × (w.entries ≡ es) × IsWal w
unfolding open_wal
open_wal-frames es h =
    let (w, p, r) =
      load_rest es [] (length (frames es) + 1) (fresh (opened (frames es) []))
        (omega (arith, length-frames es)) h (Read-start es) in
    (w, rw p refl, r.entries, Read-IsWal w es r h)
