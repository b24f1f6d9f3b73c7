-- ===== src/Client/SendQueue/Reload.antt =====
-- Reopening the file of the queue: every entry that is pending is pending again.
use multiplayer.Prelude.{
  List, ok, All, [], append-nil, append_assoc, arith, length, length-append, refl, some, suc, sym,
  zero, ℕ, ◌%◌, ◌++◌, ◌<◌, ◌^◌, ◌∷◌, ◌≡◌, ◌≤◌, ap, ◌+◌, ◌∙◌,
}
use multiplayer.Bytes.{ByteArray, bytes}
use multiplayer.Bytes.Words.{le32, le_uint32-le32, length-le32}
use multiplayer.File.Laws.{standing, read_full-eof, read_full-standing}
use multiplayer.Client.SendQueue.{
  put, Entries, SendQueue, load, read_rest, Continue, on_id, on_record, on_load, open_send_queue,
}
use multiplayer.File.{read_full, File, opened}
use multiplayer.Bytes.Laws.{length-bytes}

-- The bytes of one record in the file, and of those that were written in turn.
unfoldable pub record_bytes : ByteArray 16 → List ℕ → List ℕ
record_bytes k d = bytes 16 k ++ (le32 (length d % 2 ^ 32) ++ d)

unfoldable pub records : Entries → List ℕ
records [] = []
records ((k, d) ∷ h) = record_bytes k d ++ records h

pub records-append :
    (h : Entries) (k : ByteArray 16) (d : List ℕ)
    → records (h ++ (k, d) ∷ []) ≡ records h ++ record_bytes k d
unfolding records
records-append [] k d = append-nil _
records-append ((j, c) ∷ h) k d =
    rw (records-append h k d) (sym (append_assoc (record_bytes j c) (records h) (record_bytes k d)))

length-records : (h : Entries) → length h ≤ length (records h)
unfolding records record_bytes
length-records [] = omega arith
length-records ((k, d) ∷ h) = omega (
  arith,
  length-append (bytes 16 k ++ (le32 (length d % 2 ^ 32) ++ d)) (records h),
  length-records h,
)

-- The map that reading the records one after the other makes.
unfoldable pub replay : Entries → Entries → Entries
replay [] es = es
replay ((k, d) ∷ h) es = replay h (put k d es)

pub replay-append :
    (h es : Entries) (k : ByteArray 16) (d : List ℕ)
    → replay (h ++ (k, d) ∷ []) es ≡ put k d (replay h es)
unfolding replay
replay-append [] es k d = refl
replay-append ((j, c) ∷ h) es k d = replay-append h (put j c es) k d

read_rest-standing :
    (b d r : List ℕ)
    → length d < 2 ^ 32
    → read_rest (standing b ((le32 (length d % 2 ^ 32) ++ d) ++ r))
      ≡ (ok d, standing (b ++ (le32 (length d % 2 ^ 32) ++ d)) r)
unfolding read_rest
read_rest-standing b d r h =
    let l : length d % 2 ^ 32 ≡ length d = omega arith in
    rw (append_assoc (le32 (length d % 2 ^ 32)) d r) (
      rw (read_full-standing b (le32 (length d % 2 ^ 32)) (d ++ r) 4 (length-le32 _)) (
        rw l (
          rw (le_uint32-le32 (length d) h) (
            rw (read_full-standing (b ++ le32 (length d)) d r (length d) refl)
              (rw (append_assoc b (le32 (length d)) d) refl)))))

-- A round of the loop at the end of the file, and on the bytes of one record.
round_end :
    (again : Continue) (sq : SendQueue) (b : List ℕ)
    → sq.file ≡ standing b []
    → on_id again sq (read_full 16 sq.file) ≡ some (ok tt, record sq { file = standing b [] })
unfolding on_id
round_end again sq b q = rw q (rw (read_full-eof b 15) refl)

round_record :
    (again : Continue) (sq : SendQueue) (b r : List ℕ) (k : ByteArray 16) (d : List ℕ)
    → length d < 2 ^ 32
    → sq.file ≡ standing b (record_bytes k d ++ r)
    → on_id again sq (read_full 16 sq.file)
      ≡ again (record { file = standing (b ++ record_bytes k d) r; entries = put k d sq.entries })
unfolding on_id on_record record_bytes
round_record again sq b r k d h q = rw q (
    rw (append_assoc (bytes 16 k) (le32 (length d % 2 ^ 32) ++ d) r) (
      rw
        (read_full-standing b (bytes 16 k) ((le32 (length d % 2 ^ 32) ++ d) ++ r) 16
          (sym (length-bytes 16 k)))
        (rw (read_rest-standing (b ++ bytes 16 k) d r h)
          (rw (append_assoc b (bytes 16 k) (le32 (length d % 2 ^ 32) ++ d)) refl))))

records-nil : (b : List ℕ) (f : File) → f ≡ standing b (records []) → f ≡ standing b []
unfolding records
records-nil b f q = q

load-records :
    (h : Entries) (n : ℕ) (b : List ℕ) (sq : SendQueue)
    → length h < n
    → All (λ e. length e.1 < 2 ^ 32) h
    → sq.file ≡ standing b (records h)
    → load n sq
      ≡ some (ok tt, record { file = standing (b ++ records h) []; entries = replay h sq.entries })
unfolding load records replay
load-records h zero b sq l s q = absurd (omega arith)
load-records [] (suc n) b sq l s q = rw (append-nil b) (round_end (load n) sq b q)
load-records ((k, d) ∷ h) (suc n) b sq l s q =
    round_record (load n) sq b (records h) k d s.0 q
    ∙ load-records h n (b ++ record_bytes k d)
        (record {
          file = standing (b ++ record_bytes k d) (records h);
          entries = put k d sq.entries;
        })
        (omega arith) s.1 refl
    ∙ ap
        (λ (x : List ℕ).
          some (ok tt, record { file = standing x []; entries = replay h (put k d sq.entries) }))
        (append_assoc b (record_bytes k d) (records h))

-- Opening a file that holds the records makes the map that they make when put in turn.
pub open_send_queue-records :
    (h : Entries)
    → All (λ e. length e.1 < 2 ^ 32) h
    → open_send_queue (opened (records h) [])
      ≡ some (ok (record { file = standing (records h) []; entries = replay h [] }))
unfolding open_send_queue on_load
open_send_queue-records h s =
    rw
      (load-records h (length (records h) + 1) []
        (record { file = opened (records h) []; entries = [] }) (omega (arith, length-records h)) s
        refl)
      refl
