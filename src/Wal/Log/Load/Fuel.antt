-- ===== src/Wal/Log/Load/Fuel.antt =====
-- The loop of `load` ends: its fuel is enough, for every file and every failure.
use mathlib.Core.Option
use multiplayer.Prelude.{
  Error, List, Option, Result, ap, arith, eof, err, inl, inr, length, length-drop, ok, panic, refl,
  some, suc, zero, ℕ, ◌+◌, ◌<◌, >>=-ne-panic, ◌≡◌, ◌≢◌, ◌⊎◌, ◌∷◌, [], ◌*◌, ok-injective, ◌∙◌,
}
use multiplayer.File.Laws.{left, read_full-left, read_full-left-le}
use multiplayer.File.Reads.{IsFull, read_full-IsFull}
use multiplayer.Wal.Log.Load.{
  Continue, decode, fresh, load, on_data, on_entry, on_header, on_length, on_load, open_wal, round,
}
use multiplayer.File.{File, read_full}
use multiplayer.Wal.Log.{Wal}
use multiplayer.Bytes.Words.{le_uint32}
use multiplayer.Wal.Entry.{WalEntry, parse}
use multiplayer.Wal.Entry.Parsing.{parse-ne-panic}
use multiplayer.Wal.Key.{dedup_key}
use multiplayer.Bytes.{ByteArray}

-- An end of the loop, with success or with an error.
abbrev IsEnd : Option (Result (Unit {0}) × Wal) → Type 0
IsEnd o = ((w : Wal) × (o ≡ some (ok tt, w))) ⊎ ((e : Error) × (w : Wal) × (o ≡ some (err e, w)))

-- What is relied on of the rest of the loop: it ends if fewer than n bytes are left.
abbrev Ends : Continue → ℕ → Type 0
Ends again n = (w : Wal) → left w.file < n → IsEnd (again w)

dedup_key-ne-panic : (e : WalEntry) → dedup_key e ≢ panic
unfolding dedup_key
dedup_key-ne-panic e = ground arith

decode-ne-panic : (d : List ℕ) → decode d ≢ panic
unfolding decode
decode-ne-panic d =
    >>=-ne-panic (parse d) _ (parse-ne-panic d)
      (λ e. >>=-ne-panic (dedup_key e) _ (dedup_key-ne-panic e) (λ k q. absurd (cc)))

module _ (again : Continue) (n : ℕ) (h : Ends again n) (w : Wal) where
  on_entry-Ends :
      (f : File) (r : Result (WalEntry × ByteArray 16))
      → r ≢ panic
      → left f < n
      → IsEnd (on_entry again w f r)
  unfolding on_entry
  on_entry-Ends f (ok (e, k)) p l = h _ l
  on_entry-Ends f (err e) p l = inr (e, _, refl)
  on_entry-Ends f panic p l = absurd (p refl)

  on_data-Ends :
      (m : ℕ) (r : Result (List ℕ) × File) → IsFull m r → left r.1 < n → IsEnd (on_data again w r)
  unfolding on_data
  on_data-Ends m (ok d, f) p l = on_entry-Ends f (decode d) (decode-ne-panic d) l
  on_data-Ends m (err e, f) p l = inr (e, _, refl)
  on_data-Ends m (panic, f) (inl (d, q, x)) l = absurd (cc)
  on_data-Ends m (panic, f) (inr (e, q)) l = absurd (cc)

  on_length-Ends :
      (f : File) (d : List ℕ)
      → length d ≡ 4
      → left f < n
      → IsEnd (on_length again w f (le_uint32 d))
  unfolding on_length le_uint32
  on_length-Ends f (a ∷ b ∷ c ∷ d ∷ s) q l =
      let m = a + b * 256 + c * 65536 + d * 16777216 in
      on_data-Ends m (read_full m f) (read_full-IsFull m f)
        (omega (arith, read_full-left-le m f, l))
  on_length-Ends f [] q l = absurd (omega arith)
  on_length-Ends f (a ∷ []) q l = absurd (omega arith)
  on_length-Ends f (a ∷ b ∷ []) q l = absurd (omega arith)
  on_length-Ends f (a ∷ b ∷ c ∷ []) q l = absurd (omega arith)

  on_header-Ends :
      (r : Result (List ℕ) × File)
      → IsFull 4 r
      → ((d : List ℕ) → r.0 ≡ ok d → left r.1 < n)
      → IsEnd (on_header again w r)
  unfolding on_header
  on_header-Ends (ok d, f) (inl (x, q, k)) l =
      on_length-Ends f d (ap length (ok-injective q) ∙ k) (l d refl)
  on_header-Ends (ok d, f) (inr (e, q)) l = absurd (cc)
  on_header-Ends (err eof, f) p l = inl (_, refl)
  on_header-Ends (err _, f) p l = inr (_, _, refl)
  on_header-Ends (panic, f) (inl (d, q, x)) l = absurd (cc)
  on_header-Ends (panic, f) (inr (e, q)) l = absurd (cc)

load-Ends : (n : ℕ) → Ends (load n) n
unfolding load round
load-Ends zero w l = absurd (omega arith)
load-Ends (suc n) w l =
    on_header-Ends (load n) n (load-Ends n) w (read_full 4 w.file) (read_full-IsFull 4 w.file)
      (λ d e. omega (
        arith,
        read_full-left 4 w.file (ap (λ (r : Result (List ℕ)). (r, (read_full 4 w.file).1)) e),
      ))

opened-IsEnd :
    (o : Option (Result (Unit {0}) × Wal))
    → IsEnd o
    → ((w : Wal) × (Option.map on_load o ≡ some (ok w)))
      ⊎ ((e : Error) × (Option.map on_load o ≡ some (err e)))
unfolding on_load
opened-IsEnd o (inl (w, q)) = inl (w, rw q refl)
opened-IsEnd o (inr (e, w, q)) = inr (e, rw q refl)

-- Opening a log always comes to an end, with a log or an error and without a panic, whatever bytes the
-- file holds and whichever reads fail.
pub open_wal_cases :
    (f : File)
    → ((w : Wal) × (open_wal f ≡ some (ok w))) ⊎ ((e : Error) × (open_wal f ≡ some (err e)))
unfolding open_wal
open_wal_cases f =
    opened-IsEnd (load (length f.content + 1) (fresh f))
      (load-Ends (length f.content + 1) (fresh f) (omega (arith, length-drop f.pos f.content)))
