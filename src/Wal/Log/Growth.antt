-- ===== src/Wal/Log/Growth.antt =====
-- What Append may change of the log in memory, whatever the file does.
use multiplayer.Prelude.{
  List, ok, Bool-cases, Result, [], err, inl, inr, panic, refl, suc, ℕ, ◌++◌, ◌∷◌, ◌≡◌,
}
use multiplayer.Wal.Entry.{WalEntry, serialize}
use multiplayer.Wal.Log.{
  Wal, after_commit, append, append_locked, commit, contains, next_u32, remember,
}
use multiplayer.Wal.Log.Keys.{with_ok-keeps}
use multiplayer.Bytes.{ByteArray}
use multiplayer.Wal.Key.{dedup_key}
use multiplayer.File.{File}

-- Append leaves the entries, the count and the channel as they are, or it adds its entry and closes
-- the channel.
pub data Grows (w w' : Wal) (e : WalEntry) : Type 0 where
  same : w'.entries ≡ w.entries → w'.count ≡ w.count → w'.notify ≡ w.notify → Grows w w' e
  more :
      w'.entries ≡ w.entries ++ e ∷ []
      → w'.count ≡ next_u32 w.count
      → w'.notify ≡ suc w.notify
      → Grows w w' e

after_commit-Grows :
    (k : ByteArray 16) (e : WalEntry) (w : Wal) (r : Result (Unit {0}) × File)
    → Grows w (after_commit k e w r).1 e
unfolding after_commit remember
after_commit-Grows k e w (ok _, f) = more refl refl refl
after_commit-Grows k e w (err x, f) = same refl refl refl
after_commit-Grows k e w (panic, f) = same refl refl refl

append_locked-Grows :
    (d : List ℕ) (k : ByteArray 16) (e : WalEntry) (w : Wal) → Grows w (append_locked d k e w).1 e
unfolding append_locked
append_locked-Grows d k e w = elim (Bool-cases (contains k w.set)) [
  | inl c ↦ rw c (same refl refl refl)
  | inr c ↦ rw c (after_commit-Grows k e w (commit d w.file))
]

pub append-Grows : (w : Wal) (e : WalEntry) → Grows w (append e w).1 e
unfolding append
append-Grows w e =
    with_ok-keeps (λ w'. Grows w w' e) (serialize e) w _ (same refl refl refl)
      λ d.
        with_ok-keeps (λ w'. Grows w w' e) (dedup_key e) w _ (same refl refl refl)
          λ k. append_locked-Grows d k e w
