-- ===== src/Wal/Log/Keys.antt =====
-- The set of keys: what Append looks up in it, and that no key is in it twice.
use multiplayer.Prelude.{
  List, [], arith, false, refl, true, ◌++◌, ◌||◌, ◌∷◌, ◌≡◌, Bool-cases, Result, err, inl, inr, ok,
  panic, ℕ, ap, ok-injective, sym, ◌∙◌,
}
use multiplayer.Wal.Log.{
  append, Wal, append_locked, contains, after_commit, commit, remember, with_ok,
}
use multiplayer.Bytes.Laws.{array_eq_iff, array_eq_comm}
use multiplayer.Wal.Entry.{WalEntry, serialize}
use multiplayer.Bytes.{array_eq, ByteArray}
use multiplayer.File.{File}
use multiplayer.Wal.Key.{dedup_key}

pub contains-append :
    (k : ByteArray 16) (ks ls : List (ByteArray 16))
    → contains k (ks ++ ls) ≡ (contains k ks || contains k ls)
unfolding contains
contains-append k [] ls = refl
contains-append k (l ∷ ks) ls = ground (arith, contains-append k ks ls)

pub contains-snoc_self :
    (k : ByteArray 16) (ks : List (ByteArray 16)) → contains k (ks ++ k ∷ []) ≡ true
contains-snoc_self k ks =
    rw (contains-append k ks (k ∷ []))
      (unfold contains in ground (arith, (array_eq_iff 16 k k).1 refl))

-- No key is in the list twice.
abbrev pub Distinct : List (ByteArray 16) → Type 0
Distinct [] = Unit {0}
Distinct (k ∷ ks) = (contains k ks ≡ false) × Distinct ks

contains-snoc_ne :
    (k l : ByteArray 16) (ks : List (ByteArray 16))
    → contains k ks ≡ false
    → array_eq 16 l k ≡ false
    → contains k (ks ++ l ∷ []) ≡ false
unfolding contains
contains-snoc_ne k l ks h n = ground (arith, contains-append k ks (l ∷ []))

pub Distinct-snoc :
    (ks : List (ByteArray 16)) (k : ByteArray 16)
    → Distinct ks
    → contains k ks ≡ false
    → Distinct (ks ++ k ∷ [])
unfolding contains
Distinct-snoc [] k d h = (refl, tt)
Distinct-snoc (l ∷ ks) k d h = (
  contains-snoc_ne l k ks d.0 (ground (arith, array_eq_comm 16 k l)),
  Distinct-snoc ks k d.1 (ground arith),
)

pub with_ok-keeps :
    {A : Type 0} (P : Wal → Type 0) (r : Result A) (w : Wal) (k : A → Result (Unit {0}) × Wal)
    → P w
    → ((a : A) → P (k a).1)
    → P (with_ok r w k).1
unfolding with_ok
with_ok-keeps P (ok a) w k h next = next a
with_ok-keeps P (err e) w k h next = h
with_ok-keeps P panic w k h next = h

after_commit-Distinct :
    (k : ByteArray 16) (e : WalEntry) (w : Wal) (r : Result (Unit {0}) × File)
    → Distinct w.set
    → contains k w.set ≡ false
    → Distinct (after_commit k e w r).1.set
unfolding after_commit remember
after_commit-Distinct k e w (ok _, f) d c = Distinct-snoc w.set k d c
after_commit-Distinct k e w (err x, f) d c = d
after_commit-Distinct k e w (panic, f) d c = d

append_locked-Distinct :
    (b : List ℕ) (k : ByteArray 16) (e : WalEntry) (w : Wal)
    → Distinct w.set
    → Distinct (append_locked b k e w).1.set
unfolding append_locked
append_locked-Distinct b k e w d = elim (Bool-cases (contains k w.set)) [
  | inl c ↦ rw c d
  | inr c ↦ rw c (after_commit-Distinct k e w (commit b w.file) d c)
]

-- Append never puts a key into the set twice, whatever the entry and however its calls on the file
-- end.
append-Distinct : (w : Wal) (e : WalEntry) → Distinct w.set → Distinct (append e w).1.set
unfolding append
append-Distinct w e d =
    with_ok-keeps (λ w. Distinct w.set) (serialize e) w _ d
      λ b.
        with_ok-keeps (λ w. Distinct w.set) (dedup_key e) w _ d
          λ k. append_locked-Distinct b k e w d

pub with_ok-eq-ok :
    {A : Type 0} (r : Result A) (w w' : Wal) (k : A → Result (Unit {0}) × Wal)
    → with_ok r w k ≡ (ok tt, w')
    → (a : A) × (r ≡ ok a) × (k a ≡ (ok tt, w'))
unfolding with_ok
with_ok-eq-ok (ok a) w w' k h = (a, refl, h)
with_ok-eq-ok (err e) w w' k h = absurd (cc)
with_ok-eq-ok panic w w' k h = absurd (cc)

contains-after_commit :
    (k : ByteArray 16) (e : WalEntry) (w w' : Wal) (r : Result (Unit {0}) × File)
    → after_commit k e w r ≡ (ok tt, w')
    → contains k w'.set ≡ true
unfolding after_commit remember
contains-after_commit k e w w' (ok _, f) h =
    rw (ap (λ (x : Result (Unit {0}) × Wal). x.1.set) (sym h)) (contains-snoc_self k w.set)
contains-after_commit k e w w' (err x, f) h = absurd (cc)
contains-after_commit k e w w' (panic, f) h = absurd (cc)

contains-append_locked :
    (d : List ℕ) (k : ByteArray 16) (e : WalEntry) (w w' : Wal)
    → append_locked d k e w ≡ (ok tt, w')
    → contains k w'.set ≡ true
unfolding append_locked
contains-append_locked d k e w w' h = elim (Bool-cases (contains k w.set)) [
  | inl c ↦ rw (ap (λ (x : Result (Unit {0}) × Wal). x.1.set) (sym (rw c at h))) c
  | inr c ↦ contains-after_commit k e w w' (commit d w.file) (rw c at h)
]

-- After an Append that succeeded the key of the entry is in the set.
pub contains-append_ok :
    (w w' : Wal) (e : WalEntry) (k : ByteArray 16)
    → append e w ≡ (ok tt, w')
    → dedup_key e ≡ ok k
    → contains k w'.set ≡ true
unfolding append
contains-append_ok w w' e k h q =
    let (d, _, p) = with_ok-eq-ok (serialize e) w w' _ h in
    let (l, u, p') = with_ok-eq-ok (dedup_key e) w w' _ p in
    rw (ok-injective (sym q ∙ u)) (contains-append_locked d l e w w' p')

-- Once Append of an entry with a key has succeeded, Append of any entry that has bytes and the
-- same key succeeds and changes nothing: neither the file nor the list, the set or the count.
pub append-append :
    (w w' : Wal) (a b : WalEntry) (d : List ℕ) (k : ByteArray 16)
    → append a w ≡ (ok tt, w')
    → dedup_key a ≡ ok k
    → serialize b ≡ ok d
    → dedup_key b ≡ ok k
    → append b w' ≡ (ok tt, w')
unfolding append
append-append w w' a b d k h ka sb kb =
    rw (sb, append) (rw kb (rw (contains-append_ok w w' a k h ka, append_locked) refl))
