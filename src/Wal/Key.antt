-- ===== src/Wal/Key.antt =====
-- shared/wal/key.go: the key by which the log and the send queue drop a repeated entry.
use multiplayer.Prelude.{
  Option, Result, [], arith, err, if◌then◌else◌, none, ok, some, unknown_type, ℕ, ◌==◌, ◌↔◌, ◌∷◌,
  ◌≡◌, ◌++◌, ap, ok-injective, sym, ◌∙◌,
}
use multiplayer.Bytes.{ByteArray, make_bytes, to_array, write_all, bytes}
use multiplayer.Bytes.Words.{IsU32, le32}
use multiplayer.Wal.Entry.{IsValid, WalEntry, wal_event, wal_item}

unfoldable pub dedup_key : WalEntry → Result (ByteArray 16)
unfolding le32
dedup_key e =
    let start = write_all ((0, e.type ∷ []) ∷ (1, e.from ∷ []) ∷ []) (make_bytes 16) in
    if e.type == wal_item
    then ok (
        to_array 16 (
          write_all ((2, e.item.game ∷ []) ∷ (3, le32 e.item.key) ∷ (7, le32 e.item.nonce) ∷ [])
            start))
    else if e.type == wal_event
    then ok (to_array 16 (write_all ((2, le32 e.event.id) ∷ []) start))
    else err (unknown_type e.type)

-- What a key is to tell apart: an item by where it was found, an event by what was raised, and both
-- by the world that they come from.
pub data Identity : Type 0 where
  found : (from game key nonce : ℕ) → Identity
  raised : (from id : ℕ) → Identity

abbrev pub identity : WalEntry → Option Identity
identity e =
    if e.type == wal_item
    then some (found e.from e.item.game e.item.key e.item.nonce)
    else if e.type == wal_event
    then some (raised e.from e.event.id)
    else none

abbrev InRange : Identity → Type 0
InRange (found from game key nonce) = IsU32 key × IsU32 nonce
InRange (raised from id) = IsU32 id

key_of : Identity → ByteArray 16
unfolding le32
key_of (found from game key nonce) =
    to_array 16 (wal_item ∷ from ∷ game ∷ le32 key ++ le32 nonce ++ make_bytes 5)
key_of (raised from id) = to_array 16 (wal_event ∷ from ∷ le32 id ++ make_bytes 10)

dedup_key-eq-key_of :
    (e : WalEntry) (i : Identity) → identity e ≡ some i → dedup_key e ≡ ok (key_of i)
unfolding dedup_key key_of
dedup_key-eq-key_of e (found f g k n) h = ground arith
dedup_key-eq-key_of e (raised f d) h = ground arith

identity-InRange : (e : WalEntry) (i : Identity) → IsValid e → identity e ≡ some i → InRange i
identity-InRange e (found f g k n) v h = ground arith
identity-InRange e (raised f d) v h = ground arith

key_of_injective : (i j : Identity) → InRange i → InRange j → key_of i ≡ key_of j → i ≡ j
unfolding key_of
key_of_injective (found f g k n) (found f' g' k' n') v w h = ground (arith, ap (bytes 16) h)
key_of_injective (found f g k n) (raised f' e) v w h = ground (arith, ap (bytes 16) h)
key_of_injective (raised f e) (found f' g k n) v w h = ground (arith, ap (bytes 16) h)
key_of_injective (raised f e) (raised f' e') v w h = ground (arith, ap (bytes 16) h)

-- Two entries of known types with fields in range have the same key exactly if they have the same
-- identity: the keys of two different items or events differ, and of the same one they agree.
pub dedup_key_iff_identity :
    (a b : WalEntry) (i j : Identity)
    → IsValid a
    → IsValid b
    → identity a ≡ some i
    → identity b ≡ some j
    → (dedup_key a ≡ dedup_key b) ↔ (i ≡ j)
dedup_key_iff_identity a b i j va vb ia ib = (
  λ h.
      key_of_injective i j (identity-InRange a i va ia) (identity-InRange b j vb ib)
        (ok-injective (sym (dedup_key-eq-key_of a i ia) ∙ h ∙ dedup_key-eq-key_of b j ib)),
  λ h.
      dedup_key-eq-key_of a i ia
      ∙ ap (λ (x : Identity). ok (key_of x)) h
      ∙ sym (dedup_key-eq-key_of b j ib),
)
