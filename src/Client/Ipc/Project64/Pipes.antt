-- ===== src/Client/Ipc/Project64/Pipes.antt =====
-- The handles of a connection to Project64, and the messages that it reads.
use multiplayer.Client.Ipc.Project64.{
  WinError, Pj64Conn, Handles, Answers, is_open, without, close_handle, made, close_conn,
  Overlapped, after_read, after_start, after_wait, io_pending, more_data, new_pj64_conn, read,
  read_loop, wait_overlapped, with_file, with_mode, with_path, with_read_event, with_write_event,
}
use multiplayer.Prelude.{
  Bool-cases, List, [], arith, false, inl, inr, refl, true, ℕ, ◌==◌, ◌∷◌, ◌≡◌, ◌⊎◌, ap, ◌∙◌, ◌≢◌,
  Option, append-nil, append_assoc, none, some, take, ◌++◌,
}

without_none : (h : ℕ) (is : List ℕ) → is_open h is ≡ false → without h is ≡ is
unfolding without is_open
without_none h [] f = refl
without_none h (i ∷ is) f = elim (Bool-cases (i == h)) [
  | inl e ↦ absurd (let n : true ≡ false = rw e at f in cc)
  | inr e ↦ let g : is_open h is ≡ false = rw e at f in rw (e, without_none h is g) refl
]

-- A handle that has been made is closed again.
close-made : (h : ℕ) (s : Handles) → is_open h s.opened ≡ false → close_handle h (made h s) ≡ s
unfolding close_handle made is_open without
close-made h s f = let e : (h == h) ≡ true = ground arith in rw (e, without_none h s.opened f) refl

-- A handle that is made is not open.
abbrev pub IsNew : ℕ ⊎ WinError → List ℕ → Type 0
IsNew (inl h) opened = is_open h opened ≡ false
IsNew (inr e) opened = Unit {0}

abbrev pub add_handle : ℕ ⊎ WinError → List ℕ → List ℕ
add_handle (inl h) opened = h ∷ opened
add_handle (inr e) opened = opened

-- What the API documents of the handles that it makes.
pub record IsFresh (a : Answers) (opened : List ℕ) : Type 0 where
  pub file : IsNew a.file opened
  pub read_event : IsNew a.read_event (add_handle a.file opened)
  pub write_event : IsNew a.write_event (add_handle a.read_event (add_handle a.file opened))

-- Nothing is left open, or a connection that Close leaves nothing open of.
abbrev pub IsClean : Handles → (Pj64Conn ⊎ WinError) × Handles → Type 0
IsClean s (inl c, t) =
    (t.opened ≡ c.write_event ∷ c.read_event ∷ c.handle ∷ s.opened) × (close_conn c t ≡ s)
IsClean s (inr e, t) = t ≡ s

not_open : (h i : ℕ) (is : List ℕ) → is_open h (i ∷ is) ≡ false → (i ≢ h) × (is_open h is ≡ false)
unfolding is_open
not_open h i is f = elim (Bool-cases (i == h)) [
  | inl e ↦ absurd (let n : true ≡ false = rw e at f in cc)
  | inr e ↦ (ground (arith, e), rw e at f)
]

all_made :
    (h r w : ℕ) (s : Handles)
    → is_open h s.opened ≡ false
    → is_open r (h ∷ s.opened) ≡ false
    → is_open w (r ∷ h ∷ s.opened) ≡ false
    → close_conn
        (record { handle = h; read_event = r; write_event = w })
        (made w (made r (made h s)))
      ≡ s
unfolding close_conn close_handle made is_open without
all_made h r w s f g i =
    let hh : (h == h) ≡ true = ground arith in
    let rr : (r == r) ≡ true = ground arith in
    let ww : (w == w) ≡ true = ground arith in
    let (hr, gs) = not_open r h s.opened g in
    let (rne, out) = not_open w r (h ∷ s.opened) i in
    let (hw, is) = not_open w h s.opened out in
    let rh : (r == h) ≡ false = ground arith in
    let wh : (w == h) ≡ false = ground arith in
    let wr : (w == r) ≡ false = ground arith in
    rw
      (
        wh,
        rh,
        hh,
        without_none h s.opened f,
        wr,
        rr,
        without_none r s.opened gs,
        ww,
        without_none w s.opened is,
      )
      refl

event_made :
    (h r : ℕ) (s : Handles)
    → is_open h s.opened ≡ false
    → is_open r (h ∷ s.opened) ≡ false
    → close_handle h (close_handle r (made r (made h s))) ≡ s
unfolding made
event_made h r s f g = ap (close_handle h) (close-made r (made h s) g) ∙ close-made h s f

write_event-IsClean :
    (h r : ℕ) (w : ℕ ⊎ WinError) (s : Handles)
    → is_open h s.opened ≡ false
    → is_open r (h ∷ s.opened) ≡ false
    → IsNew w (r ∷ h ∷ s.opened)
    → IsClean s (with_write_event h r w (made r (made h s)))
unfolding with_write_event made
write_event-IsClean h r (inl w) s f g i = (refl, all_made h r w s f g i)
write_event-IsClean h r (inr e) s f g i = event_made h r s f g

read_event-IsClean :
    (h : ℕ) (r w : ℕ ⊎ WinError) (s : Handles)
    → is_open h s.opened ≡ false
    → IsNew r (h ∷ s.opened)
    → IsNew w (add_handle r (h ∷ s.opened))
    → IsClean s (with_read_event h r w (made h s))
unfolding with_read_event
read_event-IsClean h (inl r) w s f g i = write_event-IsClean h r w s f g i
read_event-IsClean h (inr e) w s f g i = close-made h s f

mode-IsClean :
    (h : ℕ) (m : Option WinError) (a : Answers) (s : Handles)
    → is_open h s.opened ≡ false
    → IsNew a.read_event (h ∷ s.opened)
    → IsNew a.write_event (add_handle a.read_event (h ∷ s.opened))
    → IsClean s (with_mode h m a (made h s))
unfolding with_mode
mode-IsClean h none a s f g i = read_event-IsClean h a.read_event a.write_event s f g i
mode-IsClean h (some e) a s f g i = close-made h s f

file-IsClean :
    (o : ℕ ⊎ WinError) (a : Answers) (s : Handles)
    → IsNew o s.opened
    → IsNew a.read_event (add_handle o s.opened)
    → IsNew a.write_event (add_handle a.read_event (add_handle o s.opened))
    → IsClean s (with_file o a s)
unfolding with_file
file-IsClean (inl h) a s f g i = mode-IsClean h a.mode a s f g i
file-IsClean (inr e) a s f g i = refl

path-IsClean :
    (o : Option WinError) (a : Answers) (s : Handles)
    → IsFresh a s.opened
    → IsClean s (with_path o a s)
unfolding with_path
path-IsClean none a s f = file-IsClean a.file a s f.file f.read_event f.write_event
path-IsClean (some e) a s f = refl

-- Whatever the calls of the API answer to newPJ64Conn, given that each handle they make is not open
-- already: if it returns an error, the handles are as they were, each that was made having been closed
-- once; if it returns a connection, the three handles that it holds have been opened and no other, and
-- Close of it brings back the handles as they were.
pub new_pj64_conn-IsClean :
    (a : Answers) (s : Handles) → IsFresh a s.opened → IsClean s (new_pj64_conn a s)
unfolding new_pj64_conn
new_pj64_conn-IsClean a s f = path-IsClean a.path a s f

-- An operation that ends with the answer of GetOverlappedResult.
abbrev pub IsEnded : Overlapped → Type 0
IsEnded o = (o.start ≡ none) ⊎ ((o.start ≡ some io_pending) × (o.wait ≡ none))

-- What the operations deliver of a message that comes in parts. A part that ReadFile reports at once
-- with ERROR_MORE_DATA is not delivered.
pub data Delivers : List Overlapped → List ℕ → Type 0 where
  last_part :
      (o : Overlapped) (os : List Overlapped)
      → IsEnded o
      → o.result ≡ none
      → Delivers (o ∷ os) (take o.count o.buffer)
  part :
      (o : Overlapped) (os : List Overlapped) (m : List ℕ)
      → IsEnded o
      → o.result ≡ some more_data
      → Delivers os m
      → Delivers (o ∷ os) (take o.count o.buffer ++ m)
  at_once :
      (o : Overlapped) (os : List Overlapped) (m : List ℕ)
      → o.start ≡ some more_data
      → Delivers os m
      → Delivers (o ∷ os) m

ended_lem : (o : Overlapped) → IsEnded o → wait_overlapped o ≡ (o.count, o.result)
unfolding wait_overlapped after_start after_wait
ended_lem o (inl e) = rw e refl
ended_lem o (inr (e, f)) = rw (e, f) refl

at_once_lem : (o : Overlapped) → o.start ≡ some more_data → wait_overlapped o ≡ (0, some more_data)
unfolding wait_overlapped after_start
at_once_lem o e = rw e refl

read_loop-Delivers :
    (os : List Overlapped) (m msg : List ℕ)
    → Delivers os m
    → read_loop os msg ≡ some (inl (msg ++ m))
unfolding read_loop after_read
read_loop-Delivers _ _ msg (last_part o os e r) = rw (ended_lem o e, r) refl
read_loop-Delivers _ _ msg (part o os m e r d) =
    rw (ended_lem o e, r)
      (read_loop-Delivers os m (msg ++ take o.count o.buffer) d
        ∙ ap (λ (x : List ℕ). some (inl x)) (append_assoc msg (take o.count o.buffer) m))
read_loop-Delivers _ _ msg (at_once o os m e d) = rw (at_once_lem o e) (
    read_loop-Delivers os m (msg ++ take 0 o.buffer) d
    ∙ ap (λ (x : List ℕ). some (inl (x ++ m))) (append-nil msg))

-- Read of a message that comes in parts ends with the last part and returns the parts one behind the
-- other, whether a ReadFile ends at once or is waited for; but a part that ReadFile reports at once with
-- ERROR_MORE_DATA is missing in what it returns.
pub read-Delivers : (os : List Overlapped) (m : List ℕ) → Delivers os m → read os ≡ some (inl m)
unfolding read
read-Delivers os m d = read_loop-Delivers os m [] d
