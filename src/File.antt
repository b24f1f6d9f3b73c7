-- ===== src/File.antt =====
-- Go's `os.File` as the log and the send queue use it: bytes, a position, and what each of the coming
-- calls ends in. A call that fails may have written some of its bytes before.
pub mod Laws
pub mod Reads
pub mod Success
pub mod Quiet
use multiplayer.Prelude.{
  Bool, List, Result, [], drop, eof, err, false, if◌then◌else◌, io_error, length, ltb, ok, panic,
  replicate, take, true, unexpected_eof, ℕ, ◌++◌, ◌+◌, ◌-◌, ◌==◌, ◌∷◌,
}

pub data Outcome : Type 0 where
  works : Outcome
  fails : (written : ℕ) → Outcome

-- Once `outcomes` is used up, every call works.
pub record File : Type 0 where
  pub content : List ℕ
  pub pos : ℕ
  pub closed : Bool
  pub outcomes : List Outcome

-- A call on a file: it ends in a value or an error, and leaves the file behind.
abbrev pub Io : Type 0 → Type 0
Io A = File → Result A × File

abbrev pub resume : {A B : Type 0} → (A → Io B) → Result A × File → Result B × File
resume k (ok a, f) = k a f
resume k (err e, f) = (err e, f)
resume k (panic, f) = (panic, f)

infixl 5 ◌>>=◌ ◌>>◌
abbrev pub ◌>>=◌ : {A B : Type 0} → Io A → (A → Io B) → Io B
◌>>=◌ m k f = resume k (m f)

abbrev pub ◌>>◌ : {A B : Type 0} → Io A → Io B → Io B
m >> n = m >>= λ _. n

take_outcome : List Outcome → Outcome × List Outcome
take_outcome [] = (works, [])
take_outcome (o ∷ os) = (o, os)

-- Each call on an open file uses up one outcome; on a closed one it fails.
next_outcome : File → Outcome × File
unfolding take_outcome
next_outcome f =
    if f.closed
    then (fails 0, f)
    else let (o, os) = take_outcome f.outcomes in (o, record f { outcomes = os })

-- The first n bytes; a file that is shorter is filled up with zeros.
pub resize : ℕ → List ℕ → List ℕ
resize n s = take n (s ++ replicate (n - length s) 0)

put : List ℕ → File → File
unfolding resize
put d f = record f {
  content = resize f.pos f.content ++ d ++ drop (f.pos + length d) f.content;
  pos = f.pos + length d;
}

after_write : List ℕ → Outcome × File → Result (Unit {0}) × File
after_write d (works, f) = (ok tt, put d f)
after_write d (fails n, f) = (err io_error, put (take n d) f)

-- file.Write
unfoldable pub write : List ℕ → Io (Unit {0})
unfolding next_outcome put after_write
write d f = after_write d (next_outcome f)

after_call : (File → File) → Outcome × File → Result (Unit {0}) × File
after_call g (works, f) = (ok tt, g f)
after_call g (fails n, f) = (err io_error, f)

-- file.Truncate
unfoldable pub truncate : ℕ → Io (Unit {0})
unfolding next_outcome after_call resize
truncate n f = after_call (λ g. record g { content = resize n g.content }) (next_outcome f)

-- file.Seek(n, io.SeekStart)
unfoldable pub seek_start : ℕ → Io (Unit {0})
unfolding next_outcome after_call
seek_start n f = after_call (λ g. record g { pos = n }) (next_outcome f)

-- file.Seek(0, io.SeekEnd)
unfoldable pub seek_end : Io (Unit {0})
unfolding next_outcome after_call
seek_end f = after_call (λ g. record g { pos = length g.content }) (next_outcome f)

-- file.Seek(0, io.SeekCurrent)
unfoldable pub seek_current : Io ℕ
unfolding next_outcome after_call
seek_current f = resume (λ _ g. (ok g.pos, g)) (after_call (λ g. g) (next_outcome f))

-- file.Sync
unfoldable pub sync : Io (Unit {0})
unfolding next_outcome after_call
sync f = after_call (λ g. g) (next_outcome f)

read_here : ℕ → File → Result (List ℕ) × File
read_here n f =
    let rest = drop f.pos f.content in
    if n == 0
    then (ok [], f)
    else if length rest == 0
    then (err eof, f)
    else if ltb (length rest) n
    then (err unexpected_eof, record f { pos = f.pos + length rest })
    else (ok (take n rest), record f { pos = f.pos + n })

-- io.ReadFull of n bytes
unfoldable pub read_full : ℕ → Io (List ℕ)
unfolding next_outcome after_call read_here
read_full n f = resume (λ _ g. read_here n g) (after_call (λ g. g) (next_outcome f))

-- file.Close
abbrev pub close : File → File
close f = record f { closed = true }

-- A file that was opened afresh.
abbrev pub opened : List ℕ → List Outcome → File
opened content outcomes = record { content = content; pos = 0; closed = false; outcomes = outcomes }
