-- ===== src/Client/Ipc/Project64.antt =====
-- client/internal/ipc/project64_windows.go: the pipes of Project64. The calls of the Windows API are
-- parameters: what they answer is data, and the handles that they make are numbers.
pub mod Pipes
mod Examples
use multiplayer.Prelude.{
  Bool, List, Option, [], false, if◌then◌else◌, inl, inr, none, some, take, ℕ, ◌++◌, ◌==◌, ◌||◌,
  ◌∷◌, ◌⊎◌,
}

pub data WinError : Type 0 where
  io_pending more_data : WinError
  other : (code : ℕ) → WinError

-- type PJ64Conn, without its path
pub record Pj64Conn : Type 0 where
  pub handle : ℕ
  pub read_event : ℕ
  pub write_event : ℕ

-- The handles that are open, and what the process does with them: CloseHandle of a handle that is not
-- open is an error of the API.
pub record Handles : Type 0 where
  pub opened : List ℕ
  pub wrong : List ℕ

unfoldable pub is_open : ℕ → List ℕ → Bool
is_open h [] = false
is_open h (i ∷ is) = i == h || is_open h is

unfoldable pub without : ℕ → List ℕ → List ℕ
without h [] = []
without h (i ∷ is) = let rest = without h is in if i == h then rest else i ∷ rest

-- windows.CloseHandle
unfoldable pub close_handle : ℕ → Handles → Handles
unfolding is_open without
close_handle h s =
    if is_open h s.opened
    then record s { opened = without h s.opened }
    else record s { wrong = h ∷ s.wrong }

-- A call of the API that makes a handle.
unfoldable pub made : ℕ → Handles → Handles
made h s = record s { opened = h ∷ s.opened }

-- What the API answers to newPJ64Conn: UTF16FromString, CreateFile, SetNamedPipeHandleState, and
-- CreateEvent twice.
pub record Answers : Type 0 where
  pub path : Option WinError
  pub file : ℕ ⊎ WinError
  pub mode : Option WinError
  pub read_event : ℕ ⊎ WinError
  pub write_event : ℕ ⊎ WinError

unfoldable pub with_write_event : ℕ → ℕ → ℕ ⊎ WinError → Handles → (Pj64Conn ⊎ WinError) × Handles
unfolding close_handle made
with_write_event h r (inl w) s =
    (inl (record { handle = h; read_event = r; write_event = w }), made w s)
with_write_event h r (inr e) s = (inr e, close_handle h (close_handle r s))

unfoldable pub with_read_event :
    ℕ → ℕ ⊎ WinError → ℕ ⊎ WinError → Handles → (Pj64Conn ⊎ WinError) × Handles
unfolding with_write_event
with_read_event h (inl r) w s = with_write_event h r w (made r s)
with_read_event h (inr e) w s = (inr e, close_handle h s)

unfoldable pub with_mode : ℕ → Option WinError → Answers → Handles → (Pj64Conn ⊎ WinError) × Handles
unfolding with_read_event
with_mode h none a s = with_read_event h a.read_event a.write_event s
with_mode h (some e) a s = (inr e, close_handle h s)

unfoldable pub with_file : ℕ ⊎ WinError → Answers → Handles → (Pj64Conn ⊎ WinError) × Handles
unfolding with_mode
with_file (inl h) a s = with_mode h a.mode a (made h s)
with_file (inr e) a s = (inr e, s)

unfoldable pub with_path : Option WinError → Answers → Handles → (Pj64Conn ⊎ WinError) × Handles
unfolding with_file
with_path none a s = with_file a.file a s
with_path (some e) a s = (inr e, s)

-- func newPJ64Conn
unfoldable pub new_pj64_conn : Answers → Handles → (Pj64Conn ⊎ WinError) × Handles
unfolding with_path
new_pj64_conn a s = with_path a.path a s

-- func (conn *PJ64Conn) Close
unfoldable pub close_conn : Pj64Conn → Handles → Handles
close_conn c s = close_handle c.write_event (close_handle c.read_event (close_handle c.handle s))

-- What the API answers to an operation: the result of ReadFile or WriteFile, with what it has put into
-- the buffer, that of WaitForSingleObject, and that of GetOverlappedResult with its count.
pub record Overlapped : Type 0 where
  pub start : Option WinError
  pub buffer : List ℕ
  pub wait : Option WinError
  pub count : ℕ
  pub result : Option WinError

unfoldable pub after_wait : Option WinError → Overlapped → ℕ × Option WinError
after_wait none o = (o.count, o.result)
after_wait (some e) o = (0, some e)

unfoldable pub after_start : Option WinError → Overlapped → ℕ × Option WinError
unfolding after_wait
after_start none o = (o.count, o.result)
after_start (some io_pending) o = after_wait o.wait o
after_start (some more_data) o = (0, some more_data)
after_start (some (other code)) o = (0, some (other code))

-- func waitOverlapped
unfoldable pub wait_overlapped : Overlapped → ℕ × Option WinError
unfolding after_start
wait_overlapped o = after_start o.start o

-- The switch of Read.
unfoldable pub after_read :
    Option WinError → List ℕ → Option (List ℕ ⊎ WinError) → Option (List ℕ ⊎ WinError)
after_read none msg rest = some (inl msg)
after_read (some more_data) msg rest = rest
after_read (some io_pending) msg rest = some (inr io_pending)
after_read (some (other code)) msg rest = some (inr (other code))

-- The loop of Read, on the answers of the API to its calls; `none` says that they have come to an end
-- before Read does.
unfoldable pub read_loop : List Overlapped → List ℕ → Option (List ℕ ⊎ WinError)
unfolding wait_overlapped after_read
read_loop [] msg = none
read_loop (o ∷ os) msg =
    let (n, e) = wait_overlapped o in
    let msg = msg ++ take n o.buffer in after_read e msg (read_loop os msg)

-- func (conn *PJ64Conn) Read
unfoldable pub read : List Overlapped → Option (List ℕ ⊎ WinError)
unfolding read_loop
read os = read_loop os []

-- func (conn *PJ64Conn) Write
unfoldable pub write : Overlapped → Option WinError
unfolding wait_overlapped
write o = (wait_overlapped o).1
