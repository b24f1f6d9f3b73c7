-- ===== src/Client/Ipc/Project64/Examples.antt =====
-- A pipe whose second event cannot be made, and a message in three parts.
use multiplayer.Client.Ipc.Project64.{
  more_data, io_pending, other, Handles, Answers, Overlapped, new_pj64_conn, read, is_open,
}
use multiplayer.Client.Ipc.Project64.Pipes.{
  IsClean, new_pj64_conn-IsClean, part, last_part, at_once, read-Delivers,
}
use multiplayer.Prelude.{List, [], inl, inr, none, refl, some, ◌∷◌, ◌≡◌}

abbrev answers : Answers
answers = record {
  path = none;
  file = inl 4;
  mode = none;
  read_event = inl 5;
  write_event = inr (other 8);
}

abbrev one_open : Handles
one_open = record { opened = 3 ∷ []; wrong = [] }

new_pj64_conn-IsClean_example : IsClean one_open (new_pj64_conn answers one_open)
unfolding is_open
new_pj64_conn-IsClean_example =
    new_pj64_conn-IsClean answers one_open
      (record { file = refl; read_event = refl; write_event = tt })

-- The first part is waited for, the second is there at once, and the third ends the message.
abbrev parts : List Overlapped
parts =
    record {
      start = some io_pending;
      buffer = 1 ∷ 2 ∷ [];
      wait = none;
      count = 2;
      result = some more_data;
    }
    ∷ record {
      start = some more_data;
      buffer = 3 ∷ 4 ∷ [];
      wait = none;
      count = 2;
      result = some more_data;
    }
    ∷ record { start = none; buffer = 5 ∷ 0 ∷ []; wait = none; count = 1; result = none }
    ∷ []

read-Delivers_example : read parts ≡ some (inl (1 ∷ 2 ∷ 5 ∷ []))
read-Delivers_example = read-Delivers parts (1 ∷ 2 ∷ 5 ∷ []) (
    part _ _ (5 ∷ []) (inr (refl, refl)) refl
      (at_once _ _ (5 ∷ []) refl (last_part _ [] (inl refl) refl)))
