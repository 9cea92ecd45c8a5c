-- ===== src/Sockets/Examples.antt =====
-- Runs of the socket functions, and the theorems about them at concrete schedules.
use machine_project.Prelude.{
  ℕ, zero, suc, ◌≡◌, refl, List, [], ◌∷◌, ◌++◌, length, replicate, some, none, ok, hang, arith,
}
use machine_project.Sockets.{
  Answer, give, interrupted, refused, Transfer, finish, read_all_from_socket, write_all_to_socket,
}
use machine_project.Sockets.Schedules.{Steady, enough, moves, again}
use machine_project.Sockets.Reads.{read_all_from_socket_receives}
use machine_project.Sockets.Messages.{
  htonl, write_message_size, get_message_size, get_message_size-write_message_size,
}
use machine_project.Sockets.Lines.{read_until_newline, first_line, read_until_newline_receives}
use machine_project.Sockets.Files.{help_write_file}
use machine_project.Sockets.Sending.{help_write_file_sends}

abbrev schedule : List Answer
schedule = give 0 ∷ interrupted ∷ give 7 ∷ give 0 ∷ give 0 ∷ give 3 ∷ []

schedule-Steady : Steady 5 schedule
schedule-Steady = moves (again (moves (moves (moves (moves enough)))))

read_in_parts :
    read_all_from_socket 3 [] (1 ∷ 2 ∷ 3 ∷ 4 ∷ []) schedule
    ≡ finish (some 3) (1 ∷ 2 ∷ 3 ∷ []) (4 ∷ []) (give 0 ∷ give 0 ∷ give 3 ∷ [])
unfolding read_all_from_socket
read_in_parts = refl

read_refused :
    read_all_from_socket 2 [] (1 ∷ 2 ∷ []) (give 0 ∷ refused ∷ [])
    ≡ finish none (1 ∷ []) (2 ∷ []) []
unfolding read_all_from_socket
read_refused = refl

write_waits : write_all_to_socket (1 ∷ 2 ∷ []) [] (give 0 ∷ interrupted ∷ []) ≡ hang
unfolding write_all_to_socket
write_waits = refl

htonl_bytes : htonl 66051 ≡ 0 ∷ 1 ∷ 2 ∷ 3 ∷ []
unfolding htonl
htonl_bytes = refl

read_all_from_socket_receives_example :
    (left : List Answer) × (read_all_from_socket 3 [] (1 ∷ 2 ∷ 3 ∷ 4 ∷ []) schedule
      ≡ finish (some 3) (1 ∷ 2 ∷ 3 ∷ []) (4 ∷ []) left)
read_all_from_socket_receives_example =
    read_all_from_socket_receives 3 (1 ∷ 2 ∷ 3 ∷ 4 ∷ []) schedule
      (moves (again (moves (moves (moves enough)))))

get_message_size-write_message_size_example :
    (sent : Transfer) × (write_message_size 66051 schedule ≡ ok sent)
    × (length sent.buffer ≡ 4)
    × (get_message_size (sent.buffer ++ 9 ∷ []) schedule ≡ ok (some 66051, 9 ∷ []))
get_message_size-write_message_size_example =
    get_message_size-write_message_size 66051 (9 ∷ []) schedule schedule (omega arith)
      (moves (again (moves (moves (moves enough))))) schedule-Steady

read_until_newline_receives_example :
    (left : List Answer) × (read_until_newline 5 [] (71 ∷ 69 ∷ 10 ∷ 84 ∷ []) schedule
      ≡ finish (some 3) (71 ∷ 69 ∷ 10 ∷ []) (84 ∷ []) left)
unfolding first_line
read_until_newline_receives_example =
    read_until_newline_receives 5 (71 ∷ 69 ∷ 10 ∷ 84 ∷ []) schedule schedule-Steady

help_write_file_sends_example :
    (left : List Answer) × (help_write_file 2 (7 ∷ 8 ∷ 9 ∷ []) schedule ≡ ok (0, 7 ∷ 8 ∷ [], left))
help_write_file_sends_example =
    help_write_file_sends 2 (7 ∷ 8 ∷ 9 ∷ []) schedule (omega arith) (moves (again (moves enough)))

replicate-Steady : (n k : ℕ) → Steady n (replicate n (give k))
replicate-Steady zero k = enough
replicate-Steady (suc n) k = moves (replicate-Steady n k)
