-- ===== src/FileTransfer/Client.antt =====
-- client.c. Its own files are a disk, and what it prints is a list. The connection that connect_to_server
-- gives is a parameter. shutdown moves no bytes, and its result changes nothing but a message.
use machine_project.Prelude.{
  ℕ, ◌+◌, ◌-◌, ◌^◌, ltb, leb, ◌==◌, ◌&&◌, not, if◌then◌else◌, List, [], ◌∷◌, ◌++◌, length, drop,
  replicate, Option, none, some, Outcome, ok, abort, fault, ◌>>=◌, ◌>>◌,
}
use machine_project.Prelude.Strings.{same_string, c_string}
use machine_project.Sockets.Files.{block_size}
use machine_project.FileTransfer.{
  Connection, next_call, receive, send, receive_file, send_file, size_bytes, size_of_bytes,
}
use machine_project.FileTransfer.Server.{
  Verb, get_verb, put_verb, delete_verb, list_verb, v_unknown, ok_text, error_text, Disk, look,
  write_disk, receive_negative,
}
use machine_project.FileTransfer.Arguments.{Args, check_args, parse_args}

-- A line of bytes, the message of print_success, that of print_error_message, and the names of LIST with
-- their size.
pub data Message : Type 0 where
  text error_message : List ℕ → Message
  success : Message
  name_list : ℕ → List ℕ → Message

pub record Client : Type 0 where
  pub disk : Disk
  pub connection : Connection
  pub printed : List Message

-- The result of read_all_from_socket or write_all_to_socket.
unfoldable pub check_all_to_socket : Option ℕ → Outcome (Unit {0})
check_all_to_socket none = abort
check_all_to_socket (some n) = if n == 0 then abort else ok tt

unfoldable pub check_size : ℕ → ℕ → Outcome (Unit {0})
check_size size actual_size =
    if actual_size == 0 && not (size == 0)
    then abort
    else if ltb actual_size size
    then abort
    else if ltb size actual_size
    then abort
    else ok tt

-- A pointer that is passed on or read.
unfoldable pub given : Option (List ℕ) → Outcome (List ℕ)
given none = fault
given (some s) = ok s

unfoldable pub request_text : Verb → Args → Outcome (List ℕ)
request_text list_verb a = ok (a.method ++ (10 ∷ []))
request_text _ a = given a.remote >>= λ remote. ok (a.method ++ (32 ∷ remote ++ 10 ∷ []))

unfoldable pub say_request : List ℕ → Client → Outcome Client
say_request request c = do
  r ← send request c.connection
  check_all_to_socket r.0
  elim r.0 [
    | none ↦ abort
    | some write_size ↦
        if ltb write_size (length request) then abort else ok (record c { connection = r.1 })
  ]

unfoldable pub say_size : ℕ → Client → Outcome Client
say_size size c = do
  r ← send (size_bytes size) c.connection
  check_all_to_socket r.0
  ok (record c { connection = r.1 })

unfoldable pub say_file : List ℕ → Client → Outcome Client
say_file file c = do
  r ← send_file (length file) file c.connection
  if r.0 == 0 then ok (record c { connection = r.1 }) else abort

-- `stat` and `fopen` of the same file; a file has less than 2 ^ 63 bytes.
unfoldable pub upload : Option (List ℕ) → Client → Outcome Client
upload local c = given local >>= λ path. elim (look path c.disk.files) [
  | none ↦ abort
  | some file ↦ say_size (length file) c >>= say_file file
]

unfoldable pub write_request : Verb → Args → Client → Outcome Client
write_request put_verb a c =
    request_text put_verb a >>= λ request. say_request request c >>= upload a.local
write_request v a c = request_text v a >>= λ request. say_request request c

unfoldable pub print : Message → Client → Client
print m c = record c { printed = c.printed ++ m ∷ [] }

-- A size that comes in front of a file or a list.
unfoldable pub receive_size : Client → Outcome (ℕ × Client)
receive_size c = do
  r ← receive 8 c.connection
  check_all_to_socket r.0
  size ← size_of_bytes r.1
  ok (size, record c { connection = r.2 })

-- As in the server: a size from 2 ^ 63 on is negative, and no count is equal to it.
unfoldable pub download_bytes : List ℕ → ℕ → Client → Outcome Client
download_bytes path size c =
    if ltb size (2 ^ 63 - block_size)
    then (do
      r ← receive_file size c.connection
      check_size size r.0
      ok (record c { disk = write_disk path r.1 c.disk; connection = r.2 }))
    else if ltb size (2 ^ 63)
    then fault
    else (do
      a ← next_call c.connection.schedules
      n ← receive_negative block_size (size + block_size - 2 ^ 64) 0 c.connection.incoming a.0
      abort)

unfoldable pub download : Option (List ℕ) → Client → Outcome Client
download local c = given local >>= λ path.
    (if c.disk.writable path
      then (receive_size (record c { disk = write_disk path [] c.disk }) >>= λ r.
          download_bytes path r.0 r.1)
      else abort)

-- fopen(args[4], "r") behind the success of DELETE.
unfoldable pub look_after : Option (List ℕ) → Client → Outcome Client
look_after local c =
    given local >>= λ path. elim (look path c.disk.files) [ none ↦ abort | some file ↦ ok c ]

-- -1 is more than any size as a size_t. The array is taken to fit on the stack; its size wraps at 2 ^ 64.
unfoldable pub receive_names : ℕ → Client → Outcome Client
receive_names size c = if leb (2 ^ 64 - 6) size then fault else (do
  r ← receive (size + 5) c.connection
  elim r.0 [
    | none ↦ abort
    | some num_read ↦
        check_size size num_read
        >> ok (print (name_list size (c_string r.1)) (record c { connection = r.2 }))
  ])

unfoldable pub accept_answer : Verb → Args → Client → Outcome Client
accept_answer get_verb a c = download a.local c
accept_answer delete_verb a c = look_after a.local (print success c)
accept_answer put_verb a c = ok (print success c)
accept_answer list_verb a c = receive_size c >>= λ r. receive_names r.0 r.1
accept_answer v_unknown a c = ok c

-- The buffer behind realloc: the bytes that were received, then what calloc left of the first four and
-- the three bytes `fresh` that nothing was written to.
unfoldable pub error_buffer : List ℕ → List ℕ → List ℕ → List ℕ
error_buffer first second fresh =
    let got = first ++ second in
    got ++ drop (length second) (replicate (4 - length first) 0 ++ fresh)

unfoldable pub read_message : Client → Outcome Client
read_message c = do
  m ← receive 50 c.connection
  check_all_to_socket m.0
  ok (print (error_message m.1) (record c { connection = m.2 }))

unfoldable pub reject_answer : List ℕ → List ℕ → Client → Outcome Client
reject_answer fresh first c = do
  r ← receive (6 - length first) c.connection
  check_all_to_socket r.0
  if same_string (c_string (error_buffer first r.1 fresh)) error_text
      then read_message (record c { connection = r.2 })
      else abort

unfoldable pub read_response : List ℕ → Verb → Args → Client → Outcome Client
read_response fresh v a c = do
  r ← receive 3 c.connection
  check_all_to_socket r.0
  if same_string (c_string r.1) ok_text
      then accept_answer v a (print (text ok_text) (record c { connection = r.2 }))
      else reject_answer fresh r.1 (record c { connection = r.2 })

unfoldable pub run_client : List ℕ → Args → Client → Outcome Client
run_client fresh a c = check_args a >>= λ v. write_request v a c >>= read_response fresh v a

-- `fresh` are the last three bytes of the realloc, should it come to that.
unfoldable pub client_main : List ℕ → List (List ℕ) → Client → Outcome Client
client_main fresh argv c = elim (parse_args argv) [ none ↦ abort | some a ↦ run_client fresh a c ]
