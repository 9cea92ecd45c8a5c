-- ===== src/Sockets.antt =====
-- nonstop_networking/common.c: reading and writing all of a buffer over a socket, and messages with
-- their size in front. The kernel's answers to the calls of read and write are a list: `give k` moves
-- up to k + 1 bytes, `closed` is the return value 0, `interrupted` is -1 with EINTR and `refused` is -1
-- with another errno. When the answers run out the caller waits for ever (`hang`).
pub mod Schedules
pub mod Reads
pub mod Writes
pub mod Messages
pub mod Lines
pub mod Files
pub mod Sending
pub mod Receiving
mod Examples
use machine_project.Prelude.{
  ℕ, suc, ◌+◌, ◌-◌, ◌*◌, ◌/◌, ◌%◌, ◌^◌, min, ltb, ◌==◌, if◌then◌else◌, List, [], ◌∷◌, ◌++◌, length,
  take, drop, Option, none, some, Outcome, ok, fault, hang, ◌>>=◌,
}

pub data Answer : Type 0 where
  give : ℕ → Answer
  closed interrupted refused : Answer

-- The return value (`none` is -1), the bytes moved, what is left to receive, and the answers left.
pub record Transfer : Type 0 where
  pub result : Option ℕ
  pub buffer : List ℕ
  pub incoming : List ℕ
  pub answers : List Answer

abbrev pub finish : Option ℕ → List ℕ → List ℕ → List Answer → Outcome Transfer
finish result buffer incoming answers =
    ok (record { result = result; buffer = buffer; incoming = incoming; answers = answers })

-- The loop from the moment that `buffer` holds `returnit` bytes. `give` at the end of the stream is 0.
unfoldable pub read_all_from_socket : ℕ → List ℕ → List ℕ → List Answer → Outcome Transfer
read_all_from_socket count buffer incoming [] =
    if ltb (length buffer) count then hang else finish (some (length buffer)) buffer incoming []
read_all_from_socket count buffer incoming (a ∷ rest) =
    if ltb (length buffer) count
    then (elim a [
      | give k ↦
          let bytes = take (min (suc k) (count - length buffer)) incoming in
          let on =
            read_all_from_socket count (buffer ++ bytes) (drop (length bytes) incoming) rest in
          if length bytes == 0 then finish (some (length buffer)) buffer incoming rest else on
      | closed ↦ finish (some (length buffer)) buffer incoming rest
      | interrupted ↦ read_all_from_socket count buffer incoming rest
      | refused ↦ finish none buffer incoming rest
    ])
    else finish (some (length buffer)) buffer incoming (a ∷ rest)

-- The bytes of `message` that were sent are `buffer`; nothing is received.
unfoldable pub write_all_to_socket : List ℕ → List ℕ → List Answer → Outcome Transfer
write_all_to_socket message buffer [] =
    if ltb (length buffer) (length message)
    then hang
    else finish (some (length buffer)) buffer [] []
write_all_to_socket message buffer (a ∷ rest) =
    if ltb (length buffer) (length message)
    then (elim a [
      | give k ↦
          let room = min (suc k) (length message - length buffer) in
          write_all_to_socket message (buffer ++ take room (drop (length buffer) message)) rest
      | closed ↦ finish (some (length buffer)) buffer [] rest
      | interrupted ↦ write_all_to_socket message buffer rest
      | refused ↦ finish none buffer [] rest
    ])
    else finish (some (length buffer)) buffer [] (a ∷ rest)
