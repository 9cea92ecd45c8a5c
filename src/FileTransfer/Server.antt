-- ===== src/FileTransfer/Server.antt =====
-- server.c: the operations on the files, the names and their sizes, and the handlers of the four commands.
-- file_size_dict is a dictionary of a library; what is used of it is the interface `Dictionary`.
-- `abort` is an exit(EXIT_FAILURE), which ends the server.
use machine_project.Prelude.{
  ℕ, zero, suc, ◌+◌, ◌-◌, ◌≡◌, ltb, ◌==◌, if◌then◌else◌, List, [], ◌∷◌, ◌++◌, Option, none, some,
  Bool, true, false, Outcome, ok, hang, ◌>>=◌,
}
use machine_project.Prelude.Strings.{codes, same_string}
use machine_project.Sockets.{Answer, read_all_from_socket}
use machine_project.FileTransfer.{Connection}

pub data Verb : Type 0 where
  get_verb put_verb delete_verb list_verb v_unknown : Verb

pub record Dictionary : Type 1 where
  pub Entries : Type 0
  pub dictionary_get : List ℕ → Entries → Option ℕ
  pub dictionary_set : List ℕ → ℕ → Entries → Entries
  pub dictionary_remove : List ℕ → Entries → Entries
  pub get-set :
      (key : List ℕ) (n : ℕ) (d : Entries) → dictionary_get key (dictionary_set key n d) ≡ some n

-- A struct client_info comes from malloc and is not initialised: its first values are arbitrary. A
-- negative error_type is treated as 0 is, and a command that is no verb as V_UNKNOWN.
pub record ClientInfo : Type 0 where
  pub file_name : List ℕ
  pub ready_parse : ℕ
  pub ready_exec : ℕ
  pub error_type : ℕ
  pub command : Verb

-- The texts of format.c, which is not in the repository.
pub record Texts : Type 0 where
  pub err_bad_request : List ℕ
  pub err_bad_file_size : List ℕ
  pub err_no_such_file : List ℕ

abbrev pub ok_text : List ℕ
ok_text = codes "OK\n"

abbrev pub error_text : List ℕ
error_text = codes "ERROR\n"

abbrev pub max_filename_size : ℕ
max_filename_size = 255

-- The file system: the files by their path. fopen(path, "w") is NULL where a path is not `writable`.
pub record Disk : Type 0 where
  pub writable : List ℕ → Bool
  pub files : List (List ℕ × List ℕ)

unfoldable pub look : List ℕ → List (List ℕ × List ℕ) → Option (List ℕ)
unfolding same_string
look path [] = none
look path (f ∷ files) = if same_string path f.0 then some f.1 else look path files

unfoldable pub remove : List ℕ → List (List ℕ × List ℕ) → List (List ℕ × List ℕ)
unfolding same_string
remove path [] = []
remove path (f ∷ files) =
    let rest = remove path files in if same_string path f.0 then rest else f ∷ rest

unfoldable pub write_disk : List ℕ → List ℕ → Disk → Disk
unfolding remove
write_disk path bytes d = record d { files = (path, bytes) ∷ remove path d.files }

unfoldable pub remove_disk : List ℕ → Disk → Disk
unfolding remove
remove_disk path d = record d { files = remove path d.files }

unfoldable pub path_of : List ℕ → List ℕ → List ℕ
path_of directory file_name = directory ++ 47 ∷ file_name

-- The index of the first name that is `name`, and vector_erase.
unfoldable pub find_name : List ℕ → List (List ℕ) → Option ℕ
unfolding same_string
find_name name [] = none
find_name name (x ∷ names) =
    let rest = find_name name names in
    if same_string name x then some 0 else elim rest [ none ↦ none | some i ↦ some (suc i) ]

unfoldable pub erase_name : ℕ → List (List ℕ) → List (List ℕ)
erase_name i [] = []
erase_name zero (x ∷ names) = names
erase_name (suc i) (x ∷ names) = x ∷ erase_name i names

-- A ssize_t `size` that is negative, as a number of 64 bits: what the receiving half of
-- help_write_read_file asks for is size + 1024 bytes in all, nothing where this is not positive.
unfoldable pub receive_negative : ℕ → ℕ → ℕ → List ℕ → List Answer → Outcome ℕ
receive_negative zero room count incoming answers = if ltb count room then hang else ok count
receive_negative (suc fuel) room count incoming answers =
    if ltb count room
    then (do
      t ← read_all_from_socket (room - count) [] incoming answers
      elim t.result [
        | none ↦ ok count
        | some read_size ↦ elim (read_size == 0) [
          | true ↦ ok count
          | false ↦ receive_negative fuel room (count + read_size) t.incoming t.answers
        ]
      ])
    else ok count

module _ (D : Dictionary) where
  pub record FileServer : Type 0 where
    pub directory : List ℕ
    pub disk : Disk
    pub names : List (List ℕ)
    pub sizes : D.Entries

  -- The server, the entry of connect_status_dict for a client, and the client's connection.
  pub record Session : Type 0 where
    pub server : FileServer
    pub info : ClientInfo
    pub connection : Connection
