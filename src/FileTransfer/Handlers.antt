-- ===== src/FileTransfer/Handlers.antt =====
-- server.c: the handlers of the four commands.
use machine_project.Prelude.{
  ℕ, ◌+◌, ◌-◌, ◌^◌, ltb, ◌==◌, if◌then◌else◌, List, [], ◌∷◌, ◌++◌, length, take, Option, none, some,
  Bool, true, false, Outcome, ok, abort, fault, ◌>>=◌,
}
use machine_project.Prelude.Strings.{codes}
use machine_project.Sockets.Files.{block_size}
use machine_project.FileTransfer.{
  next_call, receive, send, receive_file, send_file, size_bytes, size_of_bytes,
}
use machine_project.FileTransfer.Server.{
  Dictionary, ok_text, max_filename_size, Disk, look, write_disk, remove_disk, path_of, find_name,
  erase_name, receive_negative, FileServer, Session,
}

module _ (D : Dictionary) where
  -- A write_all_to_socket whose result is not tested.
  unfoldable pub say : List ℕ → Session D → Outcome (Session D)
  say text s = do r ← send text s.connection; ok (record s { connection = r.1 })

  -- strlen(directory) + strlen(info->file_name) + SPACE_SIZE - 1 is more than MAX_FILENAME_SIZE.
  abbrev pub is_long : Session D → Bool
  is_long s = ltb max_filename_size (length s.server.directory + length s.info.file_name + 2)

  abbrev pub path : Session D → List ℕ
  path s = path_of s.server.directory s.info.file_name

  abbrev pub with_disk : Disk → FileServer D → FileServer D
  with_disk disk server = record server { disk = disk }

  abbrev pub with_error : ℕ → Session D → Session D
  with_error e s = record s { info = record s.info { error_type = e } }

  -- fopen(path, "w"), after a name that is not on the disk was added to the list.
  unfoldable pub open_new : Session D → FileServer D
  open_new s =
      let names : List (List ℕ) = elim (look (path s) s.server.disk.files) [
        | none ↦ s.server.names ++ s.info.file_name ∷ []
        | some old ↦ s.server.names
      ] in
      record s.server { disk = write_disk (path s) [] s.server.disk; names = names }

  -- What the file has received is written, and `count` is compared with `size`.
  unfoldable pub close_file : ℕ → ℕ → List ℕ → Session D → Outcome (ℕ × Session D)
  close_file size count bytes s =
      if count == size
      then ok (
        0,
        record s {
          server = record s.server {
            disk = write_disk (path s) bytes s.server.disk;
            sizes = D.dictionary_set s.info.file_name size s.server.sizes;
          };
        },
      )
      else abort

  -- A size of 2 ^ 63 and more is negative as a ssize_t, and the count is then never equal to it; a
  -- little less than 2 ^ 63, and `size + BLK_SIZE` overflows.
  unfoldable pub put_bytes : ℕ → Session D → Outcome (ℕ × Session D)
  put_bytes size s =
      if ltb size (2 ^ 63 - block_size)
      then (do
        r ← receive_file size s.connection
        close_file size r.0 r.1 (record s { connection = r.2 }))
      else if ltb size (2 ^ 63)
      then fault
      else (do
        a ← next_call s.connection.schedules
        n ← receive_negative block_size (size + block_size - 2 ^ 64) 0 s.connection.incoming a.0
        abort)

  -- The file is open, and its size comes.
  unfoldable pub put_size : Option ℕ → List ℕ → Session D → Outcome (ℕ × Session D)
  put_size num_read bytes s =
      let failed =
        ok (1, record s { server = with_disk (remove_disk (path s) s.server.disk) s.server }) in
      elim num_read [
        | none ↦ failed
        | some n ↦ elim (n == 0) [
          | true ↦ failed
          | false ↦ size_of_bytes bytes >>= λ size. put_bytes size s
        ]
      ]

  -- The return value; fclose of NULL where the file cannot be opened for writing.
  unfoldable pub help_put : Session D → Outcome (ℕ × Session D)
  help_put s =
      if is_long s
      then abort
      else if s.server.disk.writable (path s)
      then (do
        r ← receive 8 s.connection
        put_size r.0 r.1 (record s { server = open_new s; connection = r.2 }))
      else fault

  -- The size, and the file in blocks; both are sent, or the server ends. A missing key would give
  -- NULL, which is read.
  unfoldable pub get_bytes : List ℕ → Session D → Outcome (Session D)
  get_bytes file s = elim (D.dictionary_get s.info.file_name s.server.sizes) [
    | none ↦ fault
    | some size ↦ do
      r ← send (size_bytes size) s.connection
      elim r.0 [
        | none ↦ abort
        | some n ↦ do
          f ← send_file size file r.1
          if f.0 == 0 then ok (record s { connection = f.1 }) else abort
      ]
  ]

  unfoldable pub help_get : Session D → Outcome (Session D)
  help_get s = if is_long s then abort else elim (look (path s) s.server.disk.files) [
    | none ↦ ok (with_error 3 s)
    | some file ↦ say ok_text s >>= get_bytes file >>= λ t. ok (with_error 3 t)
  ]

  -- snprintf keeps what fits into the array.
  unfoldable pub help_delete : Session D → Outcome (Session D)
  help_delete s =
      let short = take (max_filename_size - 1) (path s) in
      elim (look short s.server.disk.files) [
        | none ↦ ok (with_error 3 s)
        | some old ↦
            let gone = record s.server {
              disk = remove_disk short s.server.disk;
              sizes = D.dictionary_remove s.info.file_name s.server.sizes;
            } in
            elim (find_name s.info.file_name s.server.names) [
              | none ↦ ok (with_error 3 (record s { server = gone }))
              | some i ↦
                  say ok_text
                    (record s { server = record gone { names = erase_name i s.server.names } })
            ]
      ]

  -- The lengths of the names, added to `size`.
  unfoldable pub add_lengths : ℕ → List (List ℕ) → ℕ
  add_lengths size [] = size
  add_lengths size (x ∷ names) = add_lengths (size + length x) names

  unfoldable pub say_names : List (List ℕ) → Session D → Outcome (Session D)
  say_names [] s = ok s
  say_names (x ∷ []) s = say x s
  say_names (x ∷ y ∷ names) s = say x s >>= say (codes "\n") >>= say_names (y ∷ names)

  unfoldable pub help_list : Session D → Outcome (Session D)
  help_list s = say ok_text s >>= λ t.
      (let num_files = length t.server.names in
        if num_files == 0
        then say (size_bytes 0) t
        else (say (size_bytes (add_lengths (num_files - 1) t.server.names)) t
            >>= say_names t.server.names))
