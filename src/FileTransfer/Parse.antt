-- ===== src/FileTransfer/Parse.antt =====
-- server.c: the scan of a request by sscanf(buffer, "%s %s", command, file_name).
use machine_project.Prelude.{
  ℕ, ◌+◌, ◌<◌, ◌≡◌, refl, leb, ◌==◌, ◌||◌, ◌&&◌, not, if◌then◌else◌, Bool, true, false, List, [],
  ◌∷◌, ◌++◌, length, append_assoc, length-append, Outcome, ok, fault, arith,
}
use machine_project.Prelude.Ctype.{is_space}
use machine_project.Prelude.Strings.{c_string, skip_space}
use machine_project.Sockets.Lines.{first_line}

-- %s: the characters up to a space, and what comes behind them.
unfoldable pub scan_word : List ℕ → List ℕ × List ℕ
scan_word [] = ([], [])
scan_word (c ∷ s) =
    let rest = scan_word s in if is_space c then ([], c ∷ s) else (c ∷ rest.0, rest.1)

-- The number of words that were stored, and the words.
pub record Request : Type 0 where
  pub num : ℕ
  pub command : List ℕ
  pub file_name : List ℕ

unfoldable pub count_words : List ℕ → List ℕ → ℕ
count_words [] name = 0
count_words (c ∷ command) [] = 1
count_words (c ∷ command) (d ∷ name) = 2

-- The arrays have 10 and 255 characters, one of them for the NUL, and sscanf does not look at that; the
-- buffer has to hold a NUL.
unfoldable pub scan_request : List ℕ → Outcome Request
unfolding skip_space scan_word count_words c_string is_space
scan_request buffer =
    let first = scan_word (skip_space (c_string buffer)) in
    let second = scan_word (skip_space first.1) in
    if leb 1024 (length (c_string buffer)) || leb 10 (length first.0) || leb 255 (length second.0)
    then fault
    else ok (record { num = count_words first.0 second.0; command = first.0; file_name = second.0 })

-- A word has characters that are neither a space nor NUL.
unfoldable pub is_word : List ℕ → Bool
is_word [] = true
is_word (c ∷ s) = not (is_space c || c == 0) && is_word s

scan_word-word :
    (word more : List ℕ) (c : ℕ)
    → is_word word ≡ true
    → is_space c ≡ true
    → scan_word (word ++ c ∷ more) ≡ (word, c ∷ more)
unfolding scan_word is_word
scan_word-word [] more c w e = rw e
scan_word-word (d ∷ word) more c w e =
    let (none_of, rest) : (is_space d ≡ false) × (is_word word ≡ true) = ground arith in
    rw (none_of, scan_word-word word more c rest e)

skip_space-word :
    (word more : List ℕ)
    → 0 < length word
    → is_word word ≡ true
    → skip_space (word ++ more) ≡ word ++ more
unfolding skip_space is_word
skip_space-word [] more h w = absurd (omega arith)
skip_space-word (c ∷ word) more h w = let none_of : is_space c ≡ false = ground arith in rw none_of

c_string-word :
    (word more : List ℕ) → is_word word ≡ true → c_string (word ++ more) ≡ word ++ c_string more
unfolding c_string is_word
c_string-word [] more w = refl
c_string-word (c ∷ word) more w =
    let (none_of, rest) : ((c == 0) ≡ false) × (is_word word ≡ true) = ground arith in
    rw (none_of, c_string-word word more rest)

pub first_line-word :
    (word more : List ℕ) → is_word word ≡ true → first_line (word ++ more) ≡ word ++ first_line more
unfolding first_line is_word is_space
first_line-word [] more w = refl
first_line-word (c ∷ word) more w =
    let (none_of, rest) : ((c == 10) ≡ false) × (is_word word ≡ true) = ground arith in
    rw (none_of, first_line-word word more rest)

pub first_line-request_line :
    (command name more : List ℕ)
    → is_word command ≡ true
    → is_word name ≡ true
    → first_line ((command ++ (32 ∷ name ++ 10 ∷ [])) ++ more) ≡ (command ++ (32 ∷ name ++ 10 ∷ []))
unfolding first_line
first_line-request_line command name more w v =
    rw (append_assoc command (32 ∷ name ++ 10 ∷ []) more, append_assoc name (10 ∷ []) more)
      (rw (first_line-word command (32 ∷ name ++ 10 ∷ more) w, first_line-word name (10 ∷ more) v))

pub length-request_line :
    (command name : List ℕ)
    → length (command ++ (32 ∷ name ++ 10 ∷ [])) ≡ length command + length name + 2
length-request_line command name =
    omega (arith, length-append command (32 ∷ name ++ 10 ∷ []), length-append name (10 ∷ []))

c_string-request_line :
    (command name : List ℕ)
    → is_word command ≡ true
    → is_word name ≡ true
    → c_string (command ++ (32 ∷ name ++ 10 ∷ [])) ≡ (command ++ (32 ∷ name ++ 10 ∷ []))
unfolding c_string
c_string-request_line command name w v =
    rw (c_string-word command (32 ∷ name ++ 10 ∷ []) w, c_string-word name (10 ∷ []) v)

count_words-two :
    (command name : List ℕ) → 0 < length command → 0 < length name → count_words command name ≡ 2
unfolding count_words
count_words-two [] name h k = absurd (omega arith)
count_words-two (c ∷ command) [] h k = absurd (omega arith)
count_words-two (c ∷ command) (d ∷ name) h k = refl

pub scan_request-request_line :
    (command name : List ℕ)
    → is_word command ≡ true
    → is_word name ≡ true
    → 0 < length command
    → length command < 10
    → 0 < length name
    → length name < 255
    → scan_request (command ++ (32 ∷ name ++ 10 ∷ []))
      ≡ ok (record { num = 2; command = command; file_name = name })
unfolding scan_request skip_space is_space
scan_request-request_line command name w v h few k short =
    let whole = c_string-request_line command name w v in
    let skips = skip_space-word command (32 ∷ name ++ 10 ∷ []) h w in
    let first = scan_word-word command (name ++ 10 ∷ []) 32 w refl in
    let skips' = skip_space-word name (10 ∷ []) k v in
    let second = scan_word-word name [] 10 v refl in
    let n = length-request_line command name in
    let tests : (leb 1024 (length (command ++ (32 ∷ name ++ 10 ∷ [])))
          || leb 10 (length command)
          || leb 255 (length name))
        ≡ false =
      ground (arith, n) in
    rw (whole, skips, first, skips', second, tests, count_words-two command name h k)
