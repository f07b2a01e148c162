-- ===== src/FileServer.antt =====
-- nonstop_networking/server.c: the verbs of the file server, one connection at a time.
-- A connection is its socket and the bytes sent back so far: replies are taken to be delivered, as
-- `write_all_to_socket` does when no call fails. The files are the list of names and the disk under the
-- server's directory. `none` is a call that blocks, a loop that does not end, or a fault.
-- `opens` says of which names `open` can create or truncate the file. Two names without a slash are two
-- files; a name with a slash may be another name for one.
pub mod Verbs
pub mod RoundTrip
pub mod Header
pub mod Serve
mod Tests
use cs.Prelude.{
  ℕ, zero, suc, ◌+◌, ◌-◌, ◌*◌, ◌/◌, ◌%◌, ◌^◌, min, Option, none, some, List, [], ◌∷◌, ◌++◌, Bool,
  true, false, ◌==◌, ltb, if◌then◌else◌, length, take, drop, ◌>>=◌, get_or,
}
use cs.Prelude.Chars.{str_eq}
use cs.Socket.{Socket, Read, Status, all, ended, error, read_all}

abbrev pub Bytes : Type 0
Bytes = List ℕ

-- `verb` of common.h
pub data Verb : Type 0 where
  get_verb put_verb delete_verb list_verb : Verb

pub record Conn : Type 0 where
  pub socket : Socket
  pub reply : Bytes

abbrev pub send : Bytes → Conn → Conn
send bytes c = record c { reply = c.reply ++ bytes }

pub record Files : Type 0 where
  pub names : List Bytes
  pub disk : Bytes → Option Bytes
  pub opens : Bytes → Bool

abbrev pub write_file : Bytes → Option Bytes → Files → Files
write_file name content f = record f {
  disk = λ other. if str_eq other name then content else f.disk other;
}

abbrev pub ok_line : Bytes
ok_line = 79 ∷ 75 ∷ 10 ∷ []

abbrev pub error_line : Bytes
error_line = 69 ∷ 82 ∷ 82 ∷ 79 ∷ 82 ∷ 10 ∷ []

-- a buffer that `calloc` cleared, as a C string
unfoldable pub c_string : Bytes → Bytes
c_string [] = []
c_string (c ∷ cs) = if c == 0 then [] else c ∷ c_string cs

-- the `size_t` at the start of a buffer, least significant byte first, and its eight bytes
unfoldable pub of_bytes : Bytes → ℕ
of_bytes [] = 0
of_bytes (b ∷ bs) = b + 256 * of_bytes bs

unfoldable pub to_bytes : ℕ → ℕ → Bytes
to_bytes zero n = []
to_bytes (suc k) n = n % 256 ∷ to_bytes k (n / 256)

-- What a call reads, and the connection after it; the status is looked at where the code looks at it.
pub receive : ℕ → Conn → Option (Status × Bytes × Conn)
receive count c = do
  r ← read_all count c.socket
  some (r.status, r.bytes, record c { socket = r.socket })

abbrev pub put_word : Bytes
put_word = 80 ∷ 85 ∷ 84 ∷ []

abbrev pub get_word : Bytes
get_word = 71 ∷ 69 ∷ 84 ∷ []

abbrev pub del_word : Bytes
del_word = 68 ∷ 69 ∷ 76 ∷ []

abbrev pub lis_word : Bytes
lis_word = 76 ∷ 73 ∷ 83 ∷ []

-- Read `count` bytes and drop them, then go on with the verb.
skip : ℕ → Conn → Verb → Option (Option Verb × Conn)
skip count c v = do (status, bytes, c') ← receive count c; some (some v, c')

-- The three letters, and what follows them up to the file name.
pub get_cmd : Conn → Option (Option Verb × Conn)
unfolding skip
get_cmd c = do
  (status, bytes, c') ← receive 3 c
  let word = c_string bytes
  if str_eq word put_word
      then skip 1 c' put_verb
      else if str_eq word get_word
      then skip 1 c' get_verb
      else if str_eq word del_word
      then skip 4 c' delete_verb
      else if str_eq word lis_word
      then some (some list_verb, c')
      else some (none, c')

-- `rounds` rounds of the loop of `get_file_name`: a byte each, until it is a newline. `name` is what
-- the buffer holds; a round that reads nothing leaves a 0 there. A newline in
-- the last round is compared with the byte behind the buffer, a fault.
pub get_file_name : ℕ → Bytes → Conn → Option (Option Bytes × Conn)
get_file_name zero name c = some (none, c)
get_file_name (suc rounds) name c = do
  (status, bytes, c') ← receive 1 c
  let b = get_or bytes 0 0
  let more = get_file_name rounds (name ++ (b ∷ [])) c'
  let found = if rounds == 0 then none else some (some (c_string name), c')
  if b == 10 then found else more

-- `get_message_size`: 0 where the stream ends and -1 at an error, as a `size_t`
pub get_message_size : Conn → Option (ℕ × Conn)
get_message_size c = do
  (status, bytes, c') ← receive 8 c
  some (elim status [ all ↦ of_bytes bytes | ended ↦ 0 | error ↦ 2 ^ 64 - 1 ], c')

pub record Request : Type 0 where
  pub verb : Verb
  pub file_name : Bytes
  pub file_size : ℕ

abbrev is_put : Verb → Bool
is_put put_verb = true
is_put v = false

-- the rest of `process_header` once the verb is known
header_of : Verb → Conn → Option (Option Request × Conn)
header_of v c = do
  (name, c') ← get_file_name 256 [] c
  elim name [
    | none ↦ some (none, c')
    | some n ↦
        let plain = some (some (record { verb = v; file_name = n; file_size = 0 }), c') in
        let sized = (do
          (size, c'') ← get_message_size c'
          some (some (record { verb = v; file_name = n; file_size = size }), c'')) in
        if is_put v then sized else plain
  ]

pub process_header : Conn → Option (Option Request × Conn)
unfolding get_cmd get_file_name get_message_size header_of
process_header c = do
  (cmd, c') ← get_cmd c
  elim cmd [ none ↦ some (none, c') | some v ↦ header_of v c' ]

-- the names, with a newline between them
pub listing : List Bytes → Bytes
listing [] = []
listing (n ∷ []) = n
listing (n ∷ m ∷ ns) = n ++ (10 ∷ listing (m ∷ ns))

-- `list_size` as the first loop adds it up, before the last newline is taken off
pub names_size : List Bytes → ℕ
names_size [] = 0
names_size (n ∷ ns) = length n + 1 + names_size ns

pub list : Files → Conn → Conn
unfolding listing names_size
list f c =
    send (listing f.names) (
      send (to_bytes 8 (if length f.names == 0 then 0 else names_size f.names - 1))
        (send ok_line c))

-- the list without the first name that is equal
pub erase_name : Bytes → List Bytes → List Bytes
erase_name name [] = []
erase_name name (n ∷ ns) = if str_eq name n then ns else n ∷ erase_name name ns

pub has_name : Bytes → List Bytes → Bool
has_name name [] = false
has_name name (n ∷ ns) = if str_eq name n then true else has_name name ns

module _ (err_no_such_file err_bad_file_size : Bytes) where
  pub delete : Bytes → Files → Conn → Files × Conn
  unfolding erase_name has_name
  delete name f c =
      if has_name name f.names
      then (record (write_file name none f) { names = erase_name name f.names }, send ok_line c)
      else (f, send err_no_such_file (send error_line c))

  -- The loop of `put`, on fuel: `written` is what the file holds. A chunk that ends early leaves the
  -- request refused; an error of `read` is none of the cases of the code.
  -- Where the file could not be opened, writing a chunk to it tries again for ever.
  pub put_loop : (opened : Bool) → ℕ → ℕ → Bytes → Conn → Option (Bool × Bytes × Conn)
  put_loop opened zero left written c = none
  put_loop opened (suc fuel) left written c =
      let next = (do
        (status, bytes, c') ← receive (min 1024 left) c
        let more = put_loop opened fuel (left - length bytes) (written ++ bytes) c'
        elim status [
          | all ↦ if opened then more else none
          | ended ↦ some (false, written, c')
          | error ↦ none
        ]) in
      if left == 0 then some (true, written, c) else next

  refuse : Bytes → Files → Conn → Files × Conn
  refuse name f c = (write_file name none f, send err_bad_file_size (send error_line c))

  -- A further byte, or an error where the end is expected, is too much.
  finish : Bytes → Bytes → Files → Conn → Option (Files × Conn)
  unfolding refuse
  finish name content f c = do
    (status, bytes, c') ← receive 1 c
    let stored = if f.opens name then write_file name (some content) f else f
    elim status [
      | ended ↦ some (record stored { names = f.names ++ (name ∷ []) }, c')
      | all ↦ some (refuse name f c')
      | error ↦ some (refuse name f c')
    ]

  pub put : Request → Files → Conn → Option (Files × Conn)
  unfolding put_loop finish
  put r f c = do
    (complete, content, c') ← put_loop (f.opens r.file_name) (r.file_size + 1) r.file_size [] c
    let refused = some (refuse r.file_name f c')
    let stored = finish r.file_name content f c'
    if complete then stored else refused

-- the chunks of the loop of `get`, on fuel: 1024 bytes at most, read from the file and sent
pub send_file : ℕ → Bytes → Conn → Conn
send_file zero content c = c
send_file (suc fuel) content c = elim content [
  | [] ↦ c
  | b ∷ bs ↦ send_file fuel (drop 1024 (b ∷ bs)) (send (take 1024 (b ∷ bs)) c)
]

-- `get`: a name that is not listed gets no reply; a file that is listed and gone from the disk is
-- opened and read all the same, a fault.
pub get : Bytes → Files → Conn → Option Conn
unfolding send_file has_name
get name f c =
    let found = (do
      content ← f.disk name
      some (
          send_file (length content) content
            (send (to_bytes 8 (length content)) (send ok_line c)))) in
    if has_name name f.names then found else some c
