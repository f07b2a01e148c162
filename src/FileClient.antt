-- ===== src/FileClient.antt =====
-- nonstop_networking/client.c: the command line, the requests, and what is done with the replies.
-- What is written is taken to be delivered. `none` is a read that blocks, or a fault. The client's own
-- files are its disk; what it prints is a list of events.
pub mod Receives
pub mod Download
pub mod Exchange
pub mod Copies
mod Tests
use cs.Prelude.{
  ℕ, zero, suc, ◌+◌, ◌-◌, ◌*◌, ◌^◌, ◌<◌, Option, none, some, is_some, List, [], ◌∷◌, ◌++◌, Bool,
  true, false, ◌==◌, ltb, ◌&&◌, if◌then◌else◌, length, take, drop, replicate, map, ◌>>=◌,
}
use cs.Prelude.Chars.{str_eq, to_upper}
use cs.Socket.{Status, all, ended, error, read_retry}
use cs.FileServer.{
  Bytes, Verb, get_verb, put_verb, delete_verb, list_verb, Conn, send, ok_line, error_line,
  c_string, of_bytes, to_bytes, put_word, get_word,
}

-- what the client prints
pub data Event : Type 0 where
  success invalid_response too_little_data received_too_much_data : Event
  text error_message : Bytes → Event

pub record Client : Type 0 where
  pub conn : Conn
  pub disk : Bytes → Option Bytes
  pub events : List Event

abbrev pub print : Event → Client → Client
print e c = record c { events = c.events ++ (e ∷ []) }

-- `strtok(s, ":")`: the token, and what is left behind it
skip_colons : Bytes → Bytes
skip_colons [] = []
skip_colons (c ∷ cs) = let rest = skip_colons cs in if c == 58 then rest else c ∷ cs

until_colon : Bytes → Bytes × Bytes
until_colon [] = ([], [])
until_colon (c ∷ cs) =
    let (token, rest) = until_colon cs in if c == 58 then ([], cs) else (c ∷ token, rest)

pub token : Bytes → Option (Bytes × Bytes)
unfolding skip_colons until_colon
token s = elim (skip_colons s) [ [] ↦ none | c ∷ cs ↦ some (until_colon (c ∷ cs)) ]

pub record Args : Type 0 where
  pub host : Bytes
  pub port : Bytes
  pub method : Bytes
  pub remote : Option Bytes
  pub local : Option Bytes

abbrev pub nth : List Bytes → ℕ → Option Bytes
nth [] i = none
nth (a ∷ rest) zero = some a
nth (a ∷ rest) (suc i) = nth rest i

-- `argv` with the name of the program; a host is there wherever a port is.
pub parse_args : (argv : List Bytes) → Option Args
unfolding token
parse_args argv = do
  address ← nth argv 1
  method ← nth argv 2
  (host, rest) ← token address
  (port, left) ← token rest
  some (record {
    host = host;
    port = port;
    method = map to_upper method;
    remote = nth argv 3;
    local = nth argv 4;
  })

-- How the program exits: with the usage, or with the help.
pub data Exit : Type 0 where
  usage help : Exit

pub data Checked : Type 0 where
  verb : Verb → Checked
  exit : Exit → Checked

abbrev pub list_text : Bytes
list_text = 76 ∷ 73 ∷ 83 ∷ 84 ∷ []

abbrev pub delete_text : Bytes
delete_text = 68 ∷ 69 ∷ 76 ∷ 69 ∷ 84 ∷ 69 ∷ []

abbrev given : Bool → Verb → Checked
given there v = if there then verb v else exit help

pub check_args : Option Args → Checked
check_args none = exit usage
check_args (some args) =
    let both = is_some args.remote && is_some args.local in
    if str_eq args.method list_text
    then verb list_verb
    else if str_eq args.method get_word
    then given both get_verb
    else if str_eq args.method delete_text
    then given (is_some args.remote) delete_verb
    else if str_eq args.method put_word
    then given both put_verb
    else exit help

pub message : Verb → (remote : Bytes) → Bytes
message get_verb remote = get_word ++ (32 ∷ remote ++ (10 ∷ []))
message put_verb remote = put_word ++ (32 ∷ remote ++ (10 ∷ []))
message delete_verb remote = delete_text ++ (32 ∷ remote ++ (10 ∷ []))
message list_verb remote = list_text ++ (10 ∷ [])

-- `read_all_from_socket` of the client, which tries again after any error
pub receive : ℕ → Client → Option (Status × Bytes × Client)
receive count c = do
  r ← read_retry count [] c.conn.socket.stream c.conn.socket.choices
  some (r.status, r.bytes, record c { conn = record c.conn { socket = r.socket } })

abbrev pub send_to : Bytes → Client → Client
send_to bytes c = record c { conn = send bytes c.conn }

-- `count` bytes of a cleared buffer that `bytes` were read into
abbrev pub cleared : ℕ → Bytes → Bytes
cleared count bytes = bytes ++ replicate (count - length bytes) 0

pub get_message_size : Client → Option (ℕ × Client)
unfolding receive
get_message_size c = do
  (status, bytes, c') ← receive 8 c
  some (elim status [ all ↦ of_bytes bytes | ended ↦ 0 | error ↦ 2 ^ 64 - 1 ], c')

-- `check_error`, with the three bytes of the buffer
pub check_error : Bytes → Client → Option Client
unfolding receive
check_error buf c = do
  (status, more, c') ← receive 3 c
  let line = buf ++ more
  let shown = print (text (c_string line)) c'
  let reported = (do
    (status', bytes, c'') ← receive 1024 shown
    some (print (error_message (c_string (bytes ++ drop (length bytes) line))) c''))
  if str_eq (c_string line) error_line then reported else some (print invalid_response shown)

-- The request that is in `buf` is sent, and the first three bytes of the reply are read.
pub ask : Bytes → Client → Option (Bytes × Client)
unfolding receive
ask buf c = do
  (status, bytes, c') ← receive 3 (send_to (c_string buf) c)
  some (cleared 3 bytes, c')

abbrev pub is_ok : Bytes → Bool
is_ok buf = str_eq (c_string buf) ok_line

pub delete : (remote : Bytes) → Client → Option Client
unfolding ask message check_error
delete remote c = do
  (buf, c') ← ask (message delete_verb remote) c
  let failed = check_error buf c'
  if is_ok buf then some (print success c') else failed

-- `behind` is what the memory holds behind the listing, up to a null byte.
pub list : (behind : Bytes) → Client → Option Client
unfolding ask message check_error get_message_size
list behind c = do
  (buf, c') ← ask (message list_verb []) c
  let failed = check_error buf c'
  let shown = (do
    (size, c'') ← get_message_size c'
    let listed = (do
      (status, bytes, c3) ← receive size c''
      some (print (text (c_string (bytes ++ behind))) c3))
    if size == 0 then some c'' else listed)
  if is_ok buf then shown else failed

-- `actual` is 0 where the stream ended, and then the file is written all the same.
pub save : (local : Bytes) (size : ℕ) → Client → Option Client
unfolding receive
save local size c = do
  (status, bytes, c') ← receive size c
  let actual : ℕ = elim status [ all ↦ size | ended ↦ 0 | error ↦ 2 ^ 64 - 1 ]
  let warned = if ltb actual size then print too_little_data c' else c'
  (status', further, c'') ← receive 1 warned
  let stored = record c'' {
    disk = λ other. if str_eq other local then some (c_string bytes) else c''.disk other;
  }
  some (elim status' [
    | ended ↦ stored
    | all ↦ print received_too_much_data c''
    | error ↦ print received_too_much_data c''
  ])

pub get : (remote local : Bytes) → Client → Option Client
unfolding ask message check_error get_message_size save
get remote local c = do
  (buf, c') ← ask (message get_verb remote) c
  let failed = check_error buf c'
  let saved = (do (size, c'') ← get_message_size c'; save local size c'')
  if is_ok buf then saved else failed

-- A local file that is not there is closed all the same, a fault.
pub put : (remote local : Bytes) → Client → Option Client
unfolding ask message check_error
put remote local c = do
  content ← c.disk local
  let asked =
      send_to content
        (send_to (to_bytes 8 (length content)) (send_to (c_string (message put_verb remote)) c))
  (buf, c') ← ask [] asked
  let failed = check_error buf c'
  if is_ok buf then some (print success c') else failed
