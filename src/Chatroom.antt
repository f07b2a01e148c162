-- ===== src/Chatroom.antt =====
-- charming_chatroom: the messages of utils.c, the table of clients and the threads of server.c, and the two
-- threads of client.c.
-- Strings stand without their terminator. What is written is taken to be delivered, and `none` is a read
-- that blocks, an overflow, or a loop that does not end within its fuel.
pub mod Frames
pub mod Broadcast
pub mod Table
pub mod Talk
mod Tests
use cs.Prelude.{
  ℕ, zero, suc, ◌+◌, ◌-◌, ◌*◌, ◌/◌, ◌%◌, ◌^◌, Option, none, some, List, [], ◌∷◌, ◌++◌, Bool, true,
  false, ◌==◌, ltb, if◌then◌else◌, length, set, get_or, ◌>>=◌, replicate, ◌&&◌,
}
use cs.Socket.{Socket, Read, all, ended, error, read_retry}
use cs.FileServer.{Bytes, c_string}

-- `htonl` of a size, as its four bytes, and `ntohl` of four bytes
pub htonl : ℕ → Bytes
htonl size =
    size / 256 / 256 / 256 % 256 ∷ size / 256 / 256 % 256 ∷ size / 256 % 256 ∷ size % 256 ∷ []

abbrev pub digit : Bytes → ℕ → ℕ
digit bytes i = get_or bytes i 0

pub ntohl : Bytes → ℕ
ntohl bytes = digit bytes 3 + 256 * (digit bytes 2 + 256 * (digit bytes 1 + 256 * digit bytes 0))

-- "%s: %s". The lengths are `int`s, whose sum with 4 may overflow: `none`.
pub create_message : (name message : Bytes) → Option Bytes
create_message name message =
    if ltb (length message + length name + 4) (2 ^ 31)
    then some (name ++ (58 ∷ 32 ∷ message))
    else none

-- 0 at the end of the stream; the loop of the chatroom returns no error.
pub get_message_size : Socket → Option (ℕ × Socket)
unfolding ntohl
get_message_size s = do
  r ← read_retry 4 [] s.stream s.choices
  some (elim r.status [ all ↦ ntohl r.bytes | ended ↦ 0 | error ↦ 0 ], r.socket)

pub write_message_size : (size : ℕ) (sent : Bytes) → Bytes
unfolding htonl
write_message_size size sent = sent ++ htonl size

-- A size and as many bytes, as server and client read them: no message where either read ends.
pub next_message : Socket → Option (Option Bytes × Socket)
unfolding get_message_size
next_message s = do
  (size, s') ← get_message_size s
  let body = (do
    r ← read_retry size [] s'.stream s'.choices
    some (elim r.status [ all ↦ some r.bytes | ended ↦ none | error ↦ none ], r.socket))
  if size == 0 then some (none, s') else body

-- A client's slot holds its file descriptor, or -1; `sent` is what was written to each descriptor.
pub record Room : Type 0 where
  pub clients : List (Option ℕ)
  pub clients_count : ℕ
  pub end_session : Bool
  pub sent : ℕ → Bytes

abbrev pub max_clients : ℕ
max_clients = 8

-- the state before the first client is accepted
pub open_room : Room
open_room = record {
  clients = replicate max_clients none;
  clients_count = 0;
  end_session = false;
  sent = λ fd. [];
}

-- the first free slot, taken by `fd`
pub take_slot : (fd : ℕ) → List (Option ℕ) → Option (ℕ × List (Option ℕ))
take_slot fd [] = none
take_slot fd (none ∷ cs) = some (0, some fd ∷ cs)
take_slot fd (some other ∷ cs) = do (idx, cs') ← take_slot fd cs; some (suc idx, some other ∷ cs')

-- What happens to the table once a client is accepted: the index is -1 where no slot was free.
pub accept_client : (fd : ℕ) → Room → Option ℕ × Room
unfolding take_slot
accept_client fd r = elim (take_slot fd r.clients) [
  | none ↦ (none, record r { clients_count = r.clients_count + 1 })
  | some (idx, cs) ↦ (some idx, record r { clients = cs; clients_count = r.clients_count + 1 })
]

abbrev pub put_on : (fd : ℕ) → Bytes → (ℕ → Bytes) → ℕ → Bytes
put_on fd bytes sent other = if other == fd then sent other ++ bytes else sent other

-- The loop over the slots: the size, and then the message.
pub write_each : List (Option ℕ) → (message : Bytes) → (ℕ → Bytes) → ℕ → Bytes
unfolding write_message_size
write_each [] message sent = sent
write_each (none ∷ cs) message sent = write_each cs message sent
write_each (some fd ∷ cs) message sent =
    write_each cs message
      (put_on fd message (put_on fd (write_message_size (length message) []) sent))

pub write_to_clients : (message : Bytes) → Room → Room
unfolding write_each
write_to_clients message r = record r { sent = write_each r.clients message r.sent }

-- what a thread does at its end
pub leave : (idx : ℕ) → Room → Room
leave idx r = record r { clients = set r.clients idx none; clients_count = r.clients_count - 1 }

-- The thread of the client with index `idx`, whose socket is `s`, while no other thread runs.
pub process_client : (fuel idx : ℕ) → Socket → Room → Option Room
unfolding next_message write_to_clients leave
process_client zero idx s r = none
process_client (suc fuel) idx s r =
    let round = (do
      (message, s') ← next_message s
      elim message [
        | none ↦ some (leave idx r)
        | some m ↦ process_client fuel idx s' (write_to_clients m r)
      ]) in
    if r.end_session then some (leave idx r) else round

-- client.c: the lines that the user types, and what is written to the server; the terminator of each message
-- goes with it.
pub write_to_server : (name : Bytes) → (lines : List Bytes) → (sent : Bytes) → Option Bytes
unfolding create_message write_message_size
write_to_server name [] sent = some sent
write_to_server name (line ∷ lines) sent = do
  text ← create_message name line
  let message = text ++ (0 ∷ [])
  write_to_server name lines (write_message_size (length message) sent ++ message)

-- client.c: the messages that come from the server, as they are shown
pub read_from_server : (fuel : ℕ) → Socket → (screen : List Bytes) → Option (List Bytes)
unfolding next_message
read_from_server zero s screen = none
read_from_server (suc fuel) s screen = do
  (message, s') ← next_message s
  elim message [
    | none ↦ some screen
    | some m ↦ read_from_server fuel s' (screen ++ (c_string m ∷ []))
  ]
