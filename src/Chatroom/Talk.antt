-- ===== src/Chatroom/Talk.antt =====
-- From the lines that a user types in client.c over the server of charming_chatroom to the screens.
use cs.Prelude.{
  ◌+◌, ltb, ℕ, zero, suc, ◌-◌, ◌^◌, ◌<◌, ◌≡◌, refl, none, some, List, [], ◌∷◌, ◌++◌, true, false,
  length, map, set, arith, ap, sym, ◌∙◌, length-append, append_assoc, append-nil,
}
use cs.Socket.{Socket, Choice}
use cs.Socket.Reads.{Patient}
use cs.FileServer.{Bytes, c_string}
use cs.Chatroom.{
  Room, htonl, create_message, next_message, process_client, write_message_size, write_to_server,
  read_from_server,
}
use cs.Chatroom.Frames.{frame, frames, AllSized, socket, next_message-frame, next_message_end}
use cs.Chatroom.Broadcast.{occurs, process_client_lem}

-- a line behind the name of its user
abbrev pub said : (name line : Bytes) → Bytes
said name line = name ++ (58 ∷ 32 ∷ line)

-- a message with its terminator
abbrev pub ended_message : (name line : Bytes) → Bytes
ended_message name line = said name line ++ (0 ∷ [])

-- The lines have no null byte in them, and their messages are not too long.
abbrev pub Typed : (name : Bytes) → List Bytes → Type 0
Typed name [] = true ≡ true
Typed name (line ∷ lines) =
    (c_string (ended_message name line) ≡ said name line)
    × (length line + length name + 4 < 2 ^ 31)
    × Typed name lines

length-ended :
    (name line : Bytes) → length (ended_message name line) ≡ length line + length name + 3
length-ended name line =
    omega (arith, length-append (said name line) (0 ∷ []), length-append name (58 ∷ 32 ∷ line))

write_line :
    (name line : Bytes) (lines : List Bytes) (sent : Bytes)
    → length line + length name + 4 < 2 ^ 31
    → write_to_server name (line ∷ lines) sent
      ≡ write_to_server name lines
          ((sent ++ htonl (length (ended_message name line))) ++ ended_message name line)
unfolding write_to_server create_message write_message_size htonl
write_line name line lines sent h =
    let int : ltb (length line + length name + 4) (2 ^ 31) ≡ true = ground arith in
    rw (int, write_to_server) refl

-- What a client writes is the messages in order.
write_to_server-frames :
    (name : Bytes) (lines : List Bytes) (sent : Bytes)
    → Typed name lines
    → write_to_server name lines sent ≡ some (sent ++ frames (map (ended_message name) lines))
unfolding write_to_server
write_to_server-frames name [] sent t = ap some (sym (append-nil sent))
write_to_server-frames name (line ∷ lines) sent t =
    let m = ended_message name line in
    write_line name line lines sent t.1
    ∙ write_to_server-frames name lines ((sent ++ htonl (length m)) ++ m) t.2
    ∙ ap (λ l. some (l ++ frames (map (ended_message name) lines)))
        (append_assoc sent (htonl (length m)) m)
    ∙ ap some (append_assoc sent (frame m) (frames (map (ended_message name) lines)))

Typed-AllSized :
    (name : Bytes) (lines : List Bytes)
    → Typed name lines
    → AllSized (map (ended_message name) lines)
Typed-AllSized name [] t = refl
Typed-AllSized name (line ∷ lines) t =
    let size = length-ended name line in
    (omega (arith, size), omega (arith, size, t.1), Typed-AllSized name lines t.2)

length-map :
    (name : Bytes) (lines : List Bytes) → length (map (ended_message name) lines) ≡ length lines
length-map name [] = refl
length-map name (line ∷ lines) = ap suc (length-map name lines)

shown_next :
    (fuel : ℕ) (s s' : Socket) (m : Bytes) (screen : List Bytes)
    → next_message s ≡ some (some m, s')
    → read_from_server (suc fuel) s screen ≡ read_from_server fuel s' (screen ++ (c_string m ∷ []))
unfolding read_from_server
shown_next fuel s s' m screen e = rw (e, read_from_server) refl

shown_last :
    (fuel : ℕ) (s s' : Socket) (screen : List Bytes)
    → next_message s ≡ some (none, s')
    → read_from_server (suc fuel) s screen ≡ some screen
unfolding read_from_server
shown_last fuel s s' screen e = rw (e, read_from_server) refl

-- A client shows the messages that stand on its stream.
read_from_server-frames :
    (name : Bytes) (lines : List Bytes) (n fuel : ℕ) (cs : List Choice) (screen : List Bytes)
    → Typed name lines
    → length lines < fuel
    → length (frames (map (ended_message name) lines)) < n
    → Patient n cs
    → read_from_server fuel (socket (frames (map (ended_message name) lines)) cs) screen
      ≡ some (screen ++ map (said name) lines)
read_from_server-frames name lines n zero cs screen typed few enough p = absurd (omega (arith, few))
read_from_server-frames name [] n (suc fuel) cs screen typed few enough p =
    let (ds, e) = next_message_end n cs (omega (arith, enough)) p in
    shown_last fuel (socket [] cs) (socket [] ds) screen e ∙ ap some (sym (append-nil screen))
read_from_server-frames name (line ∷ lines) n (suc fuel) cs screen typed few enough p =
    let m = ended_message name line in
    let ms = frames (map (ended_message name) lines) in
    let whole = length-append (frame m) ms in
    let size = length-ended name line in
    let (ds, e, q) =
      next_message-frame n m ms cs (omega (arith, size)) (omega (arith, size, typed.1))
        (omega (arith, whole, enough)) p in
    shown_next fuel (socket (frame m ++ ms) cs) (socket ms ds) m screen e
    ∙ ap (λ l. read_from_server fuel (socket ms ds) (screen ++ (l ∷ []))) typed.0
    ∙ read_from_server-frames name lines (n - length (frame m)) fuel ds
        (screen ++ (said name line ∷ [])) typed.2 (omega (arith, few))
        (omega (arith, whole, enough)) q
    ∙ ap some (append_assoc screen (said name line ∷ []) (map (said name) lines))

-- What a user types is what every user reads: on connections that go on long enough without an error, while
-- no other user types and the session goes on, the client writes all lines, the thread of the server for it
-- ends, and each client that stands in one slot and was sent nothing before shows exactly the lines of that
-- user, in order, each behind the name. The lines have no null byte, and each with the name and 4 more is
-- shorter than 2 ^ 31.
pub write_to_server-read :
    (name : Bytes) (lines : List Bytes) (n fuel idx : ℕ) (cs ds : List Choice) (r : Room)
    → r.end_session ≡ false
    → Typed name lines
    → length lines < fuel
    → length (frames (map (ended_message name) lines)) < n
    → Patient n cs
    → Patient n ds
    → (written : Bytes) × (r' : Room) × (write_to_server name lines [] ≡ some written)
      × (process_client fuel idx (socket written cs) r ≡ some r')
      × (r'.clients ≡ set r.clients idx none)
      × ((fd : ℕ)
          → occurs fd r.clients ≡ 1
          → r.sent fd ≡ []
          → read_from_server fuel (socket (r'.sent fd) ds) [] ≡ some (map (said name) lines))
write_to_server-read name lines n fuel idx cs ds r goes_on typed few enough p q =
    let ms = map (ended_message name) lines in
    let count = length-map name lines in
    let (r', e, (once, never, table, left)) =
      process_client_lem ms n fuel idx cs r goes_on (Typed-AllSized name lines typed)
        (omega (arith, count, few)) enough p in
    (
      frames ms,
      r',
      write_to_server-frames name lines [] typed,
      e,
      table,
      λ fd here fresh.
          ap (λ s. read_from_server fuel (socket s ds) [])
            (once fd here ∙ ap (λ l. l ++ frames ms) fresh)
          ∙ read_from_server-frames name lines n fuel ds [] typed few enough q,
    )
