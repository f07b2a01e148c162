-- ===== src/Chatroom/Tests.antt =====
-- charming_chatroom: two clients, of which the first types two lines.
use cs.Prelude.{
  ℕ, ◌≡◌, ◌≤◌, refl, none, some, List, [], ◌∷◌, replicate, arith, false, true, set, map,
}
use cs.Socket.{Choice, upto}
use cs.FileServer.{Bytes, c_string}
use cs.Chatroom.{
  Room, open_room, accept_client, take_slot, max_clients, htonl, process_client, write_to_server,
  read_from_server,
}
use cs.Chatroom.Frames.{socket}
use cs.Chatroom.Broadcast.{occurs}
use cs.Chatroom.Table.{
  Server, Reach, starts, goes_on, waits_for_client, joins, taken, Joined, Reach-joins,
}
use cs.Chatroom.Talk.{said, write_to_server-read}

abbrev choices : List Choice
choices = upto 2 ∷ upto 0 ∷ replicate 30 (upto 3)

abbrev two_clients : Room
two_clients = record {
  clients = some 5 ∷ none ∷ some 7 ∷ [];
  clients_count = 2;
  end_session = false;
  sent = λ fd. [];
}

abbrev name : Bytes
name = 97 ∷ []

abbrev lines : List Bytes
lines = (104 ∷ 105 ∷ []) ∷ [] ∷ []

write_to_server-read_example :
    (written : Bytes) × (r' : Room) × (write_to_server name lines [] ≡ some written)
    × (process_client 3 0 (socket written choices) two_clients ≡ some r')
    × (r'.clients ≡ none ∷ none ∷ some 7 ∷ [])
    × ((fd : ℕ)
        → occurs fd two_clients.clients ≡ 1
        → two_clients.sent fd ≡ []
        → read_from_server 3 (socket (r'.sent fd) choices) [] ≡ some (map (said name) lines))
unfolding c_string htonl
write_to_server-read_example =
    write_to_server-read name lines 32 3 0 choices choices two_clients refl
      (refl, omega arith, (refl, omega arith, refl)) (omega arith) (omega arith) refl refl

-- the server waits for its second client
abbrev second : Server
second = record {
  room = record open_room { clients = set open_room.clients 0 (some 4); clients_count = 1 };
  accepting = true;
}

second_reached : Reach second
unfolding open_room accept_client take_slot
second_reached =
    goes_on (goes_on (goes_on starts (waits_for_client refl (omega arith))) (joins 4 refl refl))
      (waits_for_client refl (omega arith))

Reach-joins_example :
    (second.room.clients_count ≡ taken second.room.clients)
    × (second.room.clients_count ≤ max_clients)
    × ((fd : ℕ) → second.accepting ≡ true → Joined fd second.room)
Reach-joins_example = Reach-joins second_reached
