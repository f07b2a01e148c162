-- ===== src/Chatroom/Broadcast.antt =====
-- process_client and write_to_clients of charming_chatroom/server.c: who is sent what.
use cs.Prelude.{
  ℕ, zero, suc, ◌+◌, ◌-◌, ◌<◌, ◌≡◌, refl, Option, none, some, List, [], ◌∷◌, ◌++◌, false, ◌==◌,
  if◌then◌else◌, length, set, arith, ap, sym, ◌∙◌, length-append, append_assoc, append-nil,
  Bool-cases, inl, inr,
}
use cs.Socket.{Socket, Choice}
use cs.Socket.Reads.{Patient}
use cs.FileServer.{Bytes}
use cs.Chatroom.{
  Room, htonl, write_message_size, next_message, put_on, write_each, write_to_clients, leave,
  process_client,
}
use cs.Chatroom.Frames.{frame, frames, AllSized, socket, next_message-frame, next_message_end}

-- how many slots hold the descriptor
abbrev pub occurs : (fd : ℕ) → List (Option ℕ) → ℕ
occurs fd [] = 0
occurs fd (none ∷ cs) = occurs fd cs
occurs fd (some other ∷ cs) = (if fd == other then 1 else 0) + occurs fd cs

-- what one slot is sent
write_one :
    (fd other : ℕ) (m : Bytes) (sent : ℕ → Bytes)
    → put_on other m (put_on other (write_message_size (length m) []) sent) fd
      ≡ (if fd == other then sent fd ++ frame m else sent fd)
unfolding write_message_size htonl
write_one fd other m sent = elim (Bool-cases (fd == other)) [
  | inl same ↦ rw same (append_assoc (sent fd) (htonl (length m)) m)
  | inr different ↦ rw different refl
]

write_each_never :
    (fd : ℕ) (cs : List (Option ℕ)) (m : Bytes) (sent : ℕ → Bytes)
    → occurs fd cs ≡ 0
    → write_each cs m sent fd ≡ sent fd
unfolding write_each
write_each_never fd [] m sent h = refl
write_each_never fd (none ∷ cs) m sent h = write_each_never fd cs m sent h
write_each_never fd (some other ∷ cs) m sent h =
    let different : (fd == other) ≡ false = ground arith in
    write_each_never fd cs m (put_on other m (put_on other (write_message_size (length m) []) sent))
      (ground arith)
    ∙ write_one fd other m sent
    ∙ ap (λ b. if b then sent fd ++ frame m else sent fd) different

-- A client in one slot is sent the message once, and what stands on its stream is behind what stood there.
write_each_once :
    (fd : ℕ) (cs : List (Option ℕ)) (m : Bytes) (sent : ℕ → Bytes)
    → occurs fd cs ≡ 1
    → write_each cs m sent fd ≡ sent fd ++ frame m
unfolding write_each
write_each_once fd [] m sent h = absurd (omega (arith, h))
write_each_once fd (none ∷ cs) m sent h = write_each_once fd cs m sent h
write_each_once fd (some other ∷ cs) m sent h =
    let sent' = put_on other m (put_on other (write_message_size (length m) []) sent) in
    elim (Bool-cases (fd == other)) [
      | inl same ↦
          write_each_never fd cs m sent' (ground arith)
          ∙ write_one fd other m sent
          ∙ ap (λ b. if b then sent fd ++ frame m else sent fd) same
      | inr different ↦
          write_each_once fd cs m sent' (ground arith)
          ∙ ap (λ l. l ++ frame m)
              (write_one fd other m sent
                ∙ ap (λ b. if b then sent fd ++ frame m else sent fd) different)
    ]

one_round :
    (fuel idx : ℕ) (s s' : Socket) (m : Bytes) (r : Room)
    → r.end_session ≡ false
    → next_message s ≡ some (some m, s')
    → process_client (suc fuel) idx s r ≡ process_client fuel idx s' (write_to_clients m r)
unfolding process_client
one_round fuel idx s s' m r goes_on e =
    rw (e, process_client)
      (ap (λ b. if b then some (leave idx r) else process_client fuel idx s' (write_to_clients m r))
        goes_on)

last_round :
    (fuel idx : ℕ) (s s' : Socket) (r : Room)
    → r.end_session ≡ false
    → next_message s ≡ some (none, s')
    → process_client (suc fuel) idx s r ≡ some (leave idx r)
unfolding process_client
last_round fuel idx s s' r goes_on e =
    rw (e, process_client) (ap (λ b. if b then some (leave idx r) else some (leave idx r)) goes_on)

-- What each client has been sent after the messages `ms`, and the table behind them.
abbrev pub Heard : (idx : ℕ) → List Bytes → (r r' : Room) → Type 0
Heard idx ms r r' =
    ((fd : ℕ) → occurs fd r.clients ≡ 1 → r'.sent fd ≡ r.sent fd ++ frames ms)
    × ((fd : ℕ) → occurs fd r.clients ≡ 0 → r'.sent fd ≡ r.sent fd)
    × (r'.clients ≡ set r.clients idx none)
    × (r'.clients_count ≡ r.clients_count - 1)

-- On a connection without errors the thread of a client whose stream is a sequence of messages ends, while
-- no other thread runs and the session goes on: every client that stands in one slot has been sent these
-- messages in order and nothing else, one in no slot nothing, and the slot is free.
pub process_client_lem :
    (ms : List Bytes) (n fuel idx : ℕ) (cs : List Choice) (r : Room)
    → r.end_session ≡ false
    → AllSized ms
    → length ms < fuel
    → length (frames ms) < n
    → Patient n cs
    → (r' : Room) × (process_client fuel idx (socket (frames ms) cs) r ≡ some r')
      × Heard idx ms r r'
unfolding leave write_to_clients
process_client_lem ms n zero idx cs r goes_on sized few enough p = absurd (omega (arith, few))
process_client_lem [] n (suc fuel) idx cs r goes_on sized few enough p =
    let (ds, e) = next_message_end n cs (omega (arith, enough)) p in
    (
      leave idx r,
      last_round fuel idx (socket [] cs) (socket [] ds) r goes_on e,
      (λ fd h. sym (append-nil (r.sent fd)), λ fd h. refl, refl, refl),
    )
process_client_lem (m ∷ ms) n (suc fuel) idx cs r goes_on sized few enough p =
    let whole = length-append (frame m) (frames ms) in
    let (ds, e, q) =
      next_message-frame n m (frames ms) cs sized.0 sized.1 (omega (arith, whole, enough)) p in
    let (r', e', (once, never, table, count)) =
      process_client_lem ms (n - length (frame m)) fuel idx ds (write_to_clients m r) goes_on
        sized.2 (omega (arith, few)) (omega (arith, whole, enough)) q in
    (
      r',
      one_round fuel idx (socket (frames (m ∷ ms)) cs) (socket (frames ms) ds) m r goes_on e ∙ e',
      (
        λ fd h.
            once fd h
            ∙ ap (λ l. l ++ frames ms) (write_each_once fd r.clients m r.sent h)
            ∙ append_assoc (r.sent fd) (frame m) (frames ms),
        λ fd h. never fd h ∙ write_each_never fd r.clients m r.sent h,
        table,
        count,
      ),
    )
