-- ===== src/Chatroom/Table.antt =====
-- The table of clients of charming_chatroom/server.c, however its threads interleave.
-- run_server looks at the count before it accepts a client and without the mutex; what a thread does under
-- the mutex is one step.
use cs.Prelude.{
  ℕ, zero, suc, ◌+◌, ◌≤◌, ◌<◌, ◌≡◌, refl, Option, none, some, List, [], ◌∷◌, Bool, true, false,
  length, set, get_elem?, arith, ap, sym, subst, ◌∙◌, ◌>>=◌, length-set,
}
use cs.FileServer.{Bytes}
use cs.Chatroom.{Room, open_room, max_clients, take_slot, accept_client, leave, write_to_clients}

-- how many slots are taken
abbrev pub taken : List (Option ℕ) → ℕ
taken [] = 0
taken (none ∷ cs) = taken cs
taken (some fd ∷ cs) = 1 + taken cs

pub record Server : Type 0 where
  pub room : Room
  pub accepting : Bool

abbrev pub start : Server
start = record { room = open_room; accepting = false }

pub data Step (s : Server) : Server → Type 0 where
  waits_for_client :
      s.accepting ≡ false
      → s.room.clients_count < max_clients
      → Step s (record s { accepting = true })
  joins :
      (fd : ℕ)
      → s.accepting ≡ true
      → s.room.end_session ≡ false
      → Step s (record { room = (accept_client fd s.room).1; accepting = false })
  leaves :
      (idx fd : ℕ)
      → get_elem? s.room.clients idx ≡ some (some fd)
      → Step s (record s { room = leave idx s.room })
  writes : (message : Bytes) → Step s (record s { room = write_to_clients message s.room })
  closes : Step s (record s { room = record s.room { end_session = true } })

pub data Reach : Server → Type 0 where
  starts : Reach start
  goes_on : {s t : Server} → Reach s → Step s t → Reach t

-- a free slot is found where there is one
take_slot_lem :
    (fd : ℕ) (cs : List (Option ℕ))
    → taken cs < length cs
    → (idx : ℕ) × (take_slot fd cs ≡ some (idx, set cs idx (some fd)))
      × (get_elem? cs idx ≡ some none)
      × (taken (set cs idx (some fd)) ≡ taken cs + 1)
unfolding take_slot
take_slot_lem fd [] h = absurd (omega (arith, h))
take_slot_lem fd (none ∷ cs) h = (0, refl, refl, omega arith)
take_slot_lem fd (some other ∷ cs) h =
    let (idx, e, free, more) = take_slot_lem fd cs (omega (arith, h)) in
    (suc idx, ap (λ o. o >>= λ x. some (suc x.0, some other ∷ x.1)) e, free, omega (arith, more))

taken-set :
    (idx fd : ℕ) (cs : List (Option ℕ))
    → get_elem? cs idx ≡ some (some fd)
    → taken cs ≡ taken (set cs idx none) + 1
taken-set idx fd [] h = ground arith
taken-set zero fd (none ∷ cs) h = ground arith
taken-set zero fd (some other ∷ cs) h = omega arith
taken-set (suc idx) fd (none ∷ cs) h = taken-set idx fd cs h
taken-set (suc idx) fd (some other ∷ cs) h = omega (arith, taken-set idx fd cs h)

pub record IsCounted (s : Server) : Type 0 where
  pub size : length s.room.clients ≡ max_clients
  pub count : s.room.clients_count ≡ taken s.room.clients
  pub bounded : taken s.room.clients ≤ max_clients
  pub room_left : s.accepting ≡ true → taken s.room.clients < max_clients

-- The slot that `accept_client` takes.
abbrev pub Joined : (fd : ℕ) → (r : Room) → Type 0
Joined fd r =
    (idx : ℕ) × (get_elem? r.clients idx ≡ some none)
    × (accept_client fd r ≡ (
      some idx,
      record r { clients = set r.clients idx (some fd); clients_count = r.clients_count + 1 },
    ))

accept_found :
    (fd idx : ℕ) (cs : List (Option ℕ)) (r : Room)
    → take_slot fd r.clients ≡ some (idx, cs)
    → accept_client fd r
      ≡ (some idx, record r { clients = cs; clients_count = r.clients_count + 1 })
unfolding accept_client
accept_found fd idx cs r e =
    ap
      (λ (o : Option (ℕ × List (Option ℕ))). elim o [
        | none ↦ (none, record r { clients_count = r.clients_count + 1 })
        | some (i, ds) ↦ (some i, record r { clients = ds; clients_count = r.clients_count + 1 })
      ])
      e

joined_lem : (fd : ℕ) (s : Server) → IsCounted s → s.accepting ≡ true → Joined fd s.room
joined_lem fd s c a =
    let left = c.room_left a in
    let (idx, e, free, more) = take_slot_lem fd s.room.clients (omega (arith, left, c.size)) in
    (idx, free, accept_found fd idx (set s.room.clients idx (some fd)) s.room e)

joins-IsCounted :
    (fd : ℕ) (s : Server)
    → IsCounted s
    → s.accepting ≡ true
    → IsCounted (record { room = (accept_client fd s.room).1; accepting = false })
joins-IsCounted fd s c a =
    let left = c.room_left a in
    let (idx, e, free, more) = take_slot_lem fd s.room.clients (omega (arith, left, c.size)) in
    let r = s.room in
    let r' = record r {
      clients = set r.clients idx (some fd);
      clients_count = r.clients_count + 1;
    } in
    let found = ap (λ x. x.1) (accept_found fd idx (set r.clients idx (some fd)) r e) in
    let counted : IsCounted (record { room = r'; accepting = false }) = record {
      size = length-set r.clients idx (some fd) ∙ c.size;
      count = omega (arith, c.count, more);
      bounded = omega (arith, left, more);
      room_left = λ n. ground arith;
    } in
    subst (λ q. IsCounted (record { room = q; accepting = false })) (sym found) counted

step-IsCounted : {s t : Server} → IsCounted s → Step s t → IsCounted t
unfolding leave write_to_clients
step-IsCounted {s} c (waits_for_client idle h) = record {
  size = c.size;
  count = c.count;
  bounded = c.bounded;
  room_left = λ n. omega (arith, h, c.count);
}
step-IsCounted {s} c (joins fd a e) = joins-IsCounted fd s c a
step-IsCounted {s} c (leaves idx fd there) =
    let freed = taken-set idx fd s.room.clients there in
    record {
      size = length-set s.room.clients idx none ∙ c.size;
      count = omega (arith, c.count, freed);
      bounded = omega (arith, c.bounded, freed);
      room_left = λ n. omega (arith, c.bounded, freed);
    }
step-IsCounted {s} c (writes m) = record {
  size = c.size;
  count = c.count;
  bounded = c.bounded;
  room_left = c.room_left;
}
step-IsCounted {s} c closes = record {
  size = c.size;
  count = c.count;
  bounded = c.bounded;
  room_left = c.room_left;
}

start-IsCounted : IsCounted start
unfolding open_room
start-IsCounted = record {
  size = refl;
  count = refl;
  bounded = omega arith;
  room_left = λ n. ground arith;
}

Reach-IsCounted : {s : Server} → Reach s → IsCounted s
Reach-IsCounted starts = start-IsCounted
Reach-IsCounted (goes_on r step) = step-IsCounted (Reach-IsCounted r) step

-- However the threads of the server interleave, and although the count is looked at without the mutex: a
-- client that was accepted finds a free slot and takes it, and the count is the number of slots taken, at
-- most the maximum.
pub Reach-joins :
    {s : Server}
    → Reach s
    → (s.room.clients_count ≡ taken s.room.clients)
      × (s.room.clients_count ≤ max_clients)
      × ((fd : ℕ) → s.accepting ≡ true → Joined fd s.room)
Reach-joins {s} r =
    let c = Reach-IsCounted r in
    (c.count, omega (arith, c.count, c.bounded), λ fd a. joined_lem fd s c a)
