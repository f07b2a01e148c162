-- ===== src/Socket.antt =====
-- Reading and writing all of a message: `read_all_from_socket` and `write_all_to_socket` of
-- nonstop_networking/server.c, and those of charming_chatroom/utils.c.
-- A socket is the bytes that the peer sends before it closes, and the choices that the system makes at
-- the successive calls; a call for which no choice is left blocks, and the loop has no result (`none`).
pub mod Reads
pub mod Retry
use cs.Prelude.{
  ℕ, zero, suc, ◌+◌, ◌-◌, min, Option, none, some, List, [], ◌∷◌, ◌++◌, take, drop, length, ◌==◌,
  ltb, if◌then◌else◌,
}

-- At most `k + 1` bytes are moved, or the call fails with EINTR, or with another error.
pub data Choice : Type 0 where
  upto : ℕ → Choice
  interrupted : Choice
  failed : Choice

pub record Socket : Type 0 where
  pub stream : List ℕ
  pub choices : List Choice

-- What a loop returns: the count, 0 at the end of the stream, or -1.
pub data Status : Type 0 where
  all : Status
  ended : Status
  error : Status

pub record Read : Type 0 where
  pub status : Status
  pub bytes : List ℕ
  pub socket : Socket

-- what `read` moves: some of the bytes wanted, and none only at the end of the stream
abbrev pub chunk : ℕ → ℕ → List ℕ → ℕ
chunk k left stream = min (k + 1) (min left (length stream))

abbrev pub got : List ℕ → List ℕ → List Choice → Status → Read
got bytes stream choices status = record {
  status = status;
  bytes = bytes;
  socket = record { stream = stream; choices = choices };
}

-- nonstop_networking/server.c: `left` bytes are still wanted, `bytes` have been read.
pub read_loop : ℕ → List ℕ → List ℕ → List Choice → Option Read
read_loop left bytes stream [] = if left == 0 then some (got bytes stream [] all) else none
read_loop left bytes stream (failed ∷ cs) =
    some (if left == 0 then got bytes stream (failed ∷ cs) all else got bytes stream cs error)
read_loop left bytes stream (interrupted ∷ cs) =
    let again = read_loop left bytes stream cs in
    if left == 0 then some (got bytes stream (interrupted ∷ cs) all) else again
read_loop left bytes stream (upto k ∷ cs) =
    let n = chunk k left stream in
    let more = read_loop (left - n) (bytes ++ take n stream) (drop n stream) cs in
    if left == 0
    then some (got bytes stream (upto k ∷ cs) all)
    else if n == 0
    then some (got bytes stream cs ended)
    else more

pub read_all : ℕ → Socket → Option Read
unfolding read_loop
read_all count s = read_loop count [] s.stream s.choices

-- charming_chatroom/utils.c: after any error the loop tries again.
pub read_retry : ℕ → List ℕ → List ℕ → List Choice → Option Read
read_retry left bytes stream [] = if left == 0 then some (got bytes stream [] all) else none
read_retry left bytes stream (failed ∷ cs) =
    let again = read_retry left bytes stream cs in
    if left == 0 then some (got bytes stream (failed ∷ cs) all) else again
read_retry left bytes stream (interrupted ∷ cs) =
    let again = read_retry left bytes stream cs in
    if left == 0 then some (got bytes stream (interrupted ∷ cs) all) else again
read_retry left bytes stream (upto k ∷ cs) =
    let n = chunk k left stream in
    let more = read_retry (left - n) (bytes ++ take n stream) (drop n stream) cs in
    if left == 0
    then some (got bytes stream (upto k ∷ cs) all)
    else if n == 0
    then some (got bytes stream cs ended)
    else more

-- Writing: `sent` is what the peer has been given, and a choice `upto k` moves at least one byte.
pub record Written : Type 0 where
  pub status : Status
  pub sent : List ℕ
  pub choices : List Choice

abbrev pub wrote : List ℕ → List Choice → Status → Written
wrote sent choices status = record { status = status; sent = sent; choices = choices }

pub write_all : List ℕ → List ℕ → List Choice → Option Written
write_all [] sent cs = some (wrote sent cs all)
write_all (b ∷ left) sent [] = none
write_all (b ∷ left) sent (failed ∷ cs) = some (wrote sent cs error)
write_all (b ∷ left) sent (interrupted ∷ cs) = write_all (b ∷ left) sent cs
write_all (b ∷ left) sent (upto k ∷ cs) = write_all (drop k left) (sent ++ (b ∷ take k left)) cs

pub write_retry : List ℕ → List ℕ → List Choice → Option Written
write_retry [] sent cs = some (wrote sent cs all)
write_retry (b ∷ left) sent [] = none
write_retry (b ∷ left) sent (failed ∷ cs) = write_retry (b ∷ left) sent cs
write_retry (b ∷ left) sent (interrupted ∷ cs) = write_retry (b ∷ left) sent cs
write_retry (b ∷ left) sent (upto k ∷ cs) = write_retry (drop k left) (sent ++ (b ∷ take k left)) cs
