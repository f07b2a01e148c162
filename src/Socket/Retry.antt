-- ===== src/Socket/Retry.antt =====
-- The loops of charming_chatroom/utils.c beside those of nonstop_networking/server.c, at errors.
use mathlib.Core.Option
use cs.Socket.Reads.{Patient}
use cs.Prelude.{
  refl, ap, if◌then◌else◌, ℕ, zero, suc, ◌≡◌, ◌≢◌, ◌<◌, empty, true, none, some, List, [], ◌∷◌,
  ◌++◌, replicate, ◌==◌, arith, false, take, drop, ◌-◌,
}
use cs.Socket.{
  Socket, read_all, Choice, upto, interrupted, failed, Read, Status, error, all, ended, chunk, got,
  read_loop, read_retry,
}

-- The chatroom's loop treats every error as an interruption: this is what it sees of the choices.
forgive : List Choice → List Choice
forgive [] = []
forgive (upto k ∷ cs) = upto k ∷ forgive cs
forgive (interrupted ∷ cs) = interrupted ∷ forgive cs
forgive (failed ∷ cs) = interrupted ∷ forgive cs

-- the outcome of a loop, without the choices that it leaves
abbrev pub outcome : Read → Status × List ℕ × List ℕ
outcome r = (r.status, r.bytes, r.socket.stream)

-- `read_all_from_socket` of the chatroom returns what the server's returns when each error is an
-- interruption, and it blocks where that blocks.
read_retry-forgive :
    (left : ℕ) (bytes stream : List ℕ) (cs : List Choice)
    → Option.map outcome (read_retry left bytes stream cs)
      ≡ Option.map outcome (read_loop left bytes stream (forgive cs))
unfolding read_retry read_loop forgive
read_retry-forgive left bytes stream [] = ground arith
read_retry-forgive left bytes stream (failed ∷ cs) =
    ground (arith, read_retry-forgive left bytes stream cs)
read_retry-forgive left bytes stream (interrupted ∷ cs) =
    ground (arith, read_retry-forgive left bytes stream cs)
read_retry-forgive left bytes stream (upto k ∷ cs) = ground (
  arith,
  read_retry-forgive (left - chunk k left stream) (bytes ++ take (chunk k left stream) stream)
      (drop (chunk k left stream) stream) cs,
)

-- On a connection that only fails, the server's loop reports the error at once; the chatroom's loop
-- has no result, however many times it calls `read`.
pub read_retry_spins :
    (n left : ℕ) (bytes stream : List ℕ)
    → left ≢ 0
    → (read_retry left bytes stream (replicate n failed) ≡ none)
      × (read_loop left bytes stream (failed ∷ replicate n failed)
          ≡ some (got bytes stream (replicate n failed) error))
unfolding read_retry read_loop
read_retry_spins zero left bytes stream h = ground arith
read_retry_spins (suc n) left bytes stream h =
    let wanted : (left == 0) ≡ false = ground arith in
    (rw wanted (read_retry_spins n left bytes stream h).0, rw wanted)

-- On a connection without errors the loops of the chatroom and of the server are one.
pub read_retry-Patient :
    (cs : List Choice) (n left : ℕ) (bytes stream : List ℕ)
    → Patient n cs
    → read_retry left bytes stream cs ≡ read_loop left bytes stream cs
unfolding read_retry read_loop
read_retry-Patient [] n left bytes stream p = refl
read_retry-Patient (failed ∷ cs) n left bytes stream p = absurd p
read_retry-Patient (interrupted ∷ cs) n left bytes stream p =
    ap (λ o. if left == 0 then some (got bytes stream (interrupted ∷ cs) all) else o)
      (read_retry-Patient cs n left bytes stream p)
read_retry-Patient (upto k ∷ cs) n left bytes stream p =
    let c = chunk k left stream in
    ap
      (λ o.
        if left == 0
        then some (got bytes stream (upto k ∷ cs) all)
        else if c == 0
        then some (got bytes stream cs ended)
        else o)
      (read_retry-Patient cs (n - 1) (left - c) (bytes ++ take c stream) (drop c stream) p)

pub read_retry-read_all :
    (n count : ℕ) (s : Socket)
    → Patient n s.choices
    → read_retry count [] s.stream s.choices ≡ read_all count s
unfolding read_all
read_retry-read_all n count s p = read_retry-Patient s.choices n count [] s.stream p

-- At the end of the stream the loop says so, and the choices that are left are fit for what follows.
pub read_retry_end :
    (cs : List Choice) (n left : ℕ) (bytes : List ℕ)
    → 0 < left
    → 0 < n
    → Patient n cs
    → (cs' : List Choice) × (read_retry left bytes [] cs ≡ some (got bytes [] cs' ended))
      × Patient (n - 1) cs'
unfolding read_retry
read_retry_end [] n left bytes h more p = absurd (omega (arith, more, p))
read_retry_end (failed ∷ cs) n left bytes h more p = absurd p
read_retry_end (interrupted ∷ cs) n left bytes h more p =
    let wanted : (left == 0) ≡ false = ground arith in
    let (ds, r, q) = read_retry_end cs n left bytes h more p in (ds, rw wanted r, q)
read_retry_end (upto k ∷ cs) n left bytes h more p =
    let wanted : (left == 0) ≡ false = ground arith in
    let nothing : (chunk k left (empty ℕ) == 0) ≡ true = ground arith in
    (cs, rw (wanted, nothing) refl, p)
