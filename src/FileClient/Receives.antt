-- ===== src/FileClient/Receives.antt =====
-- One read of nonstop_networking/client.c, on a connection without errors.
use cs.Prelude.{
  ℕ, ◌-◌, ◌≤◌, ◌<◌, ◌≡◌, refl, Option, some, List, [], ◌∷◌, ◌++◌, length, take, drop, arith, ap,
  ◌∙◌, ◌>>=◌, length-append,
}
use cs.Socket.{Choice, all, ended, Read}
use cs.Socket.Reads.{Patient, read_all_lem, read_all_ends}
use cs.Socket.Retry.{read_retry-read_all}
use cs.FileServer.{Bytes}
use cs.FileClient.{Client, receive}

-- The client with another stream and other choices.
abbrev pub at_stream : Client → Bytes → List Choice → Client
at_stream c stream choices = record c {
  conn = record c.conn { socket = record { stream = stream; choices = choices } };
}

take-front : (s rest : Bytes) → take (length s) (s ++ rest) ≡ s
take-front [] rest = refl
take-front (b ∷ bs) rest = ap (λ l. b ∷ l) (take-front bs rest)

drop-front : (s rest : Bytes) → drop (length s) (s ++ rest) ≡ rest
drop-front [] rest = refl
drop-front (b ∷ bs) rest = drop-front bs rest

receive-some :
    (n count : ℕ) (c : Client)
    → count ≤ length c.conn.socket.stream
    → count ≤ n
    → Patient n c.conn.socket.choices
    → (cs : List Choice) × (receive count c
        ≡ some (
          all,
          take count c.conn.socket.stream,
          at_stream c (drop count c.conn.socket.stream) cs,
        ))
      × Patient (n - count) cs
unfolding receive
receive-some n count c h g p =
    let (cs, r, q) = read_all_lem n count c.conn.socket h g p in
    (
      cs,
      ap
          (λ (o : Option Read). o >>= λ x.
            some (x.status, x.bytes, record c { conn = record c.conn { socket = x.socket } }))
          (read_retry-read_all n count c.conn.socket p ∙ r),
      q,
    )

-- What stands in front of the stream is read whole.
pub receive_front :
    (n : ℕ) (c : Client) (front rest : Bytes)
    → c.conn.socket.stream ≡ front ++ rest
    → length front ≤ n
    → Patient n c.conn.socket.choices
    → (cs : List Choice) × (receive (length front) c ≡ some (all, front, at_stream c rest cs))
      × Patient (n - length front) cs
receive_front n c front rest e enough p =
    let whole = ap length e ∙ length-append front rest in
    let (cs, r, q) = receive-some n (length front) c (omega (arith, whole)) enough p in
    let taken = ap (take (length front)) e ∙ take-front front rest in
    let left = ap (drop (length front)) e ∙ drop-front front rest in
    (
      cs,
      r
          ∙ ap (λ b. some (all, b, at_stream c (drop (length front) c.conn.socket.stream) cs)) taken
          ∙ ap (λ l. some (all, front, at_stream c l cs)) left,
      q,
    )

-- a read at the end of the stream
pub receive_end :
    (n : ℕ) (c : Client)
    → c.conn.socket.stream ≡ []
    → 0 < n
    → Patient n c.conn.socket.choices
    → (cs : List Choice) × (receive 1 c ≡ some (ended, [], at_stream c [] cs))
unfolding receive
receive_end n c e more p =
    let none_left = ap length e in
    let (cs, r) =
      read_all_ends n 1 c.conn.socket (omega (arith, none_left)) (omega (arith, none_left)) p in
    (
      cs,
      ap
            (λ (o : Option Read). o >>= λ x.
              some (x.status, x.bytes, record c { conn = record c.conn { socket = x.socket } }))
            (read_retry-read_all n 1 c.conn.socket p ∙ r)
          ∙ ap (λ b. some (ended, b, at_stream c [] cs)) e,
    )
