-- ===== src/Sockets.antt =====
-- studio16_pipes_fifos_sockets/socket_server.c and socket_client.c: the server is thread 0 and the client
-- thread 1, over the kernel's local sockets: what is written to a connection stays there for the other
-- side, which finds its end only after a close. The client's connections are numbered from 0 on.
pub mod Silent
use c_operating_system.Prelude.{
  ℕ, zero, suc, ◌+◌, ◌-◌, ◌*◌, Bool, true, false, Option, none, some, List, [], ◌∷◌, ◌++◌, ltb, leb,
  ◌==◌, if◌then◌else◌,
}
use c_operating_system.Threads.{Conf, Program, update}

-- How many connections were made, and accepted, what was written to each, and the numbers printed, each with
-- whether it is negative.
pub record Shared : Type 0 where
  pub connected : ℕ
  pub accepted : ℕ
  pub sent : ℕ → List ℕ
  pub printed : List (Bool × ℕ)

pub data Pc : Type 0 where
  accepting : Pc  -- server: at `accept`
  scanning : (cfd : ℕ) → Pc  -- in `fscanf`
  closing : Pc  -- at `close`, and then asleep for a second
  connecting : (round : ℕ) → Pc  -- client: at `connect`, after so many rounds
  writing : (cfd : Option ℕ) (round : ℕ) → Pc  -- at `write`; `none` after a `connect` that has failed

-- What `fscanf` makes of what has arrived, for `%d` on a connection that is not closed.
pub data Scanned : Type 0 where
  needs_more : Scanned
  no_number : Scanned
  number : (negative : Bool) (value : ℕ) → Scanned

abbrev pub is_space : ℕ → Bool
is_space c = if c == 32 then true else (if leb 9 c then leb c 13 else false)

abbrev pub is_sign : ℕ → Bool
is_sign c = if c == 43 then true else c == 45

abbrev pub is_digit : ℕ → Bool
is_digit c = if leb 48 c then leb c 57 else false

abbrev pub digits : Bool → ℕ → List ℕ → Scanned
digits negative value [] = needs_more
digits negative value (c ∷ cs) =
    let rest = digits negative (10 * value + (c - 48)) cs in
    if is_digit c then rest else number negative value

abbrev pub first_digit : Bool → List ℕ → Scanned
first_digit negative [] = needs_more
first_digit negative (c ∷ cs) = if is_digit c then digits negative (c - 48) cs else no_number

abbrev pub scan : List ℕ → Scanned
scan [] = needs_more
scan (c ∷ cs) =
    let rest = scan cs in
    if is_space c
    then rest
    else if is_sign c
    then first_digit (c == 45) cs
    else first_digit false (c ∷ cs)

abbrev pub scanned : Shared → Scanned → Option (Shared × Pc)
scanned s needs_more = none
scanned s no_number = some (s, closing)
scanned s (number negative value) =
    some (record s { printed = s.printed ++ ((negative, value) ∷ []) }, closing)

-- The client. A `connect` waits while more than 10 connections wait for `accept`.
abbrev pub connect : Shared → Bool → ℕ → Option (Shared × Pc)
connect s false round = some (s, writing none round)
connect s true round =
    if ltb 10 (s.connected - s.accepted)
    then none
    else some (record s { connected = s.connected + 1 }, writing (some s.connected) round)

abbrev pub write : Shared → Option ℕ → ℕ → ℕ → Shared × Pc
write s none c round = (s, connecting (suc round))
write s (some sfd) c round =
    (record s { sent = update s.sent sfd (s.sent sfd ++ (c ∷ [])) }, connecting (suc round))

-- `connects` is whether `socket` and `connect` succeed in each round of the client, `buf` what it has in
-- its buffer after the `read`.
module _ (connects : ℕ → Bool) (buf : ℕ → ℕ) where
  unfoldable pub step : Program Shared Pc
  step i s accepting =
      if s.accepted == s.connected
      then none
      else some (record s { accepted = s.accepted + 1 }, scanning s.accepted)
  step i s (scanning cfd) = scanned s (scan (s.sent cfd))
  step i s closing = some (s, accepting)
  step i s (connecting round) = connect s (connects round) round
  step i s (writing sfd round) = some (write s sfd (buf round) round)

abbrev pub start : Conf Shared Pc
start = record {
  shared = record { connected = 0; accepted = 0; sent = λ i. []; printed = [] };
  locals = λ i. if i == 0 then accepting else connecting 0;
}
