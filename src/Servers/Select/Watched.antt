-- ===== src/Servers/Select/Watched.antt =====
-- The descriptors of studio17_select_step3.c: what a round does to each of them in the set `reset` and in
-- the table.
use c_operating_system.Prelude.{
  ℕ, zero, suc, ◌+◌, ◌≤◌, ◌≡◌, refl, Bool, true, false, Bool-cases, inl, inr, Option, none, some,
  List, [], ◌∷◌, ltb, if◌then◌else◌, arith,
}
use c_operating_system.Threads.{update}
use c_operating_system.Servers.Wire.{
  Call, Read, refused, received, is_quit, shown, greeted, accepted,
}
use c_operating_system.Servers.Calls.{same, accepts, closes, held_slot}
use c_operating_system.Servers.Select.{
  Server, Answers, Outcome, running, left, filled, is_last, counted, placed, is_ready, answer,
  respond, serve, check_clients, check_stdin, admit, check_lfd, selected, turn, onward, rounds,
}

abbrev pub bit : Bool → ℕ
bit b = if b then 1 else 0

-- How often `d` stands in the table.
abbrev pub held : ℕ → List (Option ℕ) → ℕ
held d [] = 0
held d (c ∷ cs) = held_slot d c + held d cs

placed-held : (cfd d : ℕ) (cs : List (Option ℕ)) → held d (placed cfd cs) ≤ held d cs + same d cfd
placed-held cfd d [] = omega arith
placed-held cfd d (c ∷ cs) = ground (arith, placed-held cfd d cs)

-- A client that is ready: it leaves the table, the set and the open descriptors together.
answer_lem :
    (fd : ℕ) (r : Read) (reset : ℕ → Bool) (calls : List Call) (d : ℕ)
    → same d fd ≤ bit (reset d)
    → (bit ((answer fd r reset calls).reset d) + closes d (answer fd r reset calls).calls
        ≡ bit (reset d) + closes d calls)
      × (held_slot d (answer fd r reset calls).client + bit (reset d)
          ≡ same d fd + bit ((answer fd r reset calls).reset d))
      × (accepts d (answer fd r reset calls).calls ≡ accepts d calls)
answer_lem fd refused reset calls d h = ground arith
answer_lem fd (received []) reset calls d h = ground arith
answer_lem fd (received (b ∷ bytes)) reset calls d h = ground arith

respond_lem :
    (a : Answers) (o : Option ℕ) (reset : ℕ → Bool) (calls : List Call) (d : ℕ)
    → held_slot d o ≤ bit (reset d)
    → (bit ((respond a o reset calls).reset d) + closes d (respond a o reset calls).calls
        ≡ bit (reset d) + closes d calls)
      × (held_slot d (respond a o reset calls).client + bit (reset d)
          ≡ held_slot d o + bit ((respond a o reset calls).reset d))
      × (accepts d (respond a o reset calls).calls ≡ accepts d calls)
respond_lem a none reset calls d h = ground arith
respond_lem a (some fd) reset calls d h = answer_lem fd (a.read fd) reset calls d h

module _ (a : Answers) (tmpset : ℕ → Bool) (d : ℕ) where
  serve_lem :
      (n : Option ℕ) (cs : List (Option ℕ)) (reset : ℕ → Bool) (calls : List Call)
      → held d cs ≤ bit (reset d)
      → (bit ((serve a tmpset n cs reset calls).reset d)
            + closes d (serve a tmpset n cs reset calls).calls
          ≡ bit (reset d) + closes d calls)
        × (held d (serve a tmpset n cs reset calls).clients + bit (reset d)
            ≡ held d cs + bit ((serve a tmpset n cs reset calls).reset d))
        × (accepts d (serve a tmpset n cs reset calls).calls ≡ accepts d calls)
  unfolding serve
  serve_lem n [] reset calls h = (refl, omega arith, refl)
  serve_lem n (c ∷ cs) reset calls h =
      let r = respond a c reset calls in
      let own = respond_lem a c reset calls d (omega (arith, h)) in
      elim (Bool-cases (is_ready tmpset c)) [
        | inl ready ↦ rw ready (
            let rest = serve_lem (counted n) cs r.reset r.calls (omega (arith, own.1, h)) in
            elim (Bool-cases r.broken) [
              | inl broken ↦ rw broken (refl, refl, refl)
              | inr going ↦ elim (Bool-cases (is_last n)) [
                | inl last ↦
                    rw (going, last) (omega (arith, own), omega (arith, own), omega (arith, own))
                | inr more ↦
                    rw (going, more)
                      (omega (arith, own, rest), omega (arith, own, rest), omega (arith, own, rest))
              ]
            ])
        | inr idle ↦ rw idle (
            let rest = serve_lem n cs reset calls (omega (arith, h)) in
            (omega (arith, rest), omega (arith, rest), omega (arith, rest)))
      ]

-- From `s` to `s'`, for one descriptor: it enters and leaves the set as it is accepted and closed, and
-- the table has it only as the set does.
pub record Moves (d : ℕ) (s s' : Server) : Type 0 where
  pub balance :
      bit (s'.reset d) + closes d s'.calls + accepts d s.calls
      ≡ bit (s.reset d) + closes d s.calls + accepts d s'.calls
  pub slots : held d s'.clients + bit (s.reset d) ≤ held d s.clients + bit (s'.reset d)

abbrev pub Owned : ℕ → Server → Type 0
Owned d s = held d s.clients ≤ bit (s.reset d)

abbrev pub server : Outcome → Server
server (running s) = s
server (left s) = s

if-Moves :
    (d : ℕ) (s : Server) (b : Bool) (o o' : Outcome)
    → Moves d s (server o)
    → Moves d s (server o')
    → Moves d s (server (if b then o else o'))
if-Moves d s true o o' m m' = m
if-Moves d s false o o' m m' = m'

-- `accept` gives a descriptor that is not open.
abbrev pub Grants : Option ℕ → (ℕ → Bool) → Type 0
Grants none reset = 0 ≤ 0
Grants (some cfd) reset = reset cfd ≡ false

module _ (d : ℕ) where
  Moves-refl : (s : Server) → Moves d s s
  Moves-refl s = record { balance = refl; slots = omega arith }

  Moves-trans : (s s' s'' : Server) → Moves d s s' → Moves d s' s'' → Moves d s s''
  Moves-trans s s' s'' m m' = record {
    balance = omega (arith, m, m');
    slots = omega (arith, m, m');
  }

  check_clients-Moves :
      (a : Answers) (tmpset : ℕ → Bool) (n : Option ℕ) (s : Server)
      → Owned d s
      → Moves d s (server (check_clients a tmpset n s))
  unfolding check_clients
  check_clients-Moves a tmpset n s o =
      let served = serve_lem a tmpset d n s.clients s.reset s.calls o in
      record { balance = omega (arith, served); slots = omega (arith, served) }

  check_stdin-Moves :
      (a : Answers) (tmpset : ℕ → Bool) (n : Option ℕ) (s : Server)
      → Owned d s
      → Moves d s (server (check_stdin a tmpset n s))
  unfolding check_stdin
  check_stdin-Moves a tmpset n s o =
      let after : Server = record s { calls = shown (filled a.stdin a.buf) ∷ s.calls } in
      let said : Moves d s after = record { balance = refl; slots = omega arith } in
      if-Moves d s (tmpset 0) _ _
        (if-Moves d s (is_quit (filled a.stdin a.buf)) _ _ said (
          if-Moves d s (is_last n) _ _ said
            (Moves-trans s after _ said (check_clients-Moves a tmpset (counted n) after o))))
        (check_clients-Moves a tmpset n s o)

  admit-Moves :
      (a : Answers) (tmpset : ℕ → Bool) (n : Option ℕ) (s : Server) (o : Option ℕ)
      → Owned d s
      → Grants o s.reset
      → Moves d s (server (admit a tmpset n s o))
  unfolding admit
  admit-Moves a tmpset n s none o g = Moves-refl s
  admit-Moves a tmpset n s (some cfd) o g =
      let after : Server = record {
        clients = placed cfd s.clients;
        maxfd = if ltb s.maxfd cfd then cfd else s.maxfd;
        reset = update s.reset cfd true;
        calls = greeted cfd ∷ accepted cfd ∷ s.calls;
      } in
      let entered : Moves d s after = record {
        balance = ground (arith, g);
        slots = ground (arith, g, placed-held cfd d s.clients);
      } in
      if-Moves d s (is_last n) _ _ entered (
        Moves-trans s after _ entered
          (check_stdin-Moves a tmpset (counted n) after (omega (arith, o, entered.slots))))

  check_lfd-Moves :
      (a : Answers) (lfd : ℕ) (tmpset : ℕ → Bool) (n : Option ℕ) (s : Server)
      → Owned d s
      → Grants a.accept s.reset
      → Moves d s (server (check_lfd a lfd tmpset n s))
  unfolding check_lfd
  check_lfd-Moves a lfd tmpset n s o g =
      if-Moves d s (tmpset lfd) _ _ (admit-Moves a tmpset n s a.accept o g)
        (check_stdin-Moves a tmpset n s o)

  selected-Moves :
      (a : Answers) (lfd : ℕ) (s : Server) (n : Option ℕ)
      → Owned d s
      → Grants a.accept s.reset
      → Moves d s (server (selected a lfd s n))
  selected-Moves a lfd s none o g = check_lfd-Moves a lfd s.reset none s o g
  selected-Moves a lfd s (some zero) o g = Moves-refl s
  selected-Moves a lfd s (some (suc n)) o g = check_lfd-Moves a lfd a.tmpset (some (suc n)) s o g

  pub turn-Moves :
      (lfd : ℕ) (a : Answers) (s : Server)
      → Owned d s
      → Grants a.accept s.reset
      → Moves d s (server (turn lfd a s))
  unfolding turn
  turn-Moves lfd a s o g = selected-Moves a lfd s a.nready o g

-- The same for each accept of a run.
abbrev pub Onward : (Server → Type 0) → Outcome → Type 0
Onward P (running s) = P s
Onward P (left s) = 0 ≤ 0

abbrev pub Fresh : ℕ → List Answers → Server → Type 0
Fresh lfd [] s = 0 ≤ 0
Fresh lfd (a ∷ answers) s = Grants a.accept s.reset × Onward (Fresh lfd answers) (turn lfd a s)

onward-Moves :
    (d : ℕ) (go : Server → Outcome) (P : Server → Type 0) (s : Server) (o : Outcome)
    → ((s' : Server) → P s' → Owned d s' → Moves d s' (server (go s')))
    → Onward P o
    → Owned d s
    → Moves d s (server o)
    → Moves d s (server (onward go o))
onward-Moves d go P s (running s') step p o m =
    Moves-trans d s s' _ m (step s' p (omega (arith, o, m.slots)))
onward-Moves d go P s (left s') step p o m = m

pub rounds-Moves :
    (d lfd : ℕ) (answers : List Answers) (s : Server)
    → Fresh lfd answers s
    → Owned d s
    → Moves d s (server (rounds lfd answers s))
unfolding rounds
rounds-Moves d lfd [] s f o = Moves-refl d s
rounds-Moves d lfd (a ∷ answers) s f o =
    onward-Moves d (rounds lfd answers) (Fresh lfd answers) s (turn lfd a s)
      (λ s' p o'. rounds-Moves d lfd answers s' p o') f.1 o (turn-Moves d lfd a s o f.0)
