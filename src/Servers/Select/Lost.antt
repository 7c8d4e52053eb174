-- ===== src/Servers/Select/Lost.antt =====
-- studio17_select_step3.c: the descriptors that it watches, and a connection that finds no entry.
use mathlib.Core.Path.{subst}
use c_operating_system.Prelude.{
  ℕ, zero, suc, ◌+◌, ◌≤◌, ◌<◌, ◌≡◌, refl, sym, ap, ◌∙◌, Bool, true, false, Option, none, some, List,
  [], ◌∷◌, replicate, ltb, if◌then◌else◌, arith,
}
use c_operating_system.Threads.{update}
use c_operating_system.Servers.Wire.{greeted, accepted, is_free, backlog}
use c_operating_system.Servers.Calls.{same, accepts, closes}
use c_operating_system.Servers.Select.{
  Server, Answers, placed, admit, check_lfd, turn, onward, running, rounds, start,
}
use c_operating_system.Servers.Select.Watched.{
  bit, held, Owned, Fresh, Grants, Onward, server, rounds-Moves,
}

held-replicate : (d n : ℕ) → held d (replicate n none) ≡ 0
held-replicate d zero = refl
held-replicate d (suc n) = omega (arith, held-replicate d n)

-- Whatever `select` reports and the clients send, if `accept` gives descriptors that are not open: the
-- set has exactly the listening socket, stdin and the connections that were accepted and not closed,
-- each once; and the table has no descriptor that is not in the set, nor one twice.
pub select_watches :
    (lfd d : ℕ) (answers : List Answers)
    → 0 < lfd
    → Fresh lfd answers (start lfd)
    → (bit ((server (rounds lfd answers (start lfd))).reset d)
          + closes d (server (rounds lfd answers (start lfd))).calls
        ≡ same d lfd + same d 0 + accepts d (server (rounds lfd answers (start lfd))).calls)
      × (held d (server (rounds lfd answers (start lfd))).clients + same d lfd + same d 0
          ≤ bit ((server (rounds lfd answers (start lfd))).reset d))
unfolding start
select_watches lfd d answers pos fresh =
    let empty = held-replicate d backlog in
    let m = rounds-Moves d lfd answers (start lfd) fresh (omega (arith, empty)) in
    (ground (arith, m.balance), ground (arith, m.slots, empty))

-- No entry is free.
abbrev pub is_full : List (Option ℕ) → Bool
is_full [] = true
is_full (c ∷ cs) = if is_free c then false else is_full cs

placed_full : (cfd : ℕ) (cs : List (Option ℕ)) → is_full cs ≡ true → placed cfd cs ≡ cs
placed_full cfd [] h = refl
placed_full cfd (c ∷ cs) h = ground (arith, placed_full cfd cs)

abbrev entered : ℕ → Server → Server
entered cfd s = record {
  clients = placed cfd s.clients;
  maxfd = if ltb s.maxfd cfd then cfd else s.maxfd;
  reset = update s.reset cfd true;
  calls = greeted cfd ∷ accepted cfd ∷ s.calls;
}

turn-entered :
    (lfd cfd : ℕ) (a : Answers) (s : Server)
    → a.nready ≡ some 1
    → a.tmpset lfd ≡ true
    → a.accept ≡ some cfd
    → turn lfd a s ≡ running (entered cfd s)
unfolding turn check_lfd admit
turn-entered lfd cfd a s one ready granted = ground arith

-- A connection that comes when no entry is free, the listening socket alone being ready, is in the set
-- of watched descriptors after any later rounds, and in no entry, if `accept` gives descriptors that
-- are not open and the table had no descriptor outside the set.
pub select_loses :
    (lfd cfd : ℕ) (a : Answers) (answers : List Answers) (s : Server)
    → a.nready ≡ some 1
    → a.tmpset lfd ≡ true
    → a.accept ≡ some cfd
    → is_full s.clients ≡ true
    → Owned cfd s
    → Fresh lfd (a ∷ answers) s
    → ((server (rounds lfd (a ∷ answers) s)).reset cfd ≡ true)
      × (held cfd (server (rounds lfd (a ∷ answers) s)).clients ≡ 0)
unfolding rounds
select_loses lfd cfd a answers s one ready granted full owned fresh =
    let e = turn-entered lfd cfd a s one ready granted in
    let free : s.reset cfd ≡ false = subst (λ o. Grants o s.reset) granted fresh.0 in
    let later : Fresh lfd answers (entered cfd s) = subst (Onward (Fresh lfd answers)) e fresh.1 in
    let none_held : held cfd (placed cfd s.clients) ≡ 0 =
      ap (held cfd) (placed_full cfd s.clients full) ∙ ground (arith, owned, free) in
    let m = rounds-Moves cfd lfd answers (entered cfd s) later (omega (arith, none_held)) in
    subst
      (λ o.
        ((server (onward (rounds lfd answers) o)).reset cfd ≡ true)
        × (held cfd (server (onward (rounds lfd answers) o)).clients ≡ 0))
      (sym e) (ground (arith, m.slots, none_held), ground (arith, m.slots, none_held))
