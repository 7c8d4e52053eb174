-- ===== src/Sockets/Silent.antt =====
-- socket_server.c and socket_client.c: a connection has at most one byte, and never an end.
use mathlib.Core.Path.{subst}
use c_operating_system.Prelude.{
  ℕ, zero, suc, ◌+◌, ◌≤◌, ◌<◌, ◌≡◌, refl, sym, Bool, none, some, List, [], ◌∷◌, length, arith,
}
use c_operating_system.Threads.{Conf, run}
use c_operating_system.Threads.Invariant.{Keeps, run-keeps}
use c_operating_system.Sockets.{
  Shared, Pc, accepting, scanning, closing, connecting, writing, Scanned, needs_more, no_number,
  number, scan, scanned, step, start,
}

-- One byte is not enough for a number: another one or the end has to follow.
scan_short :
    (bytes : List ℕ) (negative : Bool) (value : ℕ)
    → length bytes ≤ 1
    → scan bytes ≡ number negative value
    → ⊥
scan_short [] negative value le e = ground (arith, e)
scan_short (c ∷ []) negative value le e = ground (arith, e)
scan_short (c ∷ d ∷ cs) negative value le e = omega (arith, le)

module _ (connects : ℕ → Bool) (buf : ℕ → ℕ) where
  abbrev Server : Pc → Type 0
  Server accepting = Unit
  Server (scanning cfd) = Unit
  Server closing = Unit
  Server _ = ⊥

  -- The client has written nothing to the connection where it is to write.
  abbrev Client : Shared → Pc → Type 0
  Client s (connecting round) = Unit
  Client s (writing none round) = Unit
  Client s (writing (some sfd) round) = (sfd < s.connected) × (s.sent sfd ≡ [])
  Client s _ = ⊥

  abbrev Good : Shared → Pc → Pc → Type 0
  Good s p q =
      Server p
      × Client s q
      × (s.printed ≡ [])
      × ((i : ℕ) → length (s.sent i) ≤ 1)
      × ((i : ℕ) → s.connected ≤ i → s.sent i ≡ [])

  Client-accepted :
      (s : Shared) (k : ℕ) (q : Pc) → Client s q → Client (record s { accepted = k }) q
  Client-accepted s k (writing (some sfd) round) c = c
  Client-accepted s k (writing none round) c = c
  Client-accepted s k _ c = c

  scanned-Good :
      (s s' : Shared) (cfd : ℕ) (p' q : Pc) (r : Scanned)
      → scan (s.sent cfd) ≡ r
      → Good s (scanning cfd) q
      → scanned s r ≡ some (s', p')
      → Good s' p' q
  scanned-Good s s' cfd p' q needs_more e k r = ground (arith, r)
  scanned-Good s s' cfd p' q no_number e k r = ground (arith, k, r)
  scanned-Good s s' cfd p' q (number negative value) e k r =
      absurd (scan_short (s.sent cfd) negative value (k.3 cfd) e)

  server-Good :
      (s s' : Shared) (p p' q : Pc)
      → Good s p q
      → step connects buf 0 s p ≡ some (s', p')
      → Good s' p' q
  unfolding step
  server-Good s s' accepting p' q k r =
      ground (arith, k, r, Client-accepted s (s.accepted + 1) q k.1)
  server-Good s s' (scanning cfd) p' q k r = scanned-Good s s' cfd p' q (scan (s.sent cfd)) refl k r
  server-Good s s' closing p' q k r = ground (arith, k, r)
  server-Good s s' _ p' q k r = elim k.0 [ ]

  client-Good :
      (s s' : Shared) (p q q' : Pc)
      → Good s p q
      → step connects buf 1 s q ≡ some (s', q')
      → Good s' p q'
  unfolding step
  client-Good s s' p (connecting round) q' k r = ground (arith, k, r, k.4 s.connected)
  client-Good s s' p (writing none round) q' k r = ground (arith, k, r)
  client-Good s s' p (writing (some sfd) round) q' k r = ground (arith, k, r)
  client-Good s s' p _ q' k r = elim k.1 [ ]

  abbrev Inv : Conf Shared Pc → Type 0
  Inv c = Good c.shared (c.locals 0) (c.locals 1)

  abbrev Steps : ℕ → Shared → Pc → Shared → Pc → Type 0
  Steps i s l s' l' = step connects buf i s l ≡ some (s', l')

  Inv-keeps : Keeps 2 (step connects buf) Inv
  Inv-keeps zero c l lt k e s' l' h =
      server-Good c.shared s' (c.locals 0) l' (c.locals 1) k
        (subst (λ p. Steps 0 c.shared p s' l') (sym e) h)
  Inv-keeps (suc zero) c l lt k e s' l' h =
      client-Good c.shared s' (c.locals 0) (c.locals 1) l' k
        (subst (λ q. Steps 1 c.shared q s' l') (sym e) h)
  Inv-keeps (suc (suc i)) c l lt k e s' l' h = absurd (omega (arith, lt))

  run-Inv : (schedule : List ℕ) → Inv (run 2 (step connects buf) schedule start)
  run-Inv schedule =
      run-keeps 2 (step connects buf) Inv Inv-keeps schedule start
        (tt, tt, refl, λ i. omega arith, λ i le. refl)

  -- Whatever is typed, and whether or not the client connects: as long as the client runs, whose connections
  -- stay open, the server prints no number.
  pub socket_silent :
      (schedule : List ℕ) → (run 2 (step connects buf) schedule start).shared.printed ≡ []
  socket_silent schedule = (run-Inv schedule).2

  abbrev Waits : ℕ → List ℕ → Conf Shared Pc → Type 0
  Waits cfd bytes c =
      Inv c
      × (c.locals 0 ≡ scanning cfd)
      × (c.shared.sent cfd ≡ bytes)
      × (1 ≤ length bytes)
      × (scan bytes ≡ needs_more)
