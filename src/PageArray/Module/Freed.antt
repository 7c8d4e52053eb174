-- ===== src/PageArray/Module/Freed.antt =====
-- kernel_memory.c: what the thread of the module has freed when the module is removed.
use mathlib.Core.Path.{subst}
use c_operating_system.Prelude.{
  ℕ, zero, suc, ◌≡◌, refl, sym, Bool, true, false, some, List, [], ◌∷◌, arith,
}
use c_operating_system.Threads.{Conf, run}
use c_operating_system.Threads.Invariant.{Keeps, run-keeps}
use c_operating_system.PageArray.{report}
use c_operating_system.PageArray.Filling.{report-fill}
use c_operating_system.PageArray.Module.{
  Pages, null, error, block, Shared, Pc, creating, waking, loaded, waiting, unloaded, refused,
  created, allocating, filling, sleeping, checking, freeing, returned, faulted, step, start, alloc,
  fill_block, check_block, free_block,
}

module _ (nr_structs : ℕ) (can_create : Bool) (answer : Pages) where
  abbrev pub Quiet : Shared → Type 0
  Quiet s = (s.freed ≡ []) × (s.errors ≡ []) × (s.exited ≡ false)

  -- What the thread has allocated.
  abbrev pub Holds : Shared → Pages → Type 0
  Holds s null = (s.allocated ≡ []) × (answer ≡ null)
  Holds s error = ⊥
  Holds s (block memory) = s.allocated ≡ s.order ∷ []

  -- What the check will find.
  abbrev pub Sound : Pages → Type 0
  Sound (block memory) = report nr_structs memory ≡ []
  Sound _ = Unit

  abbrev pub Thread : Shared → Pc → Type 0
  Thread s created = Quiet s × (s.allocated ≡ [])
  Thread s allocating = Quiet s × (s.allocated ≡ [])
  Thread s filling = Quiet s × Holds s s.pages
  Thread s sleeping = Quiet s × Holds s s.pages × Sound s.pages
  Thread s checking = Quiet s × Holds s s.pages × Sound s.pages
  Thread s freeing = Quiet s × Holds s s.pages × Sound s.pages
  Thread s returned = (s.freed ≡ s.allocated) × (s.errors ≡ []) × (s.exited ≡ true)
  Thread s faulted = (s.exited ≡ false) × (answer ≡ null)
  Thread s _ = ⊥

  abbrev pub Control : Shared → Pc → Type 0
  Control s creating = Unit
  Control s waking = Unit
  Control s loaded = s.woken ≡ true
  Control s waiting = (s.woken ≡ true) × (s.should_stop ≡ true)
  Control s unloaded = s.exited ≡ true
  Control s refused = Unit
  Control s _ = ⊥

  abbrev pub Good : Shared → Pc → Pc → Type 0
  Good s p q = Control s p × Thread s q

  Holds-control :
      (s : Shared) (w b : Bool) (pages : Pages)
      → Holds s pages
      → Holds (record s { woken = w; should_stop = b }) pages
  Holds-control s w b null k = k
  Holds-control s w b error k = k
  Holds-control s w b (block memory) k = k

  -- The control changes nothing that the thread's part speaks of.
  Thread-control :
      (s : Shared) (w b : Bool) (q : Pc)
      → Thread s q
      → Thread (record s { woken = w; should_stop = b }) q
  Thread-control s w b filling k = (k.0, Holds-control s w b s.pages k.1)
  Thread-control s w b sleeping k = (k.0, Holds-control s w b s.pages k.1, k.2)
  Thread-control s w b checking k = (k.0, Holds-control s w b s.pages k.1, k.2)
  Thread-control s w b freeing k = (k.0, Holds-control s w b s.pages k.1, k.2)
  Thread-control s w b _ k = k

  pub control-Good :
      (s s' : Shared) (p p' q : Pc)
      → Good s p q
      → step nr_structs can_create answer 0 s p ≡ some (s', p')
      → Good s' p' q
  unfolding step
  control-Good s s' creating p' q k r = ground (arith, k, r)
  control-Good s s' waking p' q k r =
      ground (arith, k, r, Thread-control s true s.should_stop q k.1)
  control-Good s s' loaded p' q k r = ground (arith, k, r, Thread-control s true true q k.1)
  control-Good s s' waiting p' q k r = ground (arith, k, r)
  control-Good s s' _ p' q k r = ground (arith, k, r)

  -- Without an end of the thread the control cannot have come to its own.
  Control-thread :
      (s s' : Shared) (p : Pc)
      → s'.woken ≡ s.woken
      → s'.should_stop ≡ s.should_stop
      → s.exited ≡ false
      → Control s p
      → Control s' p
  Control-thread s s' loaded e f x k = ground (arith, e, k)
  Control-thread s s' waiting e f x k = ground (arith, e, f, k)
  Control-thread s s' unloaded e f x k = ground (arith, x, k)
  Control-thread s s' _ e f x k = k

  alloc-Good :
      (s : Shared) (p : Pc) (pages : Pages)
      → Control s p
      → answer ≡ pages
      → Quiet s × (s.allocated ≡ [])
      → Good (alloc nr_structs s pages).0 p (alloc nr_structs s pages).1
  alloc-Good s p null c e k =
      (Control-thread s (alloc nr_structs s null).0 p refl refl k.0.2 c, ground (arith, e, k))
  alloc-Good s p error c e k =
      (Control-thread s (alloc nr_structs s error).0 p refl refl k.0.2 c, ground (arith, e, k))
  alloc-Good s p (block memory) c e k = (
    Control-thread s (alloc nr_structs s (block memory)).0 p refl refl k.0.2 c,
    ground (arith, e, k),
  )

  fill_block-Good :
      (s : Shared) (p : Pc) (pages : Pages)
      → Control s p
      → s.pages ≡ pages
      → Quiet s × Holds s pages
      → Good (fill_block nr_structs s pages).0 p (fill_block nr_structs s pages).1
  fill_block-Good s p null c e k =
      (Control-thread s (fill_block nr_structs s null).0 p refl refl k.0.2 c, ground (arith, e, k))
  fill_block-Good s p error c e k = elim k.1 [ ]
  fill_block-Good s p (block memory) c e k = (
    Control-thread s (fill_block nr_structs s (block memory)).0 p refl refl k.0.2 c,
    ground (arith, e, k, report-fill nr_structs memory),
  )

  check_block-Good :
      (s : Shared) (p : Pc) (pages : Pages)
      → Control s p
      → s.pages ≡ pages
      → Quiet s × Holds s pages × Sound pages
      → Good (check_block nr_structs s pages).0 p (check_block nr_structs s pages).1
  check_block-Good s p null c e k =
      (Control-thread s (check_block nr_structs s null).0 p refl refl k.0.2 c, ground (arith, e, k))
  check_block-Good s p error c e k = elim k.1 [ ]
  check_block-Good s p (block memory) c e k = (
    Control-thread s (check_block nr_structs s (block memory)).0 p refl refl k.0.2 c,
    ground (arith, e, k),
  )

  free_block-Good :
      (s : Shared) (p : Pc) (pages : Pages)
      → Control s p
      → Quiet s × Holds s pages
      → Good (free_block nr_structs s pages).0 p (free_block nr_structs s pages).1
  free_block-Good s p null c k =
      (Control-thread s (free_block nr_structs s null).0 p refl refl k.0.2 c, ground (arith, k))
  free_block-Good s p error c k = elim k.1 [ ]
  free_block-Good s p (block memory) c k = (
    Control-thread s (free_block nr_structs s (block memory)).0 p refl refl k.0.2 c,
    ground (arith, k),
  )

  pub thread-Good :
      (s s' : Shared) (p q q' : Pc)
      → Good s p q
      → step nr_structs can_create answer 1 s q ≡ some (s', q')
      → Good s' p q'
  unfolding step
  thread-Good s s' p created q' k r =
      ground (arith, k, r, Control-thread s (record s { exited = true }) p refl refl k.1.0.2 k.0)
  thread-Good s s' p allocating q' k r = ground (arith, r, alloc-Good s p answer k.0 refl k.1)
  thread-Good s s' p filling q' k r = ground (arith, r, fill_block-Good s p s.pages k.0 refl k.1)
  thread-Good s s' p sleeping q' k r = ground (arith, k, r)
  thread-Good s s' p checking q' k r = ground (arith, r, check_block-Good s p s.pages k.0 refl k.1)
  thread-Good s s' p freeing q' k r =
      ground (arith, r, free_block-Good s p s.pages k.0 (k.1.0, k.1.1))
  thread-Good s s' p _ q' k r = ground (arith, k, r)

  abbrev pub Inv : Conf Shared Pc → Type 0
  Inv c = Good c.shared (c.locals 0) (c.locals 1)

  abbrev Steps : ℕ → Shared → Pc → Shared → Pc → Type 0
  Steps i s l s' l' = step nr_structs can_create answer i s l ≡ some (s', l')

  Inv-keeps : Keeps 2 (step nr_structs can_create answer) Inv
  Inv-keeps zero c l lt k e s' l' h =
      control-Good c.shared s' (c.locals 0) l' (c.locals 1) k
        (subst (λ p. Steps 0 c.shared p s' l') (sym e) h)
  Inv-keeps (suc zero) c l lt k e s' l' h =
      thread-Good c.shared s' (c.locals 0) (c.locals 1) l' k
        (subst (λ q. Steps 1 c.shared q s' l') (sym e) h)
  Inv-keeps (suc (suc i)) c l lt k e s' l' h = absurd (omega (arith, lt))

  pub run-Inv : (schedule : List ℕ) → Inv (run 2 (step nr_structs can_create answer) schedule start)
  run-Inv schedule =
      run-keeps 2 (step nr_structs can_create answer) Inv Inv-keeps schedule start
        (tt, ((refl, refl, refl), refl))

  unloaded-freed :
      (s : Shared) (q : Pc)
      → Good s unloaded q
      → (s.freed ≡ s.allocated) × (s.errors ≡ []) × (q ≡ returned)
  unloaded-freed s returned k = (k.1.0, k.1.1, refl)
  unloaded-freed s _ k = absurd (ground (arith, k))

  -- After any schedule, whatever `alloc_pages` has answered, when the module is removed: the thread has
  -- returned, has freed the blocks that it has allocated, each with its order, and has reported no error.
  pub unload_frees :
      (schedule : List ℕ)
      → (run 2 (step nr_structs can_create answer) schedule start).locals 0 ≡ unloaded
      → ((run 2 (step nr_structs can_create answer) schedule start).shared.freed
          ≡ (run 2 (step nr_structs can_create answer) schedule start).shared.allocated)
        × ((run 2 (step nr_structs can_create answer) schedule start).shared.errors ≡ [])
        × ((run 2 (step nr_structs can_create answer) schedule start).locals 1 ≡ returned)
  unload_frees schedule e =
      let c : Conf Shared Pc = run 2 (step nr_structs can_create answer) schedule start in
      unloaded-freed c.shared (c.locals 1)
        (subst (λ p. Good c.shared p (c.locals 1)) e (run-Inv schedule))
