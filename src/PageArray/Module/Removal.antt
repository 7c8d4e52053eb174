-- ===== src/PageArray/Module/Removal.antt =====
-- kernel_memory.c: the removal of the module comes to its end.
use c_operating_system.Prelude.{
  ℕ, ◌+◌, ◌≤◌, ◌<◌, ◌≡◌, ◌⊎◌, inl, inr, refl, Bool, true, some, List, ◌++◌, length, arith,
}
use c_operating_system.Threads.{Conf, run}
use c_operating_system.PageArray.Module.{
  Pages, null, error, block, Shared, Pc, creating, waking, loaded, waiting, unloaded, refused,
  created, allocating, filling, sleeping, checking, freeing, returned, faulted, step, start, alloc,
  fill_block, check_block, free_block,
}
use c_operating_system.Threads.Ending.{TurnsFrom, step_turns, schedule-Over}
use c_operating_system.PageArray.Module.Freed.{Good, Inv, run-Inv, control-Good, thread-Good}

module _ (nr_structs : ℕ) (can_create : Bool) (answer : Pages) where
  abbrev control_weight : Pc → ℕ
  control_weight creating = 4
  control_weight waking = 3
  control_weight loaded = 2
  control_weight waiting = 1
  control_weight _ = 0

  abbrev thread_weight : Pc → ℕ
  thread_weight created = 6
  thread_weight allocating = 5
  thread_weight filling = 4
  thread_weight sleeping = 3
  thread_weight checking = 2
  thread_weight freeing = 1
  thread_weight _ = 0

  -- Where no more is to come: the module is not loaded, or the thread has used NULL.
  abbrev Over : Pc → Pc → Type 0
  Over p q = ((p ≡ unloaded) ⊎ (p ≡ refused)) ⊎ ((q ≡ faulted) × (answer ≡ null))

  abbrev Advances : ℕ → (Pc → ℕ) → Shared → Pc → Type 0
  Advances i weight s l =
      (s' : Shared) × (l' : Pc) × (step nr_structs can_create answer i s l ≡ some (s', l'))
      × (weight l' < weight l)

  alloc-Advances : (s : Shared) (pages : Pages) → thread_weight (alloc nr_structs s pages).1 < 5
  alloc-Advances s null = omega arith
  alloc-Advances s error = omega arith
  alloc-Advances s (block memory) = omega arith

  fill_block-Advances :
      (s : Shared) (pages : Pages) → thread_weight (fill_block nr_structs s pages).1 < 4
  fill_block-Advances s (block memory) = omega arith
  fill_block-Advances s _ = ground arith

  check_block-Advances :
      (s : Shared) (pages : Pages) → thread_weight (check_block nr_structs s pages).1 < 2
  check_block-Advances s (block memory) = omega arith
  check_block-Advances s _ = ground arith

  free_block-Advances :
      (s : Shared) (pages : Pages) → thread_weight (free_block nr_structs s pages).1 < 1
  free_block-Advances s (block memory) = omega arith
  free_block-Advances s _ = omega arith

  -- While the control waits for it the thread can go on.
  thread-Advances :
      (s : Shared) (q : Pc)
      → Good nr_structs can_create answer s waiting q
      → Over waiting q ⊎ (Advances 1 thread_weight s q ⊎ Advances 0 control_weight s waiting)
  unfolding step
  thread-Advances s created k =
      inr (inl (record s { exited = true }, returned, ground (arith, k), omega arith))
  thread-Advances s allocating k = inr (inl (_, _, refl, alloc-Advances s answer))
  thread-Advances s filling k = inr (inl (_, _, refl, fill_block-Advances s s.pages))
  thread-Advances s sleeping k = inr (inl (s, checking, ground (arith, k), omega arith))
  thread-Advances s checking k = inr (inl (_, _, refl, check_block-Advances s s.pages))
  thread-Advances s freeing k = inr (inl (_, _, refl, free_block-Advances s s.pages))
  thread-Advances s returned k = inr (inr (s, unloaded, ground (arith, k), omega arith))
  thread-Advances s faulted k = inl (inr (refl, k.1.1))
  thread-Advances s _ k = elim k.1 [ ]

  advances :
      (s : Shared) (p q : Pc)
      → Good nr_structs can_create answer s p q
      → Over p q ⊎ (Advances 1 thread_weight s q ⊎ Advances 0 control_weight s p)
  unfolding step
  advances s creating q k = inr (inr (_, _, refl, ground arith))
  advances s waking q k = inr (inr (_, _, refl, omega arith))
  advances s loaded q k = inr (inr (_, _, refl, omega arith))
  advances s waiting q k = thread-Advances s q k
  advances s unloaded q k = inl (inl (inl refl))
  advances s refused q k = inl (inl (inr refl))
  advances s _ q k = elim k.0 [ ]

  abbrev left_over : Conf Shared Pc → ℕ
  left_over c = control_weight (c.locals 0) + thread_weight (c.locals 1)

  abbrev Turns : Conf Shared Pc → Type 0
  Turns =
      TurnsFrom 2 (step nr_structs can_create answer) (Inv nr_structs can_create answer)
        (λ c. Over (c.locals 0) (c.locals 1)) left_over

  turns :
      (c : Conf Shared Pc)
      → Inv nr_structs can_create answer c
      → Over (c.locals 0) (c.locals 1) ⊎ Turns c
  turns c k = elim (advances c.shared (c.locals 0) (c.locals 1) k) [
    | inl e ↦ inl e
    | inr (inl (s', q', e, less)) ↦ inr (
        step_turns 2 (step nr_structs can_create answer) (Inv nr_structs can_create answer)
          (λ d. Over (d.locals 0) (d.locals 1)) left_over 1 c s' q' (omega arith) e
          (thread-Good nr_structs can_create answer c.shared s' (c.locals 0) (c.locals 1) q' k e)
          (omega (arith, less)))
    | inr (inr (s', p', e, less)) ↦ inr (
        step_turns 2 (step nr_structs can_create answer) (Inv nr_structs can_create answer)
          (λ d. Over (d.locals 0) (d.locals 1)) left_over 0 c s' p' (omega arith) e
          (control-Good nr_structs can_create answer c.shared s' (c.locals 0) p' (c.locals 1) k e)
          (omega (arith, less)))
  ]

  control_bound : (p : Pc) → control_weight p ≤ 4
  control_bound p = ground arith

  thread_bound : (q : Pc) → thread_weight q ≤ 6
  thread_bound q = ground arith

  -- Wherever a schedule has left the module, at most ten turns bring its removal to an end, unless it was
  -- refused when it was loaded, or `alloc_pages` has answered NULL and the thread has used that.
  pub unload_finishes :
      (schedule : List ℕ)
      → (more : List ℕ) × (length more ≤ 10)
        × Over
            ((run 2 (step nr_structs can_create answer) (schedule ++ more) start).locals 0)
            ((run 2 (step nr_structs can_create answer) (schedule ++ more) start).locals 1)
  unload_finishes schedule =
      let c : Conf Shared Pc = run 2 (step nr_structs can_create answer) schedule start in
      schedule-Over 2 (step nr_structs can_create answer) (Inv nr_structs can_create answer)
        (λ d. Over (d.locals 0) (d.locals 1)) left_over turns 10 schedule start
        (run-Inv nr_structs can_create answer schedule)
        (omega (arith, control_bound (c.locals 0), thread_bound (c.locals 1)))
