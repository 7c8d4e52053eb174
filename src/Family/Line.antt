-- ===== src/Family/Line.antt =====
-- family_reader.c: the line of ancestors that it prints.
use mathlib.Core.List.{append-nil}
use c_operating_system.Prelude.{
  ℕ, zero, suc, ◌≤◌, ◌<◌, ◌≡◌, refl, ◌⊎◌, inl, inr, false, Bool-cases, none, some, List, [], ◌∷◌,
  ◌++◌, ◌==◌, arith,
}
use c_operating_system.Family.{
  Task, Kernel, number, is_err, ended, walk, Module, returned, crashed, usrpid_store,
}

-- The tasks from the one at an address up to the first whose pid is 1, or to the one below pid 0.
abbrev pub Line : Kernel → ℕ → List Task → Type 0
Line k task [] = (t : Task) × (k.tasks task ≡ some t) × (t.pid ≡ 0)
Line k task (t ∷ ts) =
    (k.tasks task ≡ some t) × (((t.pid ≡ 1) × (ts ≡ [])) ⊎ ((1 < t.pid) × Line k t.real_parent ts))

-- The parent of a task is a task, nearer to the first one, and no task is at the address of an error.
abbrev pub Parented : Kernel → (ℕ → ℕ) → ℕ → Task → Type 0
Parented k depth task t =
    (is_err task ≡ false)
    × ((p : Task) × (k.tasks t.real_parent ≡ some p)
        × ((t.pid ≤ 1) ⊎ (depth t.real_parent < depth task)))

module _ (k : Kernel) (depth : ℕ → ℕ)
    (up : (task : ℕ) (t : Task) → k.tasks task ≡ some t → Parented k depth task t) where
  walk-Line :
      (n task : ℕ) (t : Task)
      → k.tasks task ≡ some t
      → depth task < n
      → (ts : List Task) × (walk k n task ≡ ended ts) × Line k task ts
  unfolding walk
  walk-Line zero task t at lt = elim lt [ ]
  walk-Line (suc n) task t at lt =
      let (valid, (p, above, nearer)) = up task t at in
      elim (Bool-cases (t.pid == 0)) [
        | inl swapper ↦ ([], rw (valid, at, swapper) refl, (t, at, ground arith))
        | inr child ↦ elim (Bool-cases (t.pid == 1)) [
          | inl init ↦ (t ∷ [], rw (valid, at, child, init) refl, (at, inl (ground arith, refl)))
          | inr more ↦ elim (Bool-cases (p.pid == 1)) [
            | inl last ↦ (
              t ∷ p ∷ [],
              rw (valid, at, child, more, above, last) refl,
              (at, inr (ground arith, (above, inl (ground arith, refl)))),
            )
            | inr higher ↦
                let (ts, e, line) = walk-Line n t.real_parent p above (ground arith) in
                (
                  t ∷ ts,
                  rw (valid, at, child, more, above, higher, e) refl,
                  (at, inr (ground arith, line)),
                )
          ]
        ]
      ]

  -- For the number of a process, if every parent is a task, nearer to the first one, and no task nor
  -- structure of a pid is at the address of an error: the write ends, after at most as many rounds as
  -- the process is deep, returns the count and has printed the process and its ancestors in order.
  pub usrpid_store_prints :
      (buf : List ℕ) (n : ℕ) (t : Task) (count fuel : ℕ) (m : Module)
      → k.kstrtoint buf ≡ number n
      → is_err (k.find_vpid n) ≡ false
      → k.tasks (k.pid_task (k.find_vpid n)) ≡ some t
      → depth (k.pid_task (k.find_vpid n)) < fuel
      → (ts : List Task) × (usrpid_store k fuel buf count m
          ≡ returned count (record { usrpid = n; log = m.log ++ ts }))
        × Line k (k.pid_task (k.find_vpid n)) ts
  unfolding usrpid_store
  usrpid_store_prints buf n t count fuel m num found at lt =
      let (ts, e, line) = walk-Line fuel (k.pid_task (k.find_vpid n)) t at lt in
      let valid = (up (k.pid_task (k.find_vpid n)) t at).0 in
      (ts, rw (num, found, valid, e) refl, line)

-- For a number that is no process's, `find_vpid` and `pid_task` answer NULL, at which there is no task:
-- the test for an error does not hold and the kernel crashes.
pub usrpid_store_crashes :
    (k : Kernel) (fuel : ℕ) (buf : List ℕ) (n count : ℕ) (m : Module)
    → k.kstrtoint buf ≡ number n
    → k.find_vpid n ≡ 0
    → k.pid_task 0 ≡ 0
    → k.tasks 0 ≡ none
    → usrpid_store k (suc fuel) buf count m ≡ crashed (record m { usrpid = n })
unfolding usrpid_store walk
usrpid_store_crashes k fuel buf n count m num vpid task null =
    rw (num, vpid, task, null, append-nil m.log) refl
