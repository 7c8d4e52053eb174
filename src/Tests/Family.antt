-- ===== src/Tests/Family.antt =====
-- family_reader.c on a process with two ancestors.
use mathlib.Core.Path.{subst}
use mathlib.Core.Option.{none-ne-some, some-injective}
use c_operating_system.Prelude.{
  ℕ, zero, suc, ◌-◌, ◌≡◌, refl, inl, inr, Option, none, some, List, [], ◌∷◌, ◌==◌, if◌then◌else◌,
  arith,
}
use c_operating_system.Family.{
  Task, Kernel, Parsed, invalid, number, Module, returned, crashed, usrpid_store, walk,
}
use c_operating_system.Family.Line.{Line, Parented, usrpid_store_prints, usrpid_store_crashes}

abbrev shell : Task
shell = record { pid = 7; comm = 98 ∷ []; real_parent = 2 }

abbrev session : Task
session = record { pid = 3; comm = 115 ∷ []; real_parent = 3 }

abbrev first : Task
first = record { pid = 1; comm = 105 ∷ []; real_parent = 4 }

abbrev swapper : Task
swapper = record { pid = 0; comm = []; real_parent = 4 }

abbrev task_at : ℕ → Option Task
task_at zero = none
task_at (suc zero) = some shell
task_at (suc (suc zero)) = some session
task_at (suc (suc (suc zero))) = some first
task_at (suc (suc (suc (suc zero)))) = some swapper
task_at (suc (suc (suc (suc (suc n))))) = none

abbrev parse : List ℕ → Parsed
parse [] = invalid 22
parse (digit ∷ digits) = number (digit - 48)

abbrev kernel : Kernel
kernel = record {
  kstrtoint = parse;
  find_vpid = λ n. if n == 7 then 10 else 0;
  pid_task = λ kpid. if kpid == 10 then 1 else 0;
  tasks = task_at;
}

module _ (P : ℕ → Task → Type 0) (a : P 1 shell) (b : P 2 session) (c : P 3 first)
    (d : P 4 swapper) where
  task_at-cases : (task : ℕ) (t : Task) → task_at task ≡ some t → P task t
  task_at-cases zero t at = elim (none-ne-some t at) [ ]
  task_at-cases (suc zero) t at = subst (P 1) (some-injective shell t at) a
  task_at-cases (suc (suc zero)) t at = subst (P 2) (some-injective session t at) b
  task_at-cases (suc (suc (suc zero))) t at = subst (P 3) (some-injective first t at) c
  task_at-cases (suc (suc (suc (suc zero)))) t at = subst (P 4) (some-injective swapper t at) d
  task_at-cases (suc (suc (suc (suc (suc n))))) t at = elim (none-ne-some t at) [ ]

kernel-Parented :
    (task : ℕ) (t : Task) → task_at task ≡ some t → Parented kernel (λ a. 5 - a) task t
kernel-Parented =
    task_at-cases (Parented kernel (λ a. 5 - a)) (refl, (session, refl, inr (omega arith)))
      (refl, (first, refl, inr (omega arith))) (refl, (swapper, refl, inl (omega arith)))
      (refl, (swapper, refl, inl (omega arith)))

abbrev empty : Module
empty = record { usrpid = 0; log = [] }

usrpid_store_prints_example :
    (ts : List Task) × (usrpid_store kernel 5 (55 ∷ []) 1 empty
      ≡ returned 1 (record { usrpid = 7; log = ts }))
    × Line kernel 1 ts
usrpid_store_prints_example =
    usrpid_store_prints kernel (λ a. 5 - a) kernel-Parented (55 ∷ []) 7 shell 1 5 empty refl refl
      refl (omega arith)

prints_line :
    usrpid_store kernel 5 (55 ∷ []) 1 empty
    ≡ returned 1 (record { usrpid = 7; log = shell ∷ session ∷ first ∷ [] })
unfolding usrpid_store walk
prints_line = refl

unknown_crashes :
    usrpid_store kernel 1 (56 ∷ []) 1 empty ≡ crashed (record { usrpid = 8; log = [] })
unknown_crashes = usrpid_store_crashes kernel 0 (56 ∷ []) 8 1 empty refl refl refl refl
