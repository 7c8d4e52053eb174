-- ===== src/Family.antt =====
-- studio07_process_family_tree/family_reader.c: the module that prints the ancestors of a process. A
-- pointer is its address, with 0 for NULL; what the kernel's functions answer, and which tasks stand at
-- which addresses, is in `Kernel`. A pid is the 32-bit pattern of an `int`.
pub mod Line
pub mod Lifetime
use c_operating_system.Prelude.{
  ℕ, zero, suc, ◌+◌, ◌-◌, ◌^◌, Bool, true, false, Option, none, some, List, [], ◌∷◌, ◌++◌, leb,
  ◌==◌, if◌then◌else◌,
}

pub record Task : Type 0 where
  pub pid : ℕ
  pub comm : List ℕ
  pub real_parent : ℕ

-- The answer of `kstrtoint`: an error, or the number that it has stored.
pub data Parsed : Type 0 where
  invalid : (errno : ℕ) → Parsed
  number : (n : ℕ) → Parsed

pub record Kernel : Type 0 where
  pub kstrtoint : List ℕ → Parsed
  pub find_vpid : ℕ → ℕ
  pub pid_task : ℕ → ℕ
  pub tasks : ℕ → Option Task

-- The largest 4095 addresses are error codes.
abbrev pub is_err : ℕ → Bool
is_err pointer = leb (2 ^ 64 - 4095) pointer

-- How the loop ends, with the tasks that it has printed; `oops` is an access to an address with no task.
pub data Walk : Type 0 where
  ended : (printed : List Task) → Walk
  oops : (printed : List Task) → Walk
  out_of_fuel : Walk

abbrev pub after : Task → Walk → Walk
after t (ended printed) = ended (t ∷ printed)
after t (oops printed) = oops (t ∷ printed)
after t out_of_fuel = out_of_fuel

-- `task = task->real_parent` and the test after it, with what the next rounds do.
abbrev pub ascend : Option Task → Walk → Walk
ascend none rest = oops []
ascend (some parent) rest = if parent.pid == 1 then ended (parent ∷ []) else rest

abbrev pub visit : Option Task → (Task → Walk) → Walk
visit none above = oops []
visit (some t) above =
    if t.pid == 0 then ended [] else if t.pid == 1 then ended (t ∷ []) else after t (above t)

unfoldable pub walk : Kernel → ℕ → ℕ → Walk
walk k zero task = out_of_fuel
walk k (suc fuel) task =
    if is_err task
    then ended []
    else visit (k.tasks task) (λ t. ascend (k.tasks t.real_parent) (walk k fuel t.real_parent))

-- The variable of the module, and the log.
pub record Module : Type 0 where
  pub usrpid : ℕ
  pub log : List Task

pub data Outcome : Type 0 where
  returned : (count : ℕ) → (m : Module) → Outcome
  failed : (errno : ℕ) → (m : Module) → Outcome
  crashed : (m : Module) → Outcome
  looping : Outcome

abbrev pub logged : ℕ → Module → Walk → Outcome
logged count m (ended printed) = returned count (record m { log = m.log ++ printed })
logged count m (oops printed) = crashed (record m { log = m.log ++ printed })
logged count m out_of_fuel = looping

abbrev pub trace : Kernel → ℕ → ℕ → Module → Outcome
trace k fuel count m =
    let kpid = k.find_vpid m.usrpid in
    if is_err kpid
    then failed 1 m
    else let task = k.pid_task kpid in
      if is_err task then failed 1 m else logged count m (walk k fuel task)

abbrev pub parsed : Kernel → ℕ → ℕ → Module → Parsed → Outcome
parsed k fuel count m (invalid errno) = failed errno m
parsed k fuel count m (number n) = trace k fuel count (record m { usrpid = n })

unfoldable pub usrpid_store : Kernel → ℕ → List ℕ → ℕ → Module → Outcome
usrpid_store k fuel buf count m = parsed k fuel count m (k.kstrtoint buf)

-- The references to the kobject of the module.
pub record Directory : Type 0 where
  pub refs : ℕ

-- The last reference takes the directory with its files away.
abbrev pub kobject_put : Directory → Option Directory
kobject_put d = if d.refs == 1 then none else some (record d { refs = d.refs - 1 })

-- `example_init`, from whether `kobject_create_and_add` gives a kobject and what `sysfs_create_group`
-- answers: what it returns, and the directory that is there then. ENOMEM is 12.
unfoldable pub example_init : Bool → ℕ → ℕ × Option Directory
example_init false retval = (12, none)
example_init true zero = (0, some (record { refs = 1 }))
example_init true (suc errno) = (suc errno, kobject_put (record { refs = 1 }))

unfoldable pub example_exit : Directory → Option Directory
example_exit d = kobject_put d
