-- ===== src/Family/Lifetime.antt =====
-- family_reader.c: the directory of the module, from loading to removal.
use c_operating_system.Prelude.{ℕ, zero, suc, ◌≡◌, Bool, true, false, none, some, arith}
use c_operating_system.Family.{Directory, example_init, example_exit}

-- Loading leaves a directory only if it succeeds, and removal takes the directory away.
example_exit-init :
    (created : Bool) (retval : ℕ) (d : Directory)
    → (example_init created retval).1 ≡ some d
    → ((example_init created retval).0 ≡ 0) × (example_exit d ≡ none)
unfolding example_init example_exit
example_exit-init false retval d h = ground arith
example_exit-init true zero d h = ground arith
example_exit-init true (suc errno) d h = ground arith
