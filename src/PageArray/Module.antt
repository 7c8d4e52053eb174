-- ===== src/PageArray/Module.antt =====
-- kernel_memory.c as a module: thread 0 loads and removes it, thread 1 is the kernel thread it creates.
-- What `kthread_create` and `alloc_pages` answer are parameters. A thread that `kthread_stop` reaches
-- before it has run returns without a call of `thread_fn`.
pub mod Freed
pub mod Removal
use c_operating_system.Prelude.{
  ℕ, Bool, true, false, none, some, List, [], ◌∷◌, ◌++◌, ◌==◌, if◌then◌else◌,
}
use c_operating_system.Threads.{Conf, Program}
use c_operating_system.PageArray.{my_get_order, nr_pages, fill, Error, report}

-- `pages`: NULL, for which IS_ERR is false, an error, or a block of pages with what they hold.
pub data Pages : Type 0 where
  null : Pages
  error : Pages
  block : (memory : ℕ → ℕ) → Pages

-- The module's variables, what the two threads know of each other, the orders of the blocks that were
-- allocated and freed, and the errors printed.
pub record Shared : Type 0 where
  pub pages : Pages
  pub order : ℕ
  pub woken : Bool
  pub should_stop : Bool
  pub exited : Bool
  pub allocated : List ℕ
  pub freed : List ℕ
  pub errors : List Error

pub data Pc : Type 0 where
  creating : Pc  -- thread 0, in `kernel_memory_init`: at `kthread_create`
  waking : Pc  -- at `wake_up_process`
  loaded : Pc
  waiting : Pc  -- in `kernel_memory_exit`: in `kthread_stop`
  unloaded : Pc
  refused : Pc  -- `kernel_memory_init` has returned an error
  created : Pc  -- thread 1
  allocating : Pc  -- in `thread_fn`: at `alloc_pages`
  filling : Pc  -- at the loops that fill the pages
  sleeping : Pc  -- at `kthread_should_stop`
  checking : Pc  -- at the loops that check the pages
  freeing : Pc  -- at `__free_pages`
  returned : Pc
  faulted : Pc  -- an access through NULL

module _ (nr_structs : ℕ) where
  -- `alloc_pages`.
  abbrev pub alloc : Shared → Pages → Shared × Pc
  alloc s null = (record s { pages = null; order = my_get_order (nr_pages nr_structs) }, filling)
  alloc s error = (
    record s { pages = error; order = my_get_order (nr_pages nr_structs); exited = true },
    returned,
  )
  alloc s (block memory) = (
    record s {
      pages = block memory;
      order = my_get_order (nr_pages nr_structs);
      allocated = my_get_order (nr_pages nr_structs) ∷ s.allocated;
    },
    filling,
  )

  abbrev pub fill_block : Shared → Pages → Shared × Pc
  fill_block s (block memory) = (record s { pages = block (fill nr_structs memory) }, sleeping)
  fill_block s _ = (s, if nr_pages nr_structs == 0 then sleeping else faulted)

  abbrev pub check_block : Shared → Pages → Shared × Pc
  check_block s (block memory) =
      (record s { errors = s.errors ++ report nr_structs memory }, freeing)
  check_block s _ = (s, if nr_pages nr_structs == 0 then freeing else faulted)

  -- `__free_pages`, which reads the page, and the thread's return.
  abbrev pub free_block : Shared → Pages → Shared × Pc
  free_block s (block memory) = (record s { freed = s.order ∷ s.freed; exited = true }, returned)
  free_block s _ = (s, faulted)

module _ (nr_structs : ℕ) (can_create : Bool) (answer : Pages) where
  unfoldable pub step : Program Shared Pc
  step i s creating = some (s, if can_create then waking else refused)
  step i s waking = some (record s { woken = true }, loaded)
  step i s loaded = some (record s { should_stop = true; woken = true }, waiting)
  step i s waiting = if s.exited then some (s, unloaded) else none
  step i s unloaded = none
  step i s refused = none
  step i s created =
      if s.woken
      then (if s.should_stop
          then some (record s { exited = true }, returned)
          else some (s, allocating))
      else none
  step i s allocating = some (alloc nr_structs s answer)
  step i s filling = some (fill_block nr_structs s s.pages)
  step i s sleeping = some (s, if s.should_stop then checking else sleeping)
  step i s checking = some (check_block nr_structs s s.pages)
  step i s freeing = some (free_block nr_structs s s.pages)
  step i s returned = none
  step i s faulted = none

abbrev pub start : Conf Shared Pc
start = record {
  shared = record {
    pages = null;
    order = 0;
    woken = false;
    should_stop = false;
    exited = false;
    allocated = [];
    freed = [];
    errors = [];
  };
  locals = λ i. if i == 0 then creating else created;
}
