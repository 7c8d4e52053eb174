-- ===== src/SharedMemory.antt =====
-- studio13_shared_memory_management: leader.c is thread 0 and follower.c thread 1, over the struct that
-- both map. Each access to it is a step, and `memcpy` copies a number to a step. The leader has
-- created the region when both start here, and `random` gives the results of `rand`.
pub mod Handshake
use c_operating_system.Prelude.{ℕ, ◌+◌, Option, none, some, ltb, ◌==◌, if◌then◌else◌}
use c_operating_system.Threads.{Conf, Program, update}

-- The struct, and the array of the follower.
pub record Shared : Type 0 where
  pub write_guard : ℕ
  pub read_guard : ℕ
  pub delete_guard : ℕ
  pub data_cells : ℕ → ℕ
  pub copied : ℕ → ℕ

pub data Pc : Type 0 where
  resetting : Pc  -- leader: at `write_guard = 0`
  awaiting_follower : Pc  -- at the test of `write_guard`
  writing : (index : ℕ) → Pc  -- in memcpy
  notifying : Pc  -- at `read_guard = 1`
  awaiting_end : Pc  -- at the test of `delete_guard`
  unlinked : Pc
  announcing : Pc  -- follower: at `write_guard = 1`
  awaiting_data : Pc  -- at the test of `read_guard`
  reading : (index : ℕ) → Pc  -- in memcpy
  finishing : Pc  -- at `delete_guard = 1`
  finished : Pc

-- `shared_mem_size` is 1000000 in myheader.h; nothing here depends on its value.
module _ (shared_mem_size : ℕ) (random : ℕ → ℕ) where
  pub write : ℕ → Shared → Shared × Pc
  write index s =
      if ltb index shared_mem_size
      then (record s { data_cells = update s.data_cells index (random index) }, writing (index + 1))
      else (s, notifying)

  pub read : ℕ → Shared → Shared × Pc
  read index s =
      if ltb index shared_mem_size
      then (record s { copied = update s.copied index (s.data_cells index) }, reading (index + 1))
      else (s, finishing)

  unfoldable pub step : Program Shared Pc
  unfolding write read
  step i s resetting = some (record s { write_guard = 0 }, awaiting_follower)
  step i s awaiting_follower = some (s, if s.write_guard == 0 then awaiting_follower else writing 0)
  step i s (writing index) = some (write index s)
  step i s notifying = some (record s { read_guard = 1 }, awaiting_end)
  step i s awaiting_end = some (s, if s.delete_guard == 0 then awaiting_end else unlinked)
  step i s unlinked = none
  step i s announcing = some (record s { write_guard = 1 }, awaiting_data)
  step i s awaiting_data = some (s, if s.read_guard == 0 then awaiting_data else reading 0)
  step i s (reading index) = some (read index s)
  step i s finishing = some (record s { delete_guard = 1 }, finished)
  step i s finished = none

-- A new region is all 0, as `ftruncate` documents; `found` is what the follower's array holds.
abbrev pub start : (ℕ → ℕ) → Conf Shared Pc
start found = record {
  shared = record {
    write_guard = 0;
    read_guard = 0;
    delete_guard = 0;
    data_cells = λ k. 0;
    copied = found;
  };
  locals = λ i. if i == 0 then resetting else announcing;
}
