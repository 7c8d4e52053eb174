-- ===== src/Fifo.antt =====
-- studio16_pipes_fifos_sockets: fifo_w.c is thread 0 and fifo_r.c thread 1, which talk over one fifo. Both
-- go through the same places in turn: fifo_w.c begins where it opens the fifo for writing, fifo_r.c
-- where it opens it for reading. The fifo is the kernel's, as fifo(7) and pipe(7) document it.
pub mod Turns
pub mod Delivery
use c_operating_system.Prelude.{
  ℕ, ◌+◌, ◌-◌, Bool, true, false, ◌&&◌, Option, none, some, List, [], ◌∷◌, ◌++◌, not, take, drop,
  ◌==◌, if◌then◌else◌,
}
use c_operating_system.Threads.{Conf, Program, update}

-- How often the fifo is open for reading and writing, how often it was opened, what is in it, and what
-- each side has written and printed, the last one first.
pub record Shared : Type 0 where
  pub readers : ℕ
  pub writers : ℕ
  pub r_counter : ℕ
  pub w_counter : ℕ
  pub buffer : List ℕ
  pub said : ℕ → List (List ℕ)
  pub heard : ℕ → List (List ℕ)

pub data Pc : Type 0 where
  opening_w : Pc  -- at `open(myfifo, O_WRONLY)`
  waiting_w : (seen : ℕ) → Pc  -- in it, until the fifo is opened for reading
  talking : Pc  -- at `fgets` and `write`
  closing_w : Pc
  opening_r : Pc  -- at `open(myfifo, O_RDONLY)`
  waiting_r : (seen : ℕ) → Pc  -- in it, until the fifo is opened for writing
  listening : Pc  -- at `read`
  closing_r : Pc
  killed : Pc  -- by SIGPIPE

abbrev pub is_empty : List ℕ → Bool
is_empty [] = true
is_empty (b ∷ bytes) = false

-- What was not read is lost when the fifo is open nowhere.
abbrev pub kept : Shared → Shared
kept s = if (s.readers == 0) && (s.writers == 0) then record s { buffer = [] } else s

-- `line i past` are the bytes, up to the NUL, that `fgets` gives side i when it has said `past`.
module _ (line : ℕ → List (List ℕ) → List ℕ) where
  unfoldable pub step : Program Shared Pc
  step i s opening_w = some (
    record s { writers = s.writers + 1; w_counter = s.w_counter + 1 },
    if s.readers == 0 then waiting_w s.r_counter else talking,
  )
  step i s (waiting_w seen) = if s.r_counter == seen then none else some (s, talking)
  step i s talking =
      let text = line i (s.said i) in
      if s.readers == 0
      then some (s, killed)
      else some (
        record s { buffer = s.buffer ++ text; said = update s.said i (text ∷ s.said i) },
        closing_w,
      )
  step i s closing_w = some (kept (record s { writers = s.writers - 1 }), opening_r)
  step i s opening_r = some (
    record s { readers = s.readers + 1; r_counter = s.r_counter + 1 },
    if s.writers == 0 then waiting_r s.w_counter else listening,
  )
  step i s (waiting_r seen) = if s.w_counter == seen then none else some (s, listening)
  step i s listening =
      if is_empty s.buffer && not (s.writers == 0)
      then none
      else some (
        record s {
          buffer = drop 80 s.buffer;
          heard = update s.heard i (take 80 s.buffer ∷ s.heard i);
        },
        closing_r,
      )
  step i s closing_r = some (kept (record s { readers = s.readers - 1 }), opening_w)
  step i s killed = none

-- The fifo is new.
abbrev pub start : Conf Shared Pc
start = record {
  shared = record {
    readers = 0;
    writers = 0;
    r_counter = 0;
    w_counter = 0;
    buffer = [];
    said = λ i. [];
    heard = λ i. [];
  };
  locals = λ i. if i == 0 then opening_w else opening_r;
}
