-- ===== src/Pipes.antt =====
-- studio16_pipes_fifos_sockets/pipes.c: after the fork the parent is thread 0 and the child thread 1. The
-- pipe is the kernel's, as pipe(7) documents it, and a stream the library's: what the child prints is
-- written when the stream is closed, and `fgets` has read what the pipe held.
pub mod Printing
pub mod Weight
pub mod Ending
use c_operating_system.Prelude.{
  ℕ, zero, suc, ◌+◌, ◌-◌, Option, none, some, List, [], ◌∷◌, ◌++◌, ◌==◌, if◌then◌else◌,
}
use c_operating_system.Threads.{Conf, Program}

-- How often each end of the pipe is open, what it holds, what the parent's stream has read and not
-- returned, and what the parent has printed of it.
pub record Shared : Type 0 where
  pub readers : ℕ
  pub writers : ℕ
  pub buffer : List ℕ
  pub held : List ℕ
  pub printed : List ℕ

pub data Pc : Type 0 where
  closing_unused_w : Pc  -- parent: at `close(pipefd[1])`
  reading : Pc  -- at `fgets`
  closing_r : Pc  -- at `fclose`
  closing_unused_r : Pc  -- child: at `close(pipefd[0])`
  writing : Pc  -- in `fclose`, with the messages in the stream
  closing_w : Pc  -- in `fclose`, after it has written
  finished : Pc
  killed : Pc  -- by SIGPIPE

abbrev pub consed : ℕ → Option (List ℕ × List ℕ) → Option (List ℕ × List ℕ)
consed c none = none
consed c (some (line, rest)) = some (c ∷ line, rest)

-- What `fgets` returns of what the stream has, and the rest, or `none` when it needs more.
unfoldable pub fgets : ℕ → List ℕ → Option (List ℕ × List ℕ)
fgets zero held = some ([], held)
fgets (suc left) [] = none
fgets (suc left) (c ∷ cs) = if c == 10 then some (c ∷ [], cs) else consed c (fgets left cs)

-- `fgets` with an end of file.
abbrev pub ended : Shared → List ℕ → Shared × Pc
ended s [] = (s, closing_r)
ended s (c ∷ cs) = (record s { held = []; printed = s.printed ++ (c ∷ cs) }, reading)

-- `fgets` when the stream has too little.
abbrev pub refill : Shared → List ℕ → Option (Shared × Pc)
refill s [] = if s.writers == 0 then some (ended s s.held) else none
refill s (c ∷ cs) = some (record s { held = s.held ++ (c ∷ cs); buffer = [] }, reading)

abbrev pub read_line : Shared → Option (List ℕ × List ℕ) → Option (Shared × Pc)
read_line s none = refill s s.buffer
read_line s (some (line, rest)) =
    some (record s { held = rest; printed = s.printed ++ line }, reading)

-- `messages` are the three messages of the child, without a zero byte and fewer bytes than a pipe holds; the array of the parent has 10 characters.
module _ (messages : List ℕ) where
  unfoldable pub step : Program Shared Pc
  step i s closing_unused_w = some (record s { writers = s.writers - 1 }, reading)
  step i s reading = read_line s (fgets 9 s.held)
  step i s closing_r = some (record s { readers = s.readers - 1 }, finished)
  step i s closing_unused_r = some (record s { readers = s.readers - 1 }, writing)
  step i s writing =
      if s.readers == 0
      then some (s, killed)
      else some (record s { buffer = s.buffer ++ messages }, closing_w)
  step i s closing_w = some (record s { writers = s.writers - 1 }, finished)
  step i s finished = none
  step i s killed = none

-- After `fork` both have both ends.
abbrev pub start : Conf Shared Pc
start = record {
  shared = record { readers = 2; writers = 2; buffer = []; held = []; printed = [] };
  locals = λ i. if i == 0 then closing_unused_w else closing_unused_r;
}
