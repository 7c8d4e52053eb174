-- ===== src/Servers/Wire.antt =====
-- What the servers of studio17_io_event_handling have in common: the calls that they make, and the
-- buffers that they read into.
use c_operating_system.Prelude.{
  ℕ, Bool, true, false, ◌&&◌, Option, none, some, List, ◌++◌, length, get_or, drop, ◌==◌,
}

-- The calls of the system and the messages, the last one first in a list.
pub data Call : Type 0 where
  accepted : (cfd : ℕ) → Call
  greeted : (cfd : ℕ) → Call
  shown : (buf : List ℕ) → Call
  echoed : (fd : ℕ) (buf : List ℕ) → Call
  closed : (fd : ℕ) → Call

-- The answer of `read`: -1, or the bytes.
pub data Read : Type 0 where
  refused : Read
  received : (bytes : List ℕ) → Read

abbrev pub backlog : ℕ
backlog = 10

-- `strncmp("quit", buf, 4) == 0`
abbrev pub is_quit : List ℕ → Bool
is_quit buf =
    (get_or buf 0 0 == 113)
    && (get_or buf 1 0 == 117)
    && (get_or buf 2 0 == 105)
    && (get_or buf 3 0 == 116)

-- A buffer after `read` has filled its front.
abbrev pub overlay : List ℕ → List ℕ → List ℕ
overlay bytes buf = bytes ++ drop (length bytes) buf

-- A descriptor of -1.
abbrev pub is_free : Option ℕ → Bool
is_free none = true
is_free (some fd) = false
