-- ===== src/Broker/Connection/Writing.antt =====
-- broker/connection.cpp: the queue of frames to write, one write under way at a time.
pub mod Order
use ganshin_mq.Base.{
  Bool, true, false, Bytes, List, [], ◌∷◌, ◌++◌, Option, none, some, if◌then◌else◌,
}

-- `current` is what the write under way writes; `written` are the frames on the wire.
pub record Writer : Type 0 where
  pub write_queue : List Bytes
  pub writing : Bool
  pub current : Option Bytes
  pub written : List Bytes

abbrev pub new_writer : Writer
new_writer = record { write_queue = []; writing = false; current = none; written = [] }

abbrev pub start_write : List Bytes → Writer → Writer
start_write [] x = record x { writing = false }
start_write (d ∷ ds) x = record x { write_queue = ds; current = some d }

unfoldable pub do_write : Writer → Writer
do_write x = start_write x.write_queue x

unfoldable pub send_frame : Bytes → Writer → Writer
unfolding do_write
send_frame d x =
    let x' = record x { write_queue = x.write_queue ++ (d ∷ []); writing = true } in
    if x.writing then x' else do_write x'

-- The write under way has come to its end.
unfoldable pub write_done : Writer → Writer
unfolding do_write
write_done x = elim x.current [
  | none ↦ x
  | some d ↦ do_write (record x { current = none; written = x.written ++ (d ∷ []) })
]
