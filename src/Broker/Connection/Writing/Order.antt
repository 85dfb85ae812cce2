-- ===== src/Broker/Connection/Writing/Order.antt =====
-- Frames are written in the order in which they are sent.
use ganshin_mq.Base.{
  Bool, true, false, Bytes, List, [], ◌∷◌, ◌++◌, Option, none, some, ◌≡◌, refl, sym, Bool-cases,
  inl, inr, ◌⊎◌, ap, ◌∙◌, append_assoc, append-nil,
}
use ganshin_mq.Broker.Connection.Writing.{Writer, new_writer, do_write, send_frame, write_done}

-- A frame is sent, or the write under way ends.
pub data Action : Type 0 where
  send : Bytes → Action
  finish : Action

unfoldable pub act : Action → Writer → Writer
unfolding send_frame write_done
act (send d) x = send_frame d x
act finish x = write_done x

unfoldable pub act_all : List Action → Writer → Writer
unfolding act
act_all [] x = x
act_all (a ∷ more) x = act_all more (act a x)

abbrev pub sends : List Action → List Bytes
sends [] = []
sends (send d ∷ more) = d ∷ sends more
sends (finish ∷ more) = sends more

abbrev pub under_way : Option Bytes → List Bytes
under_way none = []
under_way (some d) = d ∷ []

-- What is written, is being written, and waits, in this order.
abbrev pub in_order : Writer → List Bytes
in_order x = x.written ++ (under_way x.current ++ x.write_queue)

-- A write is under way exactly while `writing_` is set, and without one nothing waits.
abbrev IsSound : Bool → Option Bytes → List Bytes → Type 0
IsSound true (some d) waiting = Unit {0}
IsSound true none waiting = ⊥
IsSound false (some d) waiting = ⊥
IsSound false none waiting = waiting ≡ []

abbrev Sound : Writer → Type 0
Sound x = IsSound x.writing x.current x.write_queue

abbrev writer : List Bytes → Bool → Option Bytes → List Bytes → Writer
writer waiting writing current written = record {
  write_queue = waiting;
  writing = writing;
  current = current;
  written = written;
}

-- One action: what it adds to the order, and that the state stays sound.
abbrev Adds : Writer → List Bytes → Writer → Type 0
Adds x ds y = (in_order y ≡ in_order x ++ ds) × Sound y

append_last :
    (written current waiting : List Bytes) (d : Bytes)
    → written ++ (current ++ (waiting ++ d ∷ [])) ≡ (written ++ (current ++ waiting)) ++ d ∷ []
append_last written current waiting d = simp append_assoc

send-Adds :
    (d : Bytes) (waiting : List Bytes) (b : Bool) (current : Option Bytes) (written : List Bytes)
    → IsSound b current waiting
    → Adds
        (writer waiting b current written)
        (d ∷ [])
        (send_frame d (writer waiting b current written))
unfolding send_frame do_write
send-Adds d waiting true (some e) written h = (append_last written (e ∷ []) waiting d, tt)
send-Adds d waiting true none written h = absurd h
send-Adds d waiting false (some e) written h = absurd h
send-Adds d [] false none written h = (simp append-nil, tt)
send-Adds d (e ∷ more) false none written h = absurd (cc)

finish-Adds :
    (waiting : List Bytes) (b : Bool) (current : Option Bytes) (written : List Bytes)
    → IsSound b current waiting
    → Adds (writer waiting b current written) [] (write_done (writer waiting b current written))
unfolding write_done do_write
finish-Adds waiting b none written h = (sym (append-nil _), h)
finish-Adds [] true (some d) written h = (simp append-nil, refl)
finish-Adds (e ∷ more) true (some d) written h = (simp (append_assoc, append-nil), tt)
finish-Adds waiting false (some d) written h = absurd h

act_all-Adds :
    (actions : List Action) (x : Writer) → Sound x → Adds x (sends actions) (act_all actions x)
unfolding act_all act
act_all-Adds [] x h = (sym (append-nil _), h)
act_all-Adds (send d ∷ more) x h =
    let first = send-Adds d x.write_queue x.writing x.current x.written h in
    let rest = act_all-Adds more (send_frame d x) first.1 in
    (
      rest.0 ∙ ap (λ l. l ++ sends more) first.0 ∙ append_assoc (in_order x) (d ∷ []) (sends more),
      rest.1,
    )
act_all-Adds (finish ∷ more) x h =
    let first = finish-Adds x.write_queue x.writing x.current x.written h in
    let rest = act_all-Adds more (write_done x) first.1 in
    (rest.0 ∙ ap (λ l. l ++ sends more) (first.0 ∙ append-nil _), rest.1)

all_written :
    (b : Bool) (current : Option Bytes) (waiting written : List Bytes)
    → IsSound b current waiting
    → b ≡ false
    → written ++ (under_way current ++ waiting) ≡ written
all_written true current waiting written h e = absurd (cc)
all_written false (some d) waiting written h e = absurd h
all_written false none waiting written h e = ap (λ l. written ++ l) h ∙ append-nil written

-- A connection writes its frames in the order in which they were sent, none lost and none twice: at
-- any time what is written, then what is being written, then what waits, are together the frames
-- that were sent. When no write is under way, all of them are written.
pub act_all_lem :
    (actions : List Action)
    → (in_order (act_all actions new_writer) ≡ sends actions)
      × (((act_all actions new_writer).writing ≡ true)
          ⊎ ((act_all actions new_writer).written ≡ sends actions))
act_all_lem actions =
    let x = act_all actions new_writer in
    let all = act_all-Adds actions new_writer refl in
    (
      all.0,
      elim (Bool-cases x.writing) [
        | inl e ↦ inl e
        | inr e ↦
            inr (sym (all_written x.writing x.current x.write_queue x.written all.1 e) ∙ all.0)
      ],
    )
