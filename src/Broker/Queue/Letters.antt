-- ===== src/Broker/Queue/Letters.antt =====
-- The letters that a queue makes of messages that died, described by what they have.
use ganshin_mq.Base.{
  ◌+◌, ◌%◌, ◌^◌, Bool, true, false, not, ◌&&◌, ◌||◌, Bytes, bytes_beq, codes, List, [], ◌∷◌, Option,
  none, some, ◌==◌, nat_eq, bytes_eq, if◌then◌else◌, leb, ltb, keep_if, ◌≡◌, refl, ◌∙◌, arith,
  Bool-cases, inl, inr,
}
use ganshin_mq.Amqp.FieldValue.{FieldValue, FieldTable, end, long_string, find, assign}
use ganshin_mq.Amqp.FieldValue.Assigned.{find-assign}
use ganshin_mq.Broker.Message.{Message}
use ganshin_mq.Broker.Queue.{
  MessageQueue, DeadLetter, death_headers, dead_letter, deliver_dead_letters, max_dlx_hops,
}

abbrev pub header_of : Bytes → Message → Option FieldValue
header_of name m = elim m.properties.headers [ none ↦ none | some h ↦ find name h ]

-- What the headers of a letter tell of the message's death.
abbrev pub TellsOf : MessageQueue → Message → Bytes → Message → Type 0
TellsOf q m reason letter =
    (header_of (codes "x-first-death-exchange") letter ≡ some (long_string m.exchange))
    × (header_of (codes "x-first-death-queue") letter ≡ some (long_string q.name))
    × (header_of (codes "x-first-death-reason") letter ≡ some (long_string reason))

-- A letter has the message, its count of deaths and the address that the queue has for letters.
abbrev pub IsLetter : MessageQueue → Bytes → Message → DeadLetter → Type 0
IsLetter q reason m d =
    (d.dlx ≡ q.dlx_exchange)
    × (d.key ≡ (if q.dlx_routing_key == [] then m.routing_key else q.dlx_routing_key))
    × (d.letter.dlx_hops ≡ (m.dlx_hops + 1) % 2 ^ 32)
    × (d.letter.body ≡ m.body)
    × (d.letter.exchange ≡ m.exchange)
    × (d.letter.routing_key ≡ m.routing_key)
    × TellsOf q m reason d.letter

-- One letter of each message, in order.
abbrev pub AreLetters : MessageQueue → Bytes → List Message → List DeadLetter → Type 0
AreLetters q reason [] [] = Unit {0}
AreLetters q reason (m ∷ ms) (d ∷ ds) = IsLetter q reason m d × AreLetters q reason ms ds
AreLetters q reason _ _ = ⊥

-- The queue makes a letter of a message: it has an exchange for letters and a handler, and the
-- message has died at most 20 times.
abbrev pub posts : MessageQueue → Message → Bool
posts q m = not (q.dlx_exchange == []) && (q.dead_letter_fn && leb ((m.dlx_hops + 1) % 2 ^ 32) 20)

letter-TellsOf :
    (q : MessageQueue) (reason : Bytes) (m : Message)
    → TellsOf q m reason (record m {
      dlx_hops = (m.dlx_hops + 1) % 2 ^ 32;
      properties = record (m.properties) { headers = some (death_headers q reason m) };
    })
unfolding death_headers bytes_beq
letter-TellsOf q reason m =
    let rest : FieldTable = elim m.properties.headers [ none ↦ end | some h ↦ h ] in
    let told : FieldTable = assign (codes "x-first-death-reason") (long_string reason) rest in
    let named : FieldTable = assign (codes "x-first-death-queue") (long_string q.name) told in
    (
      find-assign (codes "x-first-death-exchange") (codes "x-first-death-exchange")
          (long_string m.exchange) named,
      find-assign (codes "x-first-death-exchange") (codes "x-first-death-queue")
            (long_string m.exchange) named
          ∙ find-assign (codes "x-first-death-queue") (codes "x-first-death-queue")
              (long_string q.name) told,
      find-assign (codes "x-first-death-exchange") (codes "x-first-death-reason")
            (long_string m.exchange) named
          ∙ find-assign (codes "x-first-death-queue") (codes "x-first-death-reason")
              (long_string q.name) told
          ∙ find-assign (codes "x-first-death-reason") (codes "x-first-death-reason")
              (long_string reason) rest,
    )

-- The letters of the messages that a queue makes letters of.
pub deliver_dead_letters-AreLetters :
    (q : MessageQueue) (ms : List Message)
    → AreLetters q (codes "expired") (keep_if (posts q) ms) (deliver_dead_letters q ms)
unfolding deliver_dead_letters dead_letter
deliver_dead_letters-AreLetters q [] = tt
deliver_dead_letters-AreLetters q (m ∷ ms) =
    elim (Bool-cases (q.dlx_exchange == [] || not q.dead_letter_fn)) [
      | inl off ↦
          let none_posted : posts q m ≡ false = ground (arith, off) in
          rw (off, none_posted) (deliver_dead_letters-AreLetters q ms)
      | inr on ↦ elim (Bool-cases (ltb max_dlx_hops ((m.dlx_hops + 1) % 2 ^ 32))) [
        | inl over ↦
            let none_posted : posts q m ≡ false = ground (arith, over) in
            rw (on, over, none_posted) (deliver_dead_letters-AreLetters q ms)
        | inr within ↦
            let posted : posts q m ≡ true = ground (arith, on, within) in
            rw (on, within, posted)
              (
                (refl, refl, refl, refl, refl, refl, letter-TellsOf q (codes "expired") m),
                deliver_dead_letters-AreLetters q ms,
              )
      ]
    ]
