-- ===== src/Broker/Queue/Dispatch.antt =====
-- broker/queue.h: `dispatchLocked`.
use ganshin_mq.Base.{
  ℕ, zero, suc, ◌+◌, ◌%◌, ◌^◌, Bool, not, ◌&&◌, Bytes, List, [], ◌∷◌, Option, none, some, ◌==◌,
  nat_eq, if◌then◌else◌, leb, ltb, length, get_elem?, set,
}
use ganshin_mq.Broker.Message.{Message}
use ganshin_mq.Broker.Consumer.{Consumer}

-- A call of `on_deliver`: the consumer's place and tag, and the message, of which the callback is
-- passed the members redelivered, exchange, routing_key, properties and body.
pub record Delivery : Type 0 where
  pub place : ℕ
  pub consumer_tag : Bytes
  pub taken : Message

-- None of the three `continue`s is taken.
unfoldable pub ready : Consumer → Message → Bool
ready c m =
    c.on_deliver
    && not (ltb 0 c.prefetch_count && leb c.prefetch_count c.in_flight)
    && not (c.no_local && m.source_connection_id == c.connection_id)

-- `if (!consumer->no_ack) consumer->in_flight.fetch_add(1)`, on 32 bits.
unfoldable pub take_slot : Consumer → Consumer
take_slot c = record c { in_flight = if c.no_ack then c.in_flight else (c.in_flight + 1) % 2 ^ 32 }

-- The inner loop, with the attempts that are left: the new index, and the consumer that was found.
unfoldable pub find_consumer : ℕ → List Consumer → ℕ → Message → ℕ × Option (ℕ × Consumer)
find_consumer zero cs rr m = (rr, none)
find_consumer (suc attempts) cs rr m =
    let rr' = (rr + 1) % 2 ^ 64 in
    let on = find_consumer attempts cs rr' m in
    elim (get_elem? cs (rr % length cs)) [
      | none ↦ on
      | some c ↦ if ready c m then (rr', some (rr % length cs, c)) else on
    ]

-- The outer loop: what is left, the consumers, the index, and the deliveries.
unfoldable pub dispatch_loop :
    List Message → List Consumer → ℕ → List Message × List Consumer × ℕ × List Delivery
dispatch_loop [] cs rr = ([], cs, rr, [])
dispatch_loop (m ∷ ms) cs rr =
    let (rr', found) = find_consumer (length cs) cs rr m in
    elim found [
      | none ↦ (m ∷ ms, cs, rr', [])
      | some (i, c) ↦
          let (rest, cs', rr'', out) = dispatch_loop ms (set cs i (take_slot c)) rr' in
          (rest, cs', rr'', record { place = i; consumer_tag = c.tag; taken = m } ∷ out)
    ]

unfoldable pub dispatch :
    List Message → List Consumer → ℕ → List Message × List Consumer × ℕ × List Delivery
dispatch ms [] rr = (ms, [], rr, [])
dispatch ms (c ∷ cs) rr = dispatch_loop ms (c ∷ cs) rr
