-- ===== src/Broker/Queue/Sort.antt =====
-- `std::stable_sort` by falling priority: equal priorities keep their order.
use ganshin_mq.Base.{List, [], ◌∷◌, if◌then◌else◌, ltb}
use ganshin_mq.Broker.Message.{Message, effective_priority}

-- The message goes in front of the first that it does not come after.
unfoldable pub insert_sorted : Message → List Message → List Message
insert_sorted m [] = m ∷ []
insert_sorted m (x ∷ xs) =
    let rest = insert_sorted m xs in
    if ltb (effective_priority m) (effective_priority x) then x ∷ rest else m ∷ x ∷ xs

unfoldable pub stable_sort : List Message → List Message
unfolding insert_sorted
stable_sort [] = []
stable_sort (m ∷ ms) = insert_sorted m (stable_sort ms)
