-- ===== src/Tests/Statistics.antt =====
-- The theorem on the text of the statistics, and a file that is written.
use ganshin_mq.Base.{codes, [], ◌∷◌, ◌++◌, none, some, ◌≡◌, refl}
use ganshin_mq.Base.Map.{insert}
use ganshin_mq.Broker.Server.{Server, accept, new_server, snapshot_connections}
use ganshin_mq.Broker.Stats.{json_escape, connection_json, all_json}
use ganshin_mq.Broker.Stats.Json.{plain, IsPrintable, read_string, read_string-json_escape}

-- A quote, a backslash, a line feed and a control character.
read_string-json_escape_example :
    (read_string plain (json_escape (codes "a\"\\" ++ (10 ∷ 1 ∷ [])) ++ (34 ∷ codes ",x"))
      ≡ some (codes "a\"\\" ++ (10 ∷ 1 ∷ []), codes ",x"))
    × IsPrintable (json_escape (codes "a\"\\" ++ (10 ∷ 1 ∷ [])))
read_string-json_escape_example =
    read_string-json_escape (codes "a\"\\" ++ (10 ∷ 1 ∷ [])) (codes ",x")

-- A server with one client that has not logged in.
abbrev served : Server
served = accept (codes "1.2.3.4:5") 7 (new_server 0 none none)

served_json :
    all_json connection_json (snapshot_connections served)
    ≡ codes "{\"id\":1,\"user\":\"\",\"peer\":\"1.2.3.4:5\",\"connected_at_ms\":7,\"channels\":0}"
      ∷ []
unfolding all_json connection_json snapshot_connections accept new_server insert
served_json = refl
