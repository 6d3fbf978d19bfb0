-- ===== src/Orchestrator/Acks.antt =====
-- The loop of `run` in consumer.py: every entry that was read is acknowledged, once and in order,
-- whether its handler returns or raises.
use personal_intelligence.Base.{List, [], ◌∷◌, ◌++◌, map, Text}
use personal_intelligence.Exec.{Result, ok, err}
use personal_intelligence.Exec.Leaves.{Leaves}
use personal_intelligence.Orchestrator.Settings.{Settings}
use personal_intelligence.Orchestrator.State.{State}
use personal_intelligence.Orchestrator.Consumer.{Entry}

-- What is acknowledged so far. No handler writes it.
abbrev acked_of : State → List Text
acked_of s = s.acked

-- The ids of the entries that a read gave.
abbrev msg_ids : List Entry → List Text
msg_ids entries = map (λ e. e.msg_id) entries

abbrev ids_read : List (Result (List Entry)) → List Text
ids_read [] = []
ids_read (err e ∷ reads) = ids_read reads
ids_read (ok entries ∷ reads) = msg_ids entries ++ ids_read reads
