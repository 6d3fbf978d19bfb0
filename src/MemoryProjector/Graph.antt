-- ===== src/MemoryProjector/Graph.antt =====
-- `_project_neo4j` of consumer.py: the nodes and the edges of the graph. MERGE finds or creates, and an
-- edge between two persons has no direction.
use personal_intelligence.Base.{
  ℕ, ◌+◌, Bool, ◌&&◌, ◌||◌, List, [], ◌∷◌, ◌++◌, map, Text, text_eq, ℤ, int_eq, nat_eq, ◌==◌, Eq,
  elem, if◌then◌else◌,
}
use personal_intelligence.Contracts.{ChatType, ProjectionCommand}

pub record ChatNode : Type 0 where
  pub tg_chat_id : ℤ
  pub kind : ChatType

pub record Communication : Type 0 where
  pub person_a : ℕ
  pub person_b : ℕ
  pub last_window_id : Text
  pub weight : ℕ

-- `discusses` has chats and topics, `mentioned_topic` persons and topics.
pub record Graph : Type 0 where
  pub chats : List ChatNode
  pub persons : List (ℕ × ℤ)
  pub participates_in : List (ℕ × ℤ)
  pub communicated_with : List Communication
  pub topics : List Text
  pub discusses : List (ℤ × Text)
  pub mentioned_topic : List (ℕ × Text)

abbrev pub empty_graph : Graph
empty_graph = record {
  chats = [];
  persons = [];
  participates_in = [];
  communicated_with = [];
  topics = [];
  discusses = [];
  mentioned_topic = [];
}

-- MERGE of a node that its key makes up
abbrev pub merge_key {ℓ} : {A : Type ℓ} ⦃e : Eq A⦄ → A → List A → List A
merge_key key keys = if elem key keys then keys else keys ++ key ∷ []

-- MERGE of an edge, by its two ends
unfoldable pub merge_pair :
    {A B : Type 0} ⦃a_eq : Eq A⦄ ⦃b_eq : Eq B⦄ → A → B → List (A × B) → List (A × B)
merge_pair a b [] = (a, b) ∷ []
merge_pair a b (e ∷ es) =
    let rest = merge_pair a b es in if e.0 == a && e.1 == b then e ∷ es else e ∷ rest

unfoldable pub merge_chat : ℤ → ChatType → List ChatNode → List ChatNode
merge_chat chat kind [] = record { tg_chat_id = chat; kind = kind } ∷ []
merge_chat chat kind (c ∷ cs) =
    let rest = merge_chat chat kind cs in
    if c.tg_chat_id == chat then record c { kind = kind } ∷ cs else c ∷ rest

-- MERGE (p:Person {id}) SET p.tg_user_id
unfoldable pub merge_person_node : ℕ → ℤ → List (ℕ × ℤ) → List (ℕ × ℤ)
merge_person_node id user [] = (id, user) ∷ []
merge_person_node id user (p ∷ ps) =
    let rest = merge_person_node id user ps in if p.0 == id then (id, user) ∷ ps else p ∷ rest

abbrev pub joins : ℕ → ℕ → Communication → Bool
joins a b e = (e.person_a == a && e.person_b == b) || (e.person_a == b && e.person_b == a)

-- SET r.weight = coalesce(r.weight, 0) + 1
unfoldable pub communicate : Text → ℕ → ℕ → List Communication → List Communication
communicate window a b [] =
    record { person_a = a; person_b = b; last_window_id = window; weight = 1 } ∷ []
communicate window a b (e ∷ es) =
    let rest = communicate window a b es in
    if joins a b e
    then record e { last_window_id = window; weight = e.weight + 1 } ∷ es
    else e ∷ rest

-- `combinations(values, 2)`
unfoldable pub combinations : List ℕ → List (ℕ × ℕ)
combinations [] = []
combinations (a ∷ rest) = map (λ b. (a, b)) rest ++ combinations rest

unfoldable pub communicate_all : Text → List (ℕ × ℕ) → List Communication → List Communication
communicate_all window [] es = es
communicate_all window ((a, b) ∷ pairs) es =
    communicate_all window pairs (communicate window a b es)

unfoldable pub add_participants : ℤ → List (ℤ × ℕ) → Graph → Graph
add_participants chat [] g = g
add_participants chat ((user, id) ∷ participants) g = add_participants chat participants (record g {
  persons = merge_person_node id user g.persons;
  participates_in = merge_pair id chat g.participates_in;
})

unfoldable pub add_mentions : Text → List ℕ → List (ℕ × Text) → List (ℕ × Text)
add_mentions topic [] edges = edges
add_mentions topic (id ∷ ids) edges = add_mentions topic ids (merge_pair id topic edges)

unfoldable pub add_topics : ℤ → List ℕ → List Text → Graph → Graph
add_topics chat ids [] g = g
add_topics chat ids (topic ∷ topics) g = add_topics chat ids topics (record g {
  topics = merge_key topic g.topics;
  discusses = merge_pair chat topic g.discusses;
  mentioned_topic = add_mentions topic ids g.mentioned_topic;
})

abbrev pub ids_of : List (ℤ × ℕ) → List ℕ
ids_of participants = map (λ p. p.1) participants

-- The whole write, in one transaction of Neo4j.
unfoldable pub project_graph : ProjectionCommand → List (ℤ × ℕ) → Graph → Graph
project_graph command participants g =
    let with_chat = record g {
      chats = merge_chat command.tg_chat_id command.features.chat_type g.chats;
    } in
    let with_people = add_participants command.tg_chat_id participants with_chat in
    let with_edges = record with_people {
      communicated_with =
          communicate_all command.source_window_id (combinations (ids_of participants))
            with_people.communicated_with;
    } in
    add_topics command.tg_chat_id (ids_of participants) command.result.topics with_edges
