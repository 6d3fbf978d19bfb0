-- ===== src/EmbeddingIndexer/Tests.antt =====
-- A small index, and the theorems there.
use personal_intelligence.Base.{
  Text, ℕ, zero, suc, ◌≡◌, refl, ap, none, List, [], ◌∷◌, text, pos, length, text_eq, same_text,
  show_nat, lstrip_by, rstrip_by,
}
use personal_intelligence.Exec.{Result, ok, err, invalid_payload}
use personal_intelligence.Contracts.{EmbeddingJob}
use personal_intelligence.EmbeddingIndexer.Vectors.{
  Json, dict, list, scalar, item, no_item, field, no_field, get, floats, extract_embedding_vector,
}
use personal_intelligence.EmbeddingIndexer.Qdrant.{Store, find_collection, find_alias, find_point}
use personal_intelligence.EmbeddingIndexer.Service.{
  Settings, Services, State, Entry, dashed, collection_name, ensure_named, run,
}
use personal_intelligence.EmbeddingIndexer.Collections.{IsSettled, ensure_named_lem}
use personal_intelligence.EmbeddingIndexer.Answers.{
  direct_answer, listed_answer, extract_embedding_vector_lem,
}
use personal_intelligence.EmbeddingIndexer.Index.{Implements, index_reads, run-Implements}

abbrev read_number : Json → Result ℕ
read_number (scalar t) = ok (length t)
read_number (dict fields) = err (invalid_payload (text "float"))
read_number (list items) = err (invalid_payload (text "float"))

-- A number in unary
abbrev ones : ℕ → Text
ones zero = []
ones (suc n) = 49 ∷ ones n

length-ones : (n : ℕ) → length (ones n) ≡ n
length-ones zero = refl
length-ones (suc n) = ap suc (length-ones n)

abbrev vector_answer : Json
vector_answer = dict (
    field (text "embedding") (list (item (scalar (text "a")) (item (scalar (text "bb")) no_item)))
      no_field)

abbrev nested_answer : Json
nested_answer = dict (field (text "data") (list (item vector_answer no_item)) no_field)

reads_nested : extract_embedding_vector read_number nested_answer ≡ ok (1 ∷ 2 ∷ [])
unfolding extract_embedding_vector floats get same_text
reads_nested = refl

names_collection :
    collection_name (λ t. t) (text "pil") (text "qwen/qwen3:8b") 2 ≡ text "pil_qwen-qwen3-8b_2_v1"
unfolding collection_name dashed show_nat lstrip_by rstrip_by
names_collection = refl

abbrev settings : Settings
settings = record { qdrant_alias_name = text "active"; wormsoft_embedding_model = text "m" }

abbrev services : Services ℕ
services = record {
  to_float = read_number;
  post = λ model content. ok vector_answer;
  casefold = λ t. t;
}

abbrev empty_store : Store ℕ
empty_store = record {
  collections = record { name = text "c2"; size = 2; points = [] } ∷ [];
  aliases = record { alias_name = text "active"; collection_name = text "c2" } ∷ [];
}

ensure_named_lem_example :
    let after = ensure_named (text "active") (text "c3") 3 empty_store in
    IsSettled (text "active") (text "c3") 3 after
    × ((ensure_named (text "active") (text "c3") 3 after ≡ after)
        × (find_alias (text "other") after.aliases ≡ find_alias (text "other") empty_store.aliases))
unfolding same_text
ensure_named_lem_example =
    ensure_named_lem (text "active") (text "c3") 3 empty_store (text "other") refl

abbrev job : EmbeddingJob
job = record {
  source_window_id = text "w1";
  tg_chat_id = pos 7;
  analysis_window_id = text "w1";
  person_ids = [];
  topic_tags = [];
  narrative_text = text "hello";
  profile_provider = text "p";
  profile_model = text "m";
  profile_alias = text "active";
  trace_id = none;
}

abbrev reads : List (Result (List Entry))
reads = ok (record { msg_id = text "1"; payload = ok job; handled_at = 5 } ∷ []) ∷ []

abbrev state : State ℕ
state = record { clock = 0; store = empty_store; acked = [] }

empty_store-Implements : Implements settings services 2 (λ id. none) empty_store
unfolding find_alias find_collection find_point same_text
empty_store-Implements = record {
  ready = record {
    collection = record { name = text "c2"; size = 2; points = [] };
    behind_it = refl;
    sized = refl;
  };
  holds = λ id. refl;
}

run-Implements_example :
    Implements settings services 2
      (index_reads settings services 2 reads (λ id. none))
      (run settings services reads state).store
run-Implements_example =
    run-Implements settings services 2 reads (λ id. none) state empty_store-Implements

abbrev written_number : ℕ → Json
written_number n = scalar (ones n)

read_number-written : (n : ℕ) → read_number (written_number n) ≡ ok n
read_number-written n = ap ok (length-ones n)

extract_embedding_vector_lem_example :
    (extract_embedding_vector read_number (direct_answer written_number (1 ∷ 2 ∷ []))
      ≡ ok (1 ∷ 2 ∷ []))
    × (extract_embedding_vector read_number (listed_answer written_number (1 ∷ 2 ∷ []) no_item)
        ≡ ok (1 ∷ 2 ∷ []))
extract_embedding_vector_lem_example =
    extract_embedding_vector_lem written_number read_number read_number-written (1 ∷ 2 ∷ []) no_item
