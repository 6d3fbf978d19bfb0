-- ===== src/EmbeddingIndexer/Answers.antt =====
-- The two shapes of an answer of the embedding service, and what is read from them.
use personal_intelligence.Base.{◌≡◌, refl, List, [], ◌∷◌, text, same_text}
use personal_intelligence.Exec.{Result, ok}
use personal_intelligence.EmbeddingIndexer.Vectors.{
  Json, dict, list, Items, item, no_item, field, no_field, get, floats, extract_embedding_vector,
}

module _ {Number : Type 0} (to_json : Number → Json) where
  abbrev pub items_of : List Number → Items
  items_of [] = no_item
  items_of (n ∷ numbers) = item (to_json n) (items_of numbers)

  -- {"embedding": [...]}
  abbrev pub direct_answer : List Number → Json
  direct_answer numbers = dict (field (text "embedding") (list (items_of numbers)) no_field)

  -- {"object": "list", "data": [{"embedding": [...]}, ...]}
  abbrev pub listed_answer : List Number → Items → Json
  listed_answer numbers others = dict (
      field (text "object") (Json.scalar (text "list"))
        (field (text "data") (list (item (direct_answer numbers) others)) no_field))

  module _ (to_float : Json → Result Number) where
    floats-items_of :
        ((n : Number) → to_float (to_json n) ≡ ok n)
        → (numbers : List Number) → floats to_float (items_of numbers) ≡ ok numbers
    unfolding floats
    floats-items_of back [] = refl
    floats-items_of back (n ∷ numbers) = rw (back n, floats-items_of back numbers) refl

    -- If `float` gives each number back from its JSON, then a vector comes back from both shapes of an
    -- answer that carries it, and the further embeddings of a list are passed over.
    pub extract_embedding_vector_lem :
        (back : (n : Number) → to_float (to_json n) ≡ ok n) (numbers : List Number) (others : Items)
        → (extract_embedding_vector to_float (direct_answer numbers) ≡ ok numbers)
          × (extract_embedding_vector to_float (listed_answer numbers others) ≡ ok numbers)
    unfolding extract_embedding_vector get same_text
    extract_embedding_vector_lem back numbers others =
        (floats-items_of back numbers, floats-items_of back numbers)
