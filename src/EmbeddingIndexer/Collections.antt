-- ===== src/EmbeddingIndexer/Collections.antt =====
-- What `ensure_collection` leaves.
use personal_intelligence.Base.{
  ℕ, ◌≡◌, refl, ◌∙◌, ap, false, Option, none, some, List, [], ◌∷◌, ◌++◌, Text, text_eq, ◌==◌,
  ==_refl, ==_eq, Bool-cases, Option-cases, inl, inr,
}
use personal_intelligence.EmbeddingIndexer.Qdrant.{
  Collection, Alias, Store, find_collection, create_collection, find_alias, delete_alias,
  create_alias,
}
use personal_intelligence.EmbeddingIndexer.Service.{ensure_there, point_alias, ensure_named}

find_alias-create_alias :
    (name collection : Text) (aliases : List Alias)
    → find_alias name aliases ≡ none
    → find_alias name (create_alias name collection aliases) ≡ some collection
unfolding find_alias
find_alias-create_alias name collection [] = λ h. rw (==_refl name) refl
find_alias-create_alias name collection (a ∷ aliases) = elim (Bool-cases (a.alias_name == name)) [
  | inl hit ↦ rw hit (λ h. absurd cc)
  | inr miss ↦ rw miss (find_alias-create_alias name collection aliases)
]

find_alias-delete_alias :
    (name : Text) (aliases : List Alias) → find_alias name (delete_alias name aliases) ≡ none
unfolding find_alias
find_alias-delete_alias name [] = refl
find_alias-delete_alias name (a ∷ aliases) = elim (Bool-cases (a.alias_name == name)) [
  | inl hit ↦ rw hit (find_alias-delete_alias name aliases)
  | inr miss ↦ rw miss (rw miss (find_alias-delete_alias name aliases))
]

find_other-create_alias :
    (name other collection : Text) (aliases : List Alias)
    → (name == other) ≡ false
    → find_alias other (create_alias name collection aliases) ≡ find_alias other aliases
unfolding find_alias
find_other-create_alias name other collection [] h = rw h refl
find_other-create_alias name other collection (a ∷ aliases) h =
    elim (Bool-cases (a.alias_name == other)) [
      | inl hit ↦ rw hit refl
      | inr miss ↦ rw miss (find_other-create_alias name other collection aliases h)
    ]

find_other-delete_alias :
    (name other : Text) (aliases : List Alias)
    → (name == other) ≡ false
    → find_alias other (delete_alias name aliases) ≡ find_alias other aliases
unfolding find_alias
find_other-delete_alias name other [] h = refl
find_other-delete_alias name other (a ∷ aliases) h = elim (Bool-cases (a.alias_name == name)) [
  | inl hit ↦
      rw (==_eq a.alias_name name hit, ==_refl name, h)
        (find_other-delete_alias name other aliases h)
  | inr miss ↦ rw miss (elim (Bool-cases (a.alias_name == other)) [
    | inl there ↦ rw there refl
    | inr away ↦ rw away (find_other-delete_alias name other aliases h)
  ])
]

module _ {Number : Type 0} where
  find_collection-create_collection :
      (name : Text) (size : ℕ) (cs : List (Collection Number))
      → find_collection name cs ≡ none
      → find_collection name (cs ++ record { name = name; size = size; points = [] } ∷ [])
        ≡ some (record { name = name; size = size; points = [] })
  unfolding find_collection
  find_collection-create_collection name size [] = λ h. rw (==_refl name) refl
  find_collection-create_collection name size (c ∷ cs) = elim (Bool-cases (c.name == name)) [
    | inl hit ↦ rw hit (λ h. absurd cc)
    | inr miss ↦ rw miss (find_collection-create_collection name size cs)
  ]

  module _ (alias_name name : Text) (dimension : ℕ) where
    -- The collection is there, and the alias points to it.
    pub record IsSettled (q : Store Number) : Type 0 where
      pub collection : Collection Number
      pub there : find_collection name q.collections ≡ some collection
      pub pointed : find_alias alias_name q.aliases ≡ some name

    ensure_named-settled :
        (q : Store Number) → IsSettled q → ensure_named alias_name name dimension q ≡ q
    unfolding ensure_named
    ensure_named-settled q h = rw (h.there, h.pointed, ==_refl name) refl

    point_alias-IsSettled :
        (q : Store Number) (c : Collection Number) (target : Option Text)
        → find_collection name q.collections ≡ some c
        → find_alias alias_name q.aliases ≡ target
        → IsSettled (point_alias target alias_name name q)
    point_alias-IsSettled q c none there target = record {
      collection = c;
      there = there;
      pointed = find_alias-create_alias alias_name name q.aliases target;
    }
    point_alias-IsSettled q c (some old) there target = elim (Bool-cases (old == name)) [
      | inl same ↦ rw same (record {
        collection = c;
        there = there;
        pointed = target ∙ ap some (==_eq old name same);
      })
      | inr differs ↦ rw differs (record {
        collection = c;
        there = there;
        pointed =
            find_alias-create_alias alias_name name (delete_alias alias_name q.aliases)
              (find_alias-delete_alias alias_name q.aliases);
      })
    ]

    ensure_named-IsSettled :
        (q : Store Number) → IsSettled (ensure_named alias_name name dimension q)
    unfolding ensure_named create_collection
    ensure_named-IsSettled q = elim (Option-cases (find_collection name q.collections)) [
      | inr (c, there) ↦ rw there (point_alias-IsSettled q c _ there refl)
      | inl missing ↦ rw missing (
          point_alias-IsSettled (create_collection name dimension q) _ _
            (find_collection-create_collection name dimension q.collections missing) refl)
    ]

    point_alias-others :
        (q : Store Number) (target : Option Text) (other : Text)
        → (alias_name == other) ≡ false
        → find_alias other (point_alias target alias_name name q).aliases
          ≡ find_alias other q.aliases
    point_alias-others q none other h = find_other-create_alias alias_name other name q.aliases h
    point_alias-others q (some old) other h = elim (Bool-cases (old == name)) [
      | inl same ↦ rw same refl
      | inr differs ↦ rw differs (
          find_other-create_alias alias_name other name (delete_alias alias_name q.aliases) h
          ∙ find_other-delete_alias alias_name other q.aliases h)
    ]

    ensure_there-aliases :
        (found : Option (Collection Number)) (q : Store Number)
        → (ensure_there found name dimension q).aliases ≡ q.aliases
    unfolding create_collection
    ensure_there-aliases none q = refl
    ensure_there-aliases (some c) q = refl

    -- Whatever collections and aliases there were, the collection is there afterwards, the alias points to
    -- it, a second call changes nothing, and every other alias points to what it pointed to.
    pub ensure_named_lem :
        (q : Store Number) (other : Text)
        → (alias_name == other) ≡ false
        → let after = ensure_named alias_name name dimension q in
          IsSettled after
          × ((ensure_named alias_name name dimension after ≡ after)
              × (find_alias other after.aliases ≡ find_alias other q.aliases))
    unfolding ensure_named
    ensure_named_lem q other h = (
      ensure_named-IsSettled q,
      (
        ensure_named-settled _ (ensure_named-IsSettled q),
        point_alias-others _ _ other h
            ∙ ap (find_alias other) (ensure_there-aliases (find_collection name q.collections) q),
      ),
    )
