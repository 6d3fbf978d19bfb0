-- ===== src/MemoryProjector/Rows.antt =====
-- The rows of an analysis: what a projection leaves in the tables of facts and signals.
use mathlib.Core.List.{append-nil}
use personal_intelligence.Base.{
  ◌≡◌, refl, sym, ap, ◌∙◌, false, not, List, [], ◌∷◌, ◌++◌, map, keep_if, Text, text_eq, ◌==◌,
  ==_refl, ==_eq, Bool-cases, inl, inr, if◌then◌else◌,
}
use personal_intelligence.Exec.{Result-cases, ok, gets, pure, ◌>>=◌}
use personal_intelligence.Exec.Leaves.{Leaves, leaves_rules}
use personal_intelligence.Exec.Becomes.{
  Becomes, bind-Becomes_later, bind-Becomes_now, modify-Becomes,
}
use personal_intelligence.Contracts.{ProjectionCommand}
use personal_intelligence.Store.Ledger
use personal_intelligence.MemoryProjector.Tables.{Db, Fact, Signal}
use personal_intelligence.MemoryProjector.Windows.{
  fact_of, signal_of, replace_facts, replace_signals,
}
use personal_intelligence.MemoryProjector.Owner.{Settings}
use personal_intelligence.MemoryProjector.Consumer.{
  State, Externals, Projection, consumer_name, is_processed, transaction, write_db, project,
  handle_projection,
}
use personal_intelligence.MemoryProjector.Atomic.{announce_db}
use personal_intelligence.MemoryProjector.Steps.{
  IsAside, in_db, write_db_same, ensure_chat-Leaves, ensure_participants-Leaves, window-Leaves,
  sync_tasks-Leaves, upsert_interaction-Leaves, write_audit_log-Leaves, mark_processed-Leaves,
  write_artifact-Leaves,
}

-- Rows that are replaced by a key: those of the key go, and new ones of the key come.
module _ {R : Type 0} (key : R → Text) where
  abbrev pub rows_of : Text → List R → List R
  rows_of k rows = keep_if (λ r. key r == k) rows

  abbrev rows_without : Text → List R → List R
  rows_without k rows = keep_if (λ r. not (key r == k)) rows

  rows_of-append : (k : Text) (xs ys : List R) → rows_of k (xs ++ ys) ≡ rows_of k xs ++ rows_of k ys
  rows_of-append k [] ys = refl
  rows_of-append k (x ∷ xs) ys = elim (Bool-cases (key x == k)) [
    | inl hit ↦ rw hit (ap (λ rest. x ∷ rest) (rows_of-append k xs ys))
    | inr miss ↦ rw miss (rows_of-append k xs ys)
  ]

  rows_of_same : (k : Text) (rows : List R) → rows_of k (rows_without k rows) ≡ []
  rows_of_same k [] = refl
  rows_of_same k (r ∷ rows) = elim (Bool-cases (key r == k)) [
    | inl hit ↦ rw hit (rows_of_same k rows)
    | inr miss ↦ rw miss (rw miss (rows_of_same k rows))
  ]

  rows_of_other :
      (k other : Text) (rows : List R)
      → (k == other) ≡ false
      → rows_of other (rows_without k rows) ≡ rows_of other rows
  rows_of_other k other [] ne = refl
  rows_of_other k other (r ∷ rows) ne = elim (Bool-cases (key r == k)) [
    | inl hit ↦
        rw (hit, ap (λ t. t == other) (==_eq (key r) k hit) ∙ ne) (rows_of_other k other rows ne)
    | inr miss ↦ rw miss (elim (Bool-cases (key r == other)) [
      | inl here ↦ rw here (ap (λ rest. r ∷ rest) (rows_of_other k other rows ne))
      | inr away ↦ rw away (rows_of_other k other rows ne)
    ])
  ]

  module _ {A : Type 0} (make : A → R) where
    made_same :
        (k : Text) (items : List A)
        → ((a : A) → key (make a) ≡ k)
        → rows_of k (map make items) ≡ map make items
    made_same k [] keys = refl
    made_same k (a ∷ items) keys =
        rw (ap (λ t. t == k) (keys a) ∙ ==_refl k)
          (ap (λ rest. make a ∷ rest) (made_same k items keys))

    made_other :
        (k other : Text) (items : List A)
        → ((a : A) → key (make a) ≡ k)
        → (k == other) ≡ false
        → rows_of other (map make items) ≡ []
    made_other k other [] keys ne = refl
    made_other k other (a ∷ items) keys ne =
        rw (ap (λ t. t == other) (keys a) ∙ ne) (made_other k other items keys ne)

    replaced :
        (k other : Text) (rows : List R) (items : List A)
        → ((a : A) → key (make a) ≡ k)
        → rows_of other (rows_without k rows ++ map make items)
          ≡ (if k == other then map make items else rows_of other rows)
    replaced k other rows items keys = elim (Bool-cases (k == other)) [
      | inl here ↦ rw here (
          ap (λ o. rows_of o (rows_without k rows ++ map make items)) (sym (==_eq k other here))
          ∙ rw
              (
                rows_of-append k (rows_without k rows) (map make items),
                rows_of_same k rows,
                made_same k items keys,
              )
              refl)
      | inr away ↦ rw away (
          rw
            (
              rows_of-append other (rows_without k rows) (map make items),
              rows_of_other k other rows away,
              made_other k other items keys away,
            )
            (append-nil (rows_of other rows)))
    ]

abbrev facts_of : Db → List Fact
facts_of db = db.facts

abbrev signals_of : Db → List Signal
signals_of db = db.signals

facts-IsAside : IsAside facts_of
facts-IsAside = record {
  chats_free = λ n rows db. refl;
  persons_free = λ n rows members db. refl;
  windows_free = λ rows db. refl;
  tasks_free = λ n rows db. refl;
  interactions_free = λ n rows db. refl;
  audits_free = λ rows db. refl;
  processed_free = λ ledger db. refl;
}

signals-IsAside : IsAside signals_of
signals-IsAside = record {
  chats_free = λ n rows db. refl;
  persons_free = λ n rows members db. refl;
  windows_free = λ rows db. refl;
  tasks_free = λ n rows db. refl;
  interactions_free = λ n rows db. refl;
  audits_free = λ rows db. refl;
  processed_free = λ ledger db. refl;
}

module _ (settings : Settings) (x : Externals) (id : Text) (command : ProjectionCommand) where
  abbrev window : Text
  window = command.source_window_id

  abbrev new_facts : List Fact → List Fact
  new_facts rows =
      rows_without (λ (f : Fact). f.window_id) window rows
      ++ map (fact_of window) command.result.claims

  abbrev new_signals : List Signal → List Signal
  new_signals rows =
      rows_without (λ (s : Signal). s.window_id) window rows
      ++ map (signal_of window command) command.result.analytics_signals

  facts-Becomes : Becomes (in_db facts_of) new_facts (write_db (replace_facts window command))
  unfolding replace_facts
  facts-Becomes = modify-Becomes _ (λ s. refl)

  facts-Leaves : Leaves (in_db signals_of) (write_db (replace_facts window command))
  unfolding replace_facts
  facts-Leaves = write_db_same signals_of (replace_facts window command) (λ db. refl)

  signals-Becomes :
      Becomes (in_db signals_of) new_signals (write_db (replace_signals window command))
  unfolding replace_signals
  signals-Becomes = modify-Becomes _ (λ s. refl)

  signals-Leaves : Leaves (in_db facts_of) (write_db (replace_signals window command))
  unfolding replace_signals
  signals-Leaves = write_db_same facts_of (replace_signals window command) (λ db. refl)

  project_facts : Becomes (in_db facts_of) new_facts (project settings x id command)
  unfolding project
  project_facts =
      search
        (
          bind-Becomes_later,
          bind-Becomes_now,
          leaves_rules,
          facts-Becomes,
          signals-Leaves,
          ensure_chat-Leaves facts-IsAside,
          ensure_participants-Leaves facts-IsAside,
          window-Leaves facts-IsAside,
          sync_tasks-Leaves facts-IsAside,
          upsert_interaction-Leaves facts-IsAside,
          write_audit_log-Leaves facts-IsAside,
          mark_processed-Leaves facts-IsAside,
          write_artifact-Leaves facts-IsAside,
        )
        depth 40

  project_signals : Becomes (in_db signals_of) new_signals (project settings x id command)
  unfolding project
  project_signals =
      search
        (
          bind-Becomes_later,
          bind-Becomes_now,
          leaves_rules,
          signals-Becomes,
          facts-Leaves,
          ensure_chat-Leaves signals-IsAside,
          ensure_participants-Leaves signals-IsAside,
          window-Leaves signals-IsAside,
          sync_tasks-Leaves signals-IsAside,
          upsert_interaction-Leaves signals-IsAside,
          write_audit_log-Leaves signals-IsAside,
          mark_processed-Leaves signals-IsAside,
          write_artifact-Leaves signals-IsAside,
        )
        depth 40

  -- What the handler leaves in the tables, where it returns for a new command, is what the transaction
  -- left there.
  committed :
      (s : State)
      → Ledger.is_processed consumer_name id s.db.processed ≡ false
      → (handle_projection settings x id command s).0 ≡ ok tt
      → (p : Projection) × (((project settings x id command s).0 ≡ ok p)
          × ((handle_projection settings x id command s).1.db
              ≡ (project settings x id command s).1.db))
  unfolding handle_projection is_processed transaction gets pure ◌>>=◌
  committed s fresh = rw fresh (elim (Result-cases (project settings x id command s).0) [
    | inl (e, failed) ↦ rw failed (λ h. absurd cc)
    | inr (p, done) ↦
        rw done
          (λ h. (p, (refl, announce_db settings x command p (project settings x id command s).1)))
  ])

  -- What a new command leaves where its projection returns, for each window: in the window of the command
  -- the facts and the signals are those of the command, in their order, whatever rows the window had;
  -- those of each other window are as before.
  pub handle_projection_replaces :
      (s : State) (other : Text)
      → Ledger.is_processed consumer_name id s.db.processed ≡ false
      → (handle_projection settings x id command s).0 ≡ ok tt
      → let after = (handle_projection settings x id command s).1.db in
        (rows_of (λ (f : Fact). f.window_id) other after.facts ≡ (
          if command.source_window_id == other
          then map (fact_of command.source_window_id) command.result.claims
          else rows_of (λ (f : Fact). f.window_id) other s.db.facts))
        × (rows_of (λ (g : Signal). g.window_id) other after.signals ≡ (
            if command.source_window_id == other
            then map (signal_of command.source_window_id command) command.result.analytics_signals
            else rows_of (λ (g : Signal). g.window_id) other s.db.signals))
  handle_projection_replaces s other fresh returned =
      let (p, (done, same)) = committed s fresh returned in
      (
        ap (λ (db : Db). rows_of (λ (f : Fact). f.window_id) other db.facts) same
            ∙ ap (rows_of (λ (f : Fact). f.window_id) other) (project_facts.becomes s p done)
            ∙ replaced (λ (f : Fact). f.window_id) (fact_of window) window other s.db.facts
                command.result.claims (λ c. refl),
        ap (λ (db : Db). rows_of (λ (g : Signal). g.window_id) other db.signals) same
            ∙ ap (rows_of (λ (g : Signal). g.window_id) other) (project_signals.becomes s p done)
            ∙ replaced (λ (g : Signal). g.window_id) (signal_of window command) window other
                s.db.signals command.result.analytics_signals (λ c. refl),
      )
