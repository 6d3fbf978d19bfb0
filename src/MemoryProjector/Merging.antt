-- ===== src/MemoryProjector/Merging.antt =====
-- Tasks of one evidence in `_sync_tasks`: they become one row.
use personal_intelligence.Base.{
  ℕ, ◌+◌, ◌≡◌, refl, ◌∙◌, true, Option, none, some, List, [], ◌∷◌, ◌++◌, ℤ, int_eq, nat_eq, ==_refl,
  length, length-append, Option-cases, Bool-cases, inl, inr, arith,
}
use personal_intelligence.Contracts.{StructuredTask}
use personal_intelligence.MemoryProjector.Tables.{Db, Task}
use personal_intelligence.MemoryProjector.Tasks.{
  goes_first, is_evidence, find_task_for_evidence, evidence_id, update_id, new_task, update_task,
  sync_task, sync_all,
}

-- A row that is inserted for an evidence without rows is the one that is found.
find-new :
    (chat : ℕ) (message : ℤ) (ts : List Task) (new : Task)
    → is_evidence chat message new ≡ true
    → find_task_for_evidence chat message ts ≡ none
    → find_task_for_evidence chat message (ts ++ new ∷ []) ≡ some new
unfolding find_task_for_evidence
find-new chat message [] new here = λ missing. rw here refl
find-new chat message (t ∷ ts) new here = elim (Bool-cases (is_evidence chat message t)) [
  | inl hit ↦ rw hit (elim (Option-cases (find_task_for_evidence chat message ts)) [
    | inl nothing ↦ rw nothing (λ h. absurd cc)
    | inr (u, found) ↦ rw found (elim (Bool-cases (goes_first t u)) [
      | inl earlier ↦ rw earlier (λ h. absurd cc)
      | inr later ↦ rw later (λ h. absurd cc)
    ])
  ])
  | inr miss ↦ rw miss (λ h. find-new chat message ts new here h)
]

length-update_id :
    (id : ℕ) (f : Task → Task) (ts : List Task) → length (update_id id f ts) ≡ length ts
unfolding update_id
length-update_id id f [] = refl
length-update_id id f (t ∷ ts) = omega (arith, length-update_id id f ts)

module _ (chat : ℕ) (owner counterpart : Option ℕ) (first second : StructuredTask) (db : Db) where
  -- Two tasks of an analysis that share the evidence, as two without any do, in a chat that has no
  -- task of it: both are given the id of one new row, and only one row is added.
  pub shared_evidence_merges :
      evidence_id second ≡ evidence_id first
      → find_task_for_evidence chat (evidence_id first) db.tasks ≡ none
      → let (ids, after) = sync_all chat owner counterpart (first ∷ second ∷ []) db in
        (ids ≡ db.next_id ∷ db.next_id ∷ []) × (length after.tasks ≡ length db.tasks + 1)
  unfolding sync_all sync_task
  shared_evidence_merges same missing =
      rw (missing, same)
        (rw (find-new chat (evidence_id first) db.tasks made (made_here) missing) (
          refl,
          length-update_id db.next_id (update_task db.clock owner counterpart second)
                (db.tasks ++ made ∷ [])
              ∙ length-append db.tasks (made ∷ []),
        ))
    where
      made : Task
      made = new_task db.next_id db.clock chat owner counterpart first

      made_here : is_evidence chat (evidence_id first) made ≡ true
      made_here = rw (==_refl chat, ==_refl (evidence_id first)) refl
