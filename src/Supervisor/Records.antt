-- ===== src/Supervisor/Records.antt =====
-- What one recorded event changes of the verification that is read back.
use local_engineer.Prelude.{
  ℕ, suc, ◌≤◌, ◌≡◌, refl, sym, ap, ◌∙◌, subst, inl, inr, Bool, true, List, [], ◌∷◌, ◌++◌, map,
  Option, none, some, arith, ltb, ◌==◌, if◌then◌else◌, if_split, In, In-keep, keep, keep-map,
  sort_by, sort_by-last, sort_by-map, Result, Bool-cases,
}
use local_engineer.GoStrings.{Text, text_eq, text_eq_iff}
use local_engineer.Ledger.Journal.{
  OpKind, Operation, Journal, JournalError, Handle, max_seq, new_row, begin, update, finished_row,
  finish, complete, operations,
}
use local_engineer.Supervisor.{
  VerificationRecord, Codec, Moment, closed, record_event, or_latest, verification_in, latest_in,
  last_verification, is_run,
}

max_seq-In :
    (task : Text) (rows : List Operation) (o : Operation)
    → In o rows
    → text_eq o.task_id task ≡ true
    → o.seq ≤ max_seq task rows
unfolding max_seq
max_seq-In task [] o i h = absurd i
max_seq-In task (r ∷ rows) o (inl e) h =
    subst (λ (x : Operation). x.seq ≤ max_seq task (r ∷ rows)) e
      (ground (arith, subst (λ (x : Operation). text_eq x.task_id task ≡ true) (sym e) h))
max_seq-In task (r ∷ rows) o (inr i) h = ground (arith, max_seq-In task rows o i h)

abbrev patched : ℕ → (Operation → Operation) → Operation → Operation
patched i f o = if o.id == i then f o else o

update-map :
    (i : ℕ) (f : Operation → Operation) (os : List Operation) → update i f os ≡ map (patched i f) os
unfolding update
update-map i f [] = refl
update-map i f (o ∷ os) = elim (Bool-cases (o.id == i)) [
  | inl e ↦ rw e (ap (λ rest. f o ∷ rest) (update-map i f os))
  | inr e ↦ rw e (ap (λ rest. o ∷ rest) (update-map i f os))
]

abbrev before : Operation → Operation → Bool
before a b = ltb a.seq b.seq

abbrev rows_of : Text → List Operation → List Operation
rows_of task rows = keep (λ o. text_eq o.task_id task) rows

-- The row of a new event comes last among the rows of its task.
sorted_last :
    (now : ℕ) (task : Text) (kind : OpKind) (intent candidate : Text) (j : Journal)
    → sort_by before (new_row now task kind intent candidate j ∷ rows_of task j.rows)
      ≡ sort_by before (rows_of task j.rows) ++ new_row now task kind intent candidate j ∷ []
sorted_last now task kind intent candidate j =
    sort_by-last before (new_row now task kind intent candidate j) (rows_of task j.rows) (λ x i.
      let (m, e) = (In-keep (λ (o : Operation). text_eq o.task_id task) x j.rows).0 i in
      ground (arith, max_seq-In task j.rows x m e))

module _ (codec : Codec) where
  latest_in-append :
      (os : List Operation) (o : Operation) (latest : Option VerificationRecord)
      → latest_in codec (os ++ o ∷ []) latest
        ≡ or_latest codec (verification_in codec o) (latest_in codec os latest)
  unfolding latest_in
  latest_in-append [] o latest = refl
  latest_in-append (p ∷ os) o latest =
      latest_in-append os o (or_latest codec (verification_in codec p) latest)

  latest_in-map :
      (g : Operation → Operation)
      → ((o : Operation) → verification_in codec (g o) ≡ verification_in codec o)
      → (os : List Operation) (latest : Option VerificationRecord)
      → latest_in codec (map g os) latest ≡ latest_in codec os latest
  unfolding latest_in
  latest_in-map g same [] latest = refl
  latest_in-map g same (o ∷ os) latest =
      ap (λ v. latest_in codec (map g os) (or_latest codec v latest)) (same o)
      ∙ latest_in-map g same os (or_latest codec (verification_in codec o) latest)

  -- The outcome of a row says nothing of its verification.
  last_verification-update :
      (task : Text) (i now : ℕ) (outcome candidate evidence : Text) (j : Journal)
      → last_verification codec task
          (record j { rows = update i (finished_row now outcome candidate evidence) j.rows })
        ≡ last_verification codec task j
  unfolding last_verification operations
  last_verification-update task i now outcome candidate evidence j =
      ap (λ rows. latest_in codec (sort_by before (rows_of task rows)) none) (update-map i f j.rows)
      ∙ ap (λ rows. latest_in codec (sort_by before rows) none)
          (keep-map (λ (o : Operation). text_eq o.task_id task) g (λ o. same_task o) j.rows)
      ∙ ap (λ rows. latest_in codec rows none)
          (sort_by-map before g
            (λ a b. ap (ltb (g a).seq) (same_seq b) ∙ ap (λ n. ltb n b.seq) (same_seq a))
            (rows_of task j.rows))
      ∙ latest_in-map g (λ o. same_record o) (sort_by before (rows_of task j.rows)) none
    where
      f : Operation → Operation
      f = finished_row now outcome candidate evidence

      g : Operation → Operation
      g = patched i f

      same_task : (o : Operation) → text_eq (g o).task_id task ≡ text_eq o.task_id task
      same_task o =
          if_split (λ (x : Operation). text_eq x.task_id task ≡ text_eq o.task_id task) (o.id == i)
            (λ e. refl) (λ e. refl)

      same_seq : (o : Operation) → (g o).seq ≡ o.seq
      same_seq o = if_split (λ (x : Operation). x.seq ≡ o.seq) (o.id == i) (λ e. refl) (λ e. refl)

      same_record : (o : Operation) → verification_in codec (g o) ≡ verification_in codec o
      same_record o =
          if_split (λ (x : Operation). verification_in codec x ≡ verification_in codec o)
            (o.id == i) (λ e. refl) (λ e. refl)

  -- What a begun event of a task leaves as the latest verification of `task`.
  abbrev pub heard :
      Text → Text → OpKind → Text → Option VerificationRecord → Option VerificationRecord
  heard task of_task kind intent latest =
      if text_eq of_task task
      then or_latest codec (if is_run codec kind then codec.read_verification intent else none)
          latest
      else latest

  last_verification-row :
      (task of_task : Text) (now : ℕ) (kind : OpKind) (intent : Text) (j : Journal)
      → last_verification codec task
          (record { rows = new_row now of_task kind intent [] j ∷ j.rows; next_id = suc j.next_id })
        ≡ heard task of_task kind intent (last_verification codec task j)
  unfolding last_verification operations
  last_verification-row task of_task now kind intent j = elim (Bool-cases (text_eq of_task task)) [
    | inl e ↦ rw e (
        subst
          (λ t.
            latest_in codec
              (sort_by before (new_row now of_task kind intent [] j ∷ rows_of t j.rows)) none
            ≡ or_latest codec (verification_in codec (new_row now of_task kind intent [] j))
                (latest_in codec (sort_by before (rows_of t j.rows)) none))
          ((text_eq_iff of_task task).0 e)
          (ap (λ os. latest_in codec os none) (sorted_last now of_task kind intent [] j)
            ∙ latest_in-append (sort_by before (rows_of of_task j.rows))
                (new_row now of_task kind intent [] j) none))
    | inr e ↦ rw e refl
  ]

  -- What `RecordEvent` leaves, whether or not its second transaction goes through.
  abbrev pub heard_event :
      Moment
      → Text
      → Text
      → OpKind
      → Option Text
      → Option VerificationRecord
      → Option VerificationRecord
  heard_event m task of_task kind none latest = latest
  heard_event m task of_task kind (some intent) latest =
      if m.begins then heard task of_task kind intent latest else latest

  abbrev SameAfter : Text → Journal → Result JournalError (Handle × Journal) → Type 0
  SameAfter task begun r =
      last_verification codec task (closed begun r).1 ≡ last_verification codec task begun

  complete-SameAfter :
      (m : Moment) (task : Text) (detail : Option Text) (h : Handle) (begun : Journal)
      → SameAfter task begun (complete m.completed_at m.completes detail [] [] h begun)
  unfolding complete finish
  complete-SameAfter m task none h begun =
      if_split (SameAfter task begun) h.done (λ e. refl) (λ e. refl)
  complete-SameAfter m task (some outcome) h begun =
      if_split (SameAfter task begun) h.done (λ e. refl)
        (λ e.
          if_split (SameAfter task begun) m.completes
            (λ c. last_verification-update task h.id m.completed_at outcome [] [] begun)
            (λ c. refl))

  pub last_verification-event :
      (m : Moment) (task of_task : Text) (kind : OpKind) (detail : Option Text) (j : Journal)
      → last_verification codec task (record_event m of_task kind detail j).1
        ≡ heard_event m task of_task kind detail (last_verification codec task j)
  unfolding record_event begin
  last_verification-event m task of_task kind none j = refl
  last_verification-event m task of_task kind (some intent) j = elim (Bool-cases m.begins) [
    | inl e ↦ rw e (
        complete-SameAfter m task (some intent) _ _
        ∙ last_verification-row task of_task m.begun_at kind intent j)
    | inr e ↦ rw e refl
  ]
