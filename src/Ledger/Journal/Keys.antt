-- ===== src/Ledger/Journal/Keys.antt =====
-- The keys of the journal's rows are distinct, and each task's sequence rises.
use local_engineer.Prelude.{
  ℕ, suc, ◌<◌, ◌≡◌, refl, Bool, true, false, List, [], ◌∷◌, none, some, arith,
}
use local_engineer.GoStrings.{Text}
use local_engineer.Ledger.Journal.{
  OpKind, Operation, Journal, max_seq, new_row, begin, update, finished_row, interrupted_row,
  cause_text, finish, interrupted, Call, begins, finishes, interrupts, step, run,
}

-- The keys fall along the rows, below the next key; a task's numbers fall along its rows.
abbrev pub Keyed : ℕ → List Operation → Type 0
Keyed n [] = Unit {0}
Keyed n (o ∷ os) = (o.id < n) × (max_seq o.task_id os < o.seq) × Keyed o.id os

max_seq-update :
    (task : Text) (i : ℕ) (f : Operation → Operation) (os : List Operation)
    → ((o : Operation) → ((f o).task_id ≡ o.task_id) × ((f o).seq ≡ o.seq))
    → max_seq task (update i f os) ≡ max_seq task os
unfolding max_seq update
max_seq-update task i f [] same = refl
max_seq-update task i f (o ∷ os) same = ground (arith, same o, max_seq-update task i f os same)

update-Keyed :
    (n i : ℕ) (f : Operation → Operation) (os : List Operation)
    → ((o : Operation) → ((f o).id ≡ o.id) × ((f o).task_id ≡ o.task_id) × ((f o).seq ≡ o.seq))
    → Keyed n os
    → Keyed n (update i f os)
unfolding update
update-Keyed n i f [] same k = tt
update-Keyed n i f (o ∷ os) same (below, fresh, rest) = ground (
  arith,
  same o,
  max_seq-update o.task_id i f os (λ p. ((same p).1, (same p).2)),
  update-Keyed o.id i f os same rest,
)

begin-Keyed :
    (now : ℕ) (task : Text) (kind : OpKind) (intent before : Text) (j : Journal)
    → Keyed j.next_id j.rows
    → Keyed (suc j.next_id) (new_row now task kind intent before j ∷ j.rows)
begin-Keyed now task kind intent before j k = (omega arith, omega arith, k)

-- Every call keeps the keys of the rows distinct and each task's sequence numbers rising, whether
-- it commits or not.
pub step-Keyed :
    (j : Journal) (c : ℕ × Bool × Call)
    → Keyed j.next_id j.rows
    → Keyed (step j c).next_id (step j c).rows
unfolding step begin finish interrupted
step-Keyed j (now, commits, begins task kind none before) k = k
step-Keyed j (now, true, begins task kind (some intent) before) k =
    begin-Keyed now task kind intent before j k
step-Keyed j (now, false, begins task kind (some intent) before) k = k
step-Keyed j (now, commits, finishes h none candidate evidence) k = ground arith
step-Keyed j (now, commits, finishes h (some outcome) candidate evidence) k =
    let kept =
      update-Keyed j.next_id h.id (finished_row now outcome candidate evidence) j.rows
        (λ o. (refl, refl, refl)) k in
    ground (arith, kept)
step-Keyed j (now, commits, interrupts h cause) k =
    let kept =
      update-Keyed j.next_id h.id (interrupted_row now (cause_text cause)) j.rows
        (λ o. (refl, refl, refl)) k in
    ground (arith, kept)

run-Keyed :
    (j : Journal) (cs : List (ℕ × Bool × Call))
    → Keyed j.next_id j.rows
    → Keyed (run j cs).next_id (run j cs).rows
unfolding run
run-Keyed j [] k = k
run-Keyed j (c ∷ cs) k = run-Keyed (step j c) cs (step-Keyed j c k)
