-- ===== src/Ledger/Journal/Rows.antt =====
-- The row that `Begin` makes, and what `Complete` writes into it.
use local_engineer.Ledger.Journal.Certainty.{find-update}
use local_engineer.Prelude.{
  true, ==_iff, ◌==◌, sym, ap, ◌∙◌, ◌≡◌, ℕ, refl, Bool, false, [], Option, none, some, arith, ok,
}
use local_engineer.GoStrings.{Text}
use local_engineer.Ledger.Journal.{
  OpKind, Operation, Journal, Handle, begin, complete, finish, find_row, new_row, update,
  finished_row,
}

pub begin-row :
    (now : ℕ) (commits : Bool) (task : Text) (kind : OpKind) (body : Option Text) (before : Text)
    (j j' : Journal) (h : Handle)
    → begin now commits task kind body before j ≡ ok (h, j')
    → (intent : Text) × (body ≡ some intent)
      × (h.id ≡ j.next_id)
      × (h.done ≡ false)
      × (find_row j.next_id j'.rows ≡ some (new_row now task kind intent before j))
unfolding begin find_row
begin-row now commits task kind none before j j' h u = cc
begin-row now commits task kind (some intent) before j j' h u =
    (intent, refl, ground arith, ground arith, ground arith)

pub complete-ok :
    (now : ℕ) (commits : Bool) (body : Option Text) (after : Text) (h h' : Handle) (j j' : Journal)
    → complete now commits body after [] h j ≡ ok (h', j')
    → (out : Text) × (body ≡ some out)
      × (j' ≡ record j { rows = update h.id (finished_row now out after []) j.rows })
unfolding complete finish
complete-ok now commits none after h h' j j' u = absurd (ground arith)
complete-ok now commits (some out) after h h' j j' u = (out, refl, ground arith)

-- The row of the handle, once it is completed.
pub finished-row :
    (i : ℕ) (f : Operation → Operation) (h : Handle) (row : Operation) (j j' : Journal)
    → ((o : Operation) → (f o).id ≡ o.id)
    → h.id ≡ i
    → find_row i j.rows ≡ some row
    → j' ≡ record j { rows = update h.id f j.rows }
    → find_row i j'.rows ≡ some (f row)
finished-row i f h row j j' keeps same found d =
    let here : (i == h.id) ≡ true = (==_iff i h.id).1 (sym same) in
    rw (ap (λ (x : Journal). x.rows) d) (find-update i h.id f j.rows keeps ∙ rw (here, found) refl)
