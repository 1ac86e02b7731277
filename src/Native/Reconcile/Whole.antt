-- ===== src/Native/Reconcile/Whole.antt =====
-- A batch that was interrupted is answered to its end.
use local_engineer.Prelude.{
  ◌≡◌, refl, ap, subst, ◌∙◌, Bool, true, false, List, [], ◌∷◌, ◌++◌, some, Result, ok, err, arith,
  keep, Bool-cases, Option-cases, Result-cases, inl, inr,
}
use local_engineer.GoStrings.{Text, codes, text_eq, text_eq_iff}
use local_engineer.GoStrings.Laws.{text_eq_refl}
use local_engineer.Trust.{Fence}
use local_engineer.Ledger.Journal.{Operation, uncertain}
use local_engineer.Native.{ToolCall, ToolResult}
use local_engineer.Native.Loop.{Message, Transcript, tool_message}
use local_engineer.Native.Loop.Batches.{unanswered, unanswered-append}
use local_engineer.Native.Reconcile.Rest.{Distinct, still_open, batch-split, open_calls_are_rest}
use local_engineer.Native.Reconcile.{
  Decoding, ReconcileError, Rebuilt, last_batch, completed, match_op, unstarted, restored,
  with_rest, rebuild, recount, recount_one, at_boundary, reconciled, reconcile_batch,
}

-- The answers that are rebuilt are those that were missing, in order.
pub with_rest-ok :
    (f : Rebuilt → Rebuilt) (x : Result ReconcileError Rebuilt) (r : Rebuilt)
    → with_rest f x ≡ ok r
    → (r' : Rebuilt) × (x ≡ ok r') × (r ≡ f r')
unfolding with_rest
with_rest-ok f (ok r') r h = (r', refl, cc h)
with_rest-ok f (err e) r h = cc

first_answer :
    (c : ToolCall) (cs : List ToolCall) (content : Text) (ms : List Message)
    → unanswered cs ms ≡ some []
    → unanswered (c ∷ cs) (tool_message c content ∷ ms) ≡ some []
unfolding unanswered
first_answer c cs content ms h = ground (arith, text_eq_refl c.id, text_eq_refl (codes "tool"), h)

module _ (d : Decoding) (tr : Transcript) (fence : Fence) (ops : List Operation)
    (after : List Message) where
  missing :
      (c : ToolCall) (cs : List ToolCall) (content : Text) (r r' : Rebuilt)
      → r.messages ≡ tool_message c content ∷ r'.messages
      → completed after c ≡ false
      → unanswered (keep (still_open after) cs) r'.messages ≡ some []
      → unanswered (keep (still_open after) (c ∷ cs)) r.messages ≡ some []
  missing c cs content r r' e open_here h =
      rw (e, open_here) (first_answer c (keep (still_open after) cs) content r'.messages h)

  -- What is true of an operation whose result is taken over.
  pub record TakenOver (c : ToolCall) (cs : List ToolCall) (last : Text) (o : Operation)
      (result : ToolResult) (r r' : Rebuilt) : Type 0 where
    pub certain : uncertain o ≡ false
    pub decoded : d.result_of o.outcome ≡ some result
    pub chained : o.candidate_before ≡ last
    pub rest : rebuild d tr fence ops after cs o.candidate_after ≡ ok r'
    pub from : r ≡ restored d tr fence c result r'

  pub restored_op :
      (c : ToolCall) (cs : List ToolCall) (last : Text) (r : Rebuilt) (o : Operation)
      → rebuild d tr fence ops after (c ∷ cs) last ≡ ok r
      → completed after c ≡ false
      → match_op d tr fence c ops ≡ some o
      → (result : ToolResult) × (r' : Rebuilt) × TakenOver c cs last o result r r'
  unfolding rebuild
  restored_op c cs last r o h e m = elim (Bool-cases (uncertain o)) [
    | inl u ↦ absurd (ground (arith, e, m, u))
    | inr u ↦ elim (Option-cases (d.result_of o.outcome)) [
      | inl b ↦ absurd (ground (arith, e, m, u, b))
      | inr (result, b) ↦ elim (Bool-cases (text_eq o.candidate_before last)) [
        | inr t ↦ absurd (ground (arith, e, m, u, b, t))
        | inl t ↦
            let (r', x, f) =
              with_rest-ok (restored d tr fence c result)
                (rebuild d tr fence ops after cs o.candidate_after) r
                (ground (arith, e, m, u, b, t)) in
            (
              result,
              r',
              record {
                certain = u;
                decoded = b;
                chained = (text_eq_iff o.candidate_before last).0 t;
                rest = x;
                from = f;
              },
            )
      ]
    ]
  ]

  rebuild-answers :
      (calls : List ToolCall) (last : Text) (r : Rebuilt)
      → rebuild d tr fence ops after calls last ≡ ok r
      → unanswered (keep (still_open after) calls) r.messages ≡ some []
  unfolding rebuild unanswered
  rebuild-answers [] last r h = ground arith
  rebuild-answers (c ∷ cs) last r h = elim (Bool-cases (completed after c)) [
    | inl e ↦ rw e (rebuild-answers cs last r (ground (arith, e)))
    | inr e ↦ elim (Option-cases (match_op d tr fence c ops)) [
      | inl m ↦
          let (r', x, f) =
            with_rest-ok (unstarted d tr fence c) (rebuild d tr fence ops after cs last) r
              (ground (arith, e, m)) in
          missing c cs _ r r' (ap (λ (q : Rebuilt). q.messages) f) e (rebuild-answers cs last r' x)
      | inr (o, m) ↦
          let (result, r', w) = restored_op c cs last r o h e m in
          missing c cs _ r r' (ap (λ (q : Rebuilt). q.messages) w.from) e
            (rebuild-answers cs o.candidate_after r' w.rest)
    ]
  ]

recount-messages :
    (rs : List (ToolCall × ToolResult)) (tr : Transcript) → (recount rs tr).messages ≡ tr.messages
unfolding recount
recount-messages [] tr = refl
recount-messages ((c, result) ∷ rs) tr = recount-messages rs (recount_one (c, result) tr)

at_boundary-messages :
    (b : Bool) (tr : Transcript)
    → ((at_boundary b tr).messages ≡ tr.messages) × ((at_boundary b tr).pending ≡ tr.pending)
at_boundary-messages false tr = (refl, refl)
at_boundary-messages true tr = (refl, refl)

pub reconciled-messages :
    (r : Rebuilt) (current : Text) (tr : Transcript)
    → ((reconciled r current tr).messages ≡ tr.messages ++ r.messages)
      × ((reconciled r current tr).pending ≡ false)
reconciled-messages r current tr =
    let t = recount r.recovered (record tr { messages = tr.messages ++ r.messages }) in
    let (m, p) =
      at_boundary-messages r.boundary (record t { pending = false; candidate = current }) in
    (m ∙ recount-messages r.recovered (record tr { messages = tr.messages ++ r.messages }), p)

-- After the recovery of an interrupted batch each call that the model was told about has its answer,
-- in order, and the transcript is no longer pending, if the transcript was coherent and no two calls
-- of the batch share an id.
pub reconcile_is_whole :
    (d : Decoding) (fence : Fence) (ops : List Operation) (current : Text) (tr tr' : Transcript)
    (calls rest : List ToolCall) (after : List Message)
    → last_batch tr.messages ≡ some (calls, after)
    → Distinct calls
    → unanswered [] tr.messages ≡ some rest
    → reconcile_batch d fence (some ops) current tr ≡ ok tr'
    → (tr'.pending ≡ false) × (unanswered [] tr'.messages ≡ some [])
unfolding reconcile_batch
reconcile_is_whole d fence ops current tr tr' calls rest after l distinct u h =
    elim (Result-cases (rebuild d tr fence ops after calls tr.candidate)) [
      | inr (e, b) ↦ absurd (ground (arith, l, b))
      | inl (r, b) ↦
          let (open_rest, last) = batch-split [] rest calls tr.messages after l u in
          let answers = rebuild-answers d tr fence ops after calls tr.candidate r b in
          let which = open_calls_are_rest calls rest after distinct open_rest last in
          let same : tr' ≡ reconciled r current tr = ground (arith, l, b) in
          let (ms, p) = reconciled-messages r current tr in
          let missing_answered =
            unanswered-append [] rest tr.messages r.messages u
            ∙ subst (λ (cs : List ToolCall). unanswered cs r.messages ≡ some []) which answers in
          (rw same p, rw (same, ms) missing_answered)
    ]
