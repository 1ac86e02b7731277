-- ===== src/Native/Reconcile/Chain.antt =====
-- What is taken over from the journal, and that it explains the worktree.
use local_engineer.Prelude.{
  ◌≡◌, ◌≢◌, ◌↔◌, refl, Option, ap, sym, ◌∙◌, ◌++◌, ==_iff, none, subst, true, false, List, [], ◌∷◌,
  some, ok, arith, In, inl, inr, Bool-cases, Option-cases, Result-cases, is_empty,
}
use local_engineer.GoStrings.{Text, codes, text_eq, text_eq_iff}
use local_engineer.Trust.{Fence, wrap}
use local_engineer.Ledger.Journal.{Operation, uncertain}
use local_engineer.Native.{ToolCall, ToolResult}
use local_engineer.Native.Loop.{Message, Transcript, tool_message}
use local_engineer.Native.Reconcile.{
  Decoding, Intent, is_intent, not_executed_note, Rebuilt, last_batch, completed, match_op,
  unstarted, rebuild, reconciled, reconcile_batch,
}
use local_engineer.Native.Reconcile.Whole.{with_rest-ok, restored_op, reconciled-messages}

-- The intent is of the session and the step of the transcript, and has the id and the arguments of the
-- call.
abbrev pub Intends : Transcript → ToolCall → Intent → Type 0
Intends tr c i =
    (i.session ≡ tr.fence_token) × (i.step ≡ tr.steps) × (i.id ≡ c.id) × (i.arguments ≡ c.arguments)

-- The operation was begun for this call.
abbrev pub BelongsTo : Decoding → Transcript → ToolCall → Operation → Type 0
BelongsTo d tr c o = (i : Intent) × (d.intent_of o.intent ≡ some i) × Intends tr c i

-- It is the last one that was.
abbrev pub IsLatest : Decoding → Transcript → List Operation → ToolCall → Operation → Type 0
IsLatest d tr ops c o =
    (earlier later : List Operation) × (ops ≡ earlier ++ (o ∷ later))
    × BelongsTo d tr c o
    × ((p : Operation) → In p later → ¬ BelongsTo d tr c p)

-- The answer to a call whose result is taken over: the result, fenced.
abbrev pub fenced_answer : Fence → ToolCall → ToolResult → Message
fenced_answer fence c result =
    tool_message c (wrap fence (codes "result of " ++ c.name) result.content)

-- How a batch is answered after `after`, from one candidate to another, call by call: a call that was
-- answered needs nothing; a call without an operation is answered as not executed; and a call with one
-- by the recorded outcome of the last operation of its own, finished, and begun on the candidate that the one
-- before left.
pub data Explains (d : Decoding) (tr : Transcript) (fence : Fence) (ops : List Operation)
    (after : List Message)
    : List ToolCall → Text → List Message → List (ToolCall × ToolResult) → Text → Type 0 where
  nothing : {last : Text} → Explains d tr fence ops after [] last [] [] last
  answered :
      {last final : Text} {cs : List ToolCall} {ms : List Message}
      {rs : List (ToolCall × ToolResult)} (c : ToolCall)
      → completed after c ≡ true
      → Explains d tr fence ops after cs last ms rs final
      → Explains d tr fence ops after (c ∷ cs) last ms rs final
  never_begun :
      {last final : Text} {cs : List ToolCall} {ms : List Message}
      {rs : List (ToolCall × ToolResult)} (c : ToolCall)
      → completed after c ≡ false
      → ((o : Operation) → In o ops → ¬ BelongsTo d tr c o)
      → Explains d tr fence ops after cs last ms rs final
      → Explains d tr fence ops after (c ∷ cs) last (tool_message c not_executed_note ∷ ms) rs final
  taken_over :
      {last final : Text} {cs : List ToolCall} {ms : List Message}
      {rs : List (ToolCall × ToolResult)} (c : ToolCall) (result : ToolResult) (o : Operation)
      → completed after c ≡ false
      → IsLatest d tr ops c o
      → uncertain o ≡ false
      → d.result_of o.outcome ≡ some result
      → o.candidate_before ≡ last
      → Explains d tr fence ops after cs o.candidate_after ms rs final
      → Explains d tr fence ops after
          (c ∷ cs)
          last
          (fenced_answer fence c result ∷ ms)
          ((c, result) ∷ rs)
          final

module _ (d : Decoding) (tr : Transcript) (fence : Fence) where
  is_intent-Intends :
      (c : ToolCall) (i : Intent) → (is_intent d tr fence c (some i) ≡ true) ↔ Intends tr c i
  is_intent-Intends c i = ground (
    arith,
    text_eq_iff i.session tr.fence_token,
    ==_iff i.step tr.steps,
    text_eq_iff i.id c.id,
    text_eq_iff i.arguments c.arguments,
  )

  of_intent :
      (c : ToolCall) (x : Option Intent)
      → (is_intent d tr fence c x ≡ true) ↔ ((i : Intent) × (x ≡ some i) × Intends tr c i)
  of_intent c none = ((λ h. absurd cc), (λ (i, e, rest). absurd cc))
  of_intent c (some i) = (
    (λ h. (i, refl, (is_intent-Intends c i).0 h)),
    (λ (j, e, rest).
        let same : i ≡ j = cc e in
        (is_intent-Intends c i).1 (subst (Intends tr c) (sym same) rest)),
  )

  is_intent-BelongsTo :
      (c : ToolCall) (o : Operation)
      → (is_intent d tr fence c (d.intent_of o.intent) ≡ true) ↔ BelongsTo d tr c o
  is_intent-BelongsTo c o = of_intent c (d.intent_of o.intent)

  match_op-none :
      (c : ToolCall) (ops : List Operation)
      → match_op d tr fence c ops ≡ none
      → (o : Operation) → In o ops
      → ¬ BelongsTo d tr c o
  unfolding match_op
  match_op-none c [] h o i b = i
  match_op-none c (p ∷ ps) h o i b = elim (Option-cases (match_op d tr fence c ps)) [
    | inr (q, e) ↦ ground (arith, e)
    | inl e ↦ elim i [
      | inr later ↦ match_op-none c ps e o later b
      | inl same ↦
          let mine = (is_intent-BelongsTo c p).1 (subst (BelongsTo d tr c) (sym same) b) in
          ground (arith, e, mine)
    ]
  ]

  match_op-IsLatest :
      (c : ToolCall) (ops : List Operation) (o : Operation)
      → match_op d tr fence c ops ≡ some o
      → IsLatest d tr ops c o
  unfolding match_op
  match_op-IsLatest c [] o h = absurd cc
  match_op-IsLatest c (p ∷ ps) o h = elim (Option-cases (match_op d tr fence c ps)) [
    | inr (q, e) ↦
        let (earlier, later, split, mine, rest) = match_op-IsLatest c ps o (ground (arith, e)) in
        (p ∷ earlier, later, ap (λ os. p ∷ os) split, mine, rest)
    | inl e ↦ elim (Bool-cases (is_intent d tr fence c (d.intent_of p.intent))) [
      | inr other ↦ absurd (ground (arith, e, other))
      | inl mine ↦
          let same : p ≡ o = ground (arith, e, mine) in
          (
            [],
            ps,
            ap (λ x. x ∷ ps) same,
            subst (BelongsTo d tr c) same ((is_intent-BelongsTo c p).0 mine),
            match_op-none c ps e,
          )
    ]
  ]

  abbrev Rebuilds : List Operation → List Message → List ToolCall → Text → Rebuilt → Type 0
  Rebuilds ops after calls last r =
      Explains d tr fence ops after calls last r.messages r.recovered r.candidate

  rebuild-Explains :
      (ops : List Operation) (after : List Message) (calls : List ToolCall) (last : Text)
      (r : Rebuilt)
      → rebuild d tr fence ops after calls last ≡ ok r
      → Rebuilds ops after calls last r
  unfolding rebuild
  rebuild-Explains ops after [] last r h =
      let same : record { messages = []; recovered = []; boundary = false; candidate = last } ≡ r =
        cc h in
      rw (← same) nothing
  rebuild-Explains ops after (c ∷ cs) last r h = elim (Bool-cases (completed after c)) [
    | inl e ↦ answered c e (rebuild-Explains ops after cs last r (ground (arith, e)))
    | inr e ↦ elim (Option-cases (match_op d tr fence c ops)) [
      | inl m ↦
          let (r', x, f) =
            with_rest-ok (unstarted d tr fence c) (rebuild d tr fence ops after cs last) r
              (ground (arith, e, m)) in
          subst (Rebuilds ops after (c ∷ cs) last) (sym f)
            (never_begun c e (match_op-none c ops m) (rebuild-Explains ops after cs last r' x))
      | inr (o, m) ↦
          let (result, r', w) = restored_op d tr fence ops after c cs last r o h e m in
          subst (Rebuilds ops after (c ∷ cs) last) (sym w.from) (
            taken_over c result o e (match_op-IsLatest c ops o m) w.certain w.decoded w.chained
              (rebuild-Explains ops after cs o.candidate_after r' w.rest))
    ]
  ]

-- A batch is recovered only when the journal explains the worktree. The messages that are added to the
-- transcript answer the calls of its last batch that had no answer, in order: a call that has an
-- operation of this session and step, with its id and arguments, by the recorded outcome of the last such
-- operation, which is finished, and a call that has none as not executed. The operations follow one
-- another from the candidate of the transcript to the candidate of the worktree, and that is the
-- candidate that the transcript then has.
pub reconcile_is_explained :
    (d : Decoding) (fence : Fence) (ops : List Operation) (current : Text) (tr tr' : Transcript)
    → reconcile_batch d fence (some ops) current tr ≡ ok tr'
    → (calls : List ToolCall) × (after : List Message) × (r : Rebuilt) × (last_batch tr.messages
        ≡ some (calls, after))
      × (tr' ≡ reconciled r current tr)
      × (tr'.messages ≡ tr.messages ++ r.messages)
      × (current ≢ [])
      × Explains d tr fence ops after calls tr.candidate r.messages r.recovered current
unfolding reconcile_batch
reconcile_is_explained d fence ops current tr tr' h = elim (Option-cases (last_batch tr.messages)) [
  | inl l ↦ absurd (ground (arith, l))
  | inr ((calls, after), l) ↦
      elim (Result-cases (rebuild d tr fence ops after calls tr.candidate)) [
        | inr (e, b) ↦ absurd (ground (arith, l, b))
        | inl (r, b) ↦ elim (Bool-cases (is_empty r.candidate)) [
          | inl e ↦ absurd (ground (arith, l, b, e))
          | inr e ↦ elim (Bool-cases (text_eq r.candidate current)) [
            | inr t ↦ absurd (ground (arith, l, b, e, t))
            | inl t ↦
                let reached = (text_eq_iff r.candidate current).0 t in
                let same : tr' ≡ reconciled r current tr = ground (arith, l, b, e, t) in
                (
                  calls,
                  after,
                  r,
                  l,
                  same,
                  ap (λ (x : Transcript). x.messages) same ∙ (reconciled-messages r current tr).0,
                  λ n. cc (e, reached, n),
                  subst
                      (λ (c : Text).
                        Explains d tr fence ops after calls tr.candidate r.messages r.recovered c)
                      reached (rebuild-Explains d tr fence ops after calls tr.candidate r b),
                )
          ]
        ]
      ]
]
