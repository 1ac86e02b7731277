-- ===== src/Graph/Verdicts.antt =====
-- What the table of verdicts promises for every change and every edge.
use local_engineer.Prelude.{◌≡◌, ◌≢◌, refl, ◌↔◌, [], arith}
use local_engineer.Graph.{
  Evidence, resolved, declared, inferred, observed, unknown, Judgement, EdgeKind, ChangeKind,
  remove, add_field, breaking, compatible, undetermined, change_verdict, verdict_for,
}

-- A table row never leaves a consumer undetermined.
change_verdict-ne : (c : ChangeKind) (via : EdgeKind) → (change_verdict c via).0 ≢ undetermined
unfolding change_verdict
change_verdict-ne c via h = ground arith

-- A consumer is left undetermined exactly when the evidence of its edge is neither resolved nor
-- declared: a heuristic edge yields no claim of compatibility and no claim of breakage.
pub undetermined_iff :
    (c : ChangeKind) (via : EdgeKind) (ev : Evidence)
    → ((verdict_for c via ev).0 ≡ undetermined) ↔ ((ev ≢ resolved) × (ev ≢ declared))
unfolding verdict_for
undetermined_iff c via resolved =
    ((λ h. absurd (change_verdict-ne c via h)), (λ h. absurd (h.0 refl)))
undetermined_iff c via declared =
    ((λ h. absurd (change_verdict-ne c via h)), (λ h. absurd (h.1 refl)))
undetermined_iff c via inferred = ((λ _. ((λ e. cc), (λ e. cc))), (λ _. refl))
undetermined_iff c via observed = ((λ _. ((λ e. cc), (λ e. cc))), (λ _. refl))
undetermined_iff c via unknown = ((λ _. ((λ e. cc), (λ e. cc))), (λ _. refl))

abbrev pub Steps : ChangeKind → Judgement → Type 0
Steps c j =
    (j.0 ≡ compatible → c ≡ add_field)
    × (j.0 ≡ breaking → j.1 ≢ [])
    × (j.0 ≡ undetermined → j.1 ≢ [])

change_verdict-Steps : (c : ChangeKind) (via : EdgeKind) → Steps c (change_verdict c via)
unfolding change_verdict
change_verdict-Steps remove via = ground arith
change_verdict-Steps _ via = ground arith

-- Only an added field can leave a consumer with nothing to do, and every breaking verdict and every
-- undetermined one names a migration step.
pub verdict_migrations :
    (c : ChangeKind) (via : EdgeKind) (ev : Evidence) → Steps c (verdict_for c via ev)
unfolding verdict_for
verdict_migrations c via resolved = change_verdict-Steps c via
verdict_migrations c via declared = change_verdict-Steps c via
verdict_migrations c via _ = ((λ h. cc), (λ h. cc), (λ _ e. cc))
