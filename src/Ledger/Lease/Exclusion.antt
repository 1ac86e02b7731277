-- ===== src/Ledger/Lease/Exclusion.antt =====
-- A live lease is never taken from its holder.
use mathlib.Core.Path.{ap₂}
use local_engineer.Prelude.{
  ℕ, ◌+◌, ◌<◌, ◌≡◌, refl, inl, inr, false, List, [], ◌∷◌, some, arith, if◌then◌else◌, ok, err,
  Option-cases, All, ◌∙◌,
}
use local_engineer.GoStrings.{Text, text_eq, text_eq_iff}
use local_engineer.Ledger.Lease.{
  Lease, Leases, held, Call, acquires, renews, releases, find, upsert, extend, acquire_lease,
  renew_lease, release_lease, ttl_or_default, step, run, caller,
}

-- Reading a worktree's lease behind each write.
find-upsert :
    (w : Text) (l : Lease) (ls : Leases)
    → find w (upsert l ls) ≡ (if text_eq l.worktree_id w then some l else find w ls)
unfolding find upsert
find-upsert w l [] = refl
find-upsert w l (m ∷ ls) = ground (
  arith,
  text_eq_iff m.worktree_id l.worktree_id,
  text_eq_iff l.worktree_id w,
  text_eq_iff m.worktree_id w,
  find-upsert w l ls,
)

-- Writing as somebody else leaves a lease alone.
find-extend_ne :
    (w v holder : Text) (expires : ℕ) (ls : Leases) (l : Lease)
    → find w ls ≡ some l
    → text_eq l.holder holder ≡ false
    → find w (extend v holder expires ls) ≡ some l
unfolding find extend
find-extend_ne w v holder expires [] l f h = cc
find-extend_ne w v holder expires (m ∷ ls) l f h =
    ground (arith, find-extend_ne w v holder expires ls l)

find-release_ne :
    (w v holder : Text) (ls : Leases) (l : Lease)
    → find w ls ≡ some l
    → text_eq l.holder holder ≡ false
    → find w (release_lease v holder ls) ≡ some l
unfolding find release_lease
find-release_ne w v holder [] l f h = cc
find-release_ne w v holder (m ∷ ls) l f h = ground (arith, find-release_ne w v holder ls l)

-- A call by somebody else before the lease runs out.
abbrev pub Foreign : Lease → ℕ × Call → Type 0
Foreign l c = (text_eq l.holder (caller c.1) ≡ false) × (c.0 < l.expires_at)

acquire-keeps :
    (now : ℕ) (v task holder : Text) (ttl : ℕ) (ls : Leases) (w : Text) (l : Lease)
    → find w ls ≡ some l
    → text_eq l.holder holder ≡ false
    → now < l.expires_at
    → find w (step ls (now, acquires v task holder ttl)) ≡ some l
unfolding step acquire_lease
acquire-keeps now v task holder ttl ls w l f h t = elim (Option-cases (find v ls)) [
  | inl free ↦ ground (
    arith,
    free,
    find-upsert w
        (record {
          worktree_id = v;
          task_id = task;
          holder = holder;
          expires_at = now + ttl_or_default ttl;
        })
        ls,
    text_eq_iff v w,
  )
  | inr (m, taken) ↦ ground (
    arith,
    taken,
    find-upsert w
        (record {
          worktree_id = v;
          task_id = task;
          holder = holder;
          expires_at = now + ttl_or_default ttl;
        })
        ls,
    text_eq_iff v w,
  )
]

-- No call of another holder before the expiry moves, shortens or removes a live lease.
pub step-keeps :
    (ls : Leases) (w : Text) (l : Lease) (c : ℕ × Call)
    → find w ls ≡ some l
    → Foreign l c
    → find w (step ls c) ≡ some l
unfolding step renew_lease
step-keeps ls w l (now, acquires v task holder ttl) f (h, t) =
    acquire-keeps now v task holder ttl ls w l f h t
step-keeps ls w l (now, renews v holder ttl) f (h, t) =
    ground (arith, find-extend_ne w v holder (now + ttl_or_default ttl) ls l)
step-keeps ls w l (now, releases v holder) f (h, t) = find-release_ne w v holder ls l f h

run-keeps :
    (ls : Leases) (w : Text) (l : Lease) (cs : List (ℕ × Call))
    → find w ls ≡ some l
    → All (Foreign l) cs
    → find w (run ls cs) ≡ some l
unfolding run
run-keeps ls w l [] f h = f
run-keeps ls w l (c ∷ cs) f h = run-keeps (step ls c) w l cs (step-keeps ls w l c f h.0) h.1

-- What a successful claim returns is what the table then holds.
acquire-find :
    (now : ℕ) (w task holder : Text) (ttl : ℕ) (ls ls' : Leases) (l : Lease)
    → acquire_lease now w task holder ttl ls ≡ ok (l, ls')
    → (find w ls' ≡ some l) × (l.holder ≡ holder) × (l.expires_at ≡ now + ttl_or_default ttl)
unfolding acquire_lease
acquire-find now w task holder ttl ls ls' l h = ground (
  arith,
  find-upsert w
      (record {
        worktree_id = w;
        task_id = task;
        holder = holder;
        expires_at = now + ttl_or_default ttl;
      })
      ls,
  text_eq_iff w w,
)

acquire_held :
    (now : ℕ) (w task holder : Text) (ttl : ℕ) (ls : Leases) (l : Lease)
    → find w ls ≡ some l
    → text_eq l.holder holder ≡ false
    → now < l.expires_at
    → acquire_lease now w task holder ttl ls ≡ err (held l.holder w l.expires_at)
unfolding acquire_lease
acquire_held now w task holder ttl ls l f h t = ground arith

-- Two instances never hold one worktree: once a holder has claimed it, every claim by another holder
-- before the expiry is refused with `held`, whatever other holders have called in between.
pub mutual_exclusion :
    (now : ℕ) (w task holder : Text) (ttl : ℕ) (ls ls' : Leases) (l : Lease) (cs : List (ℕ × Call))
    (later : ℕ) (task' other : Text) (ttl' : ℕ)
    → acquire_lease now w task holder ttl ls ≡ ok (l, ls')
    → All (Foreign l) cs
    → text_eq holder other ≡ false
    → later < now + ttl_or_default ttl
    → acquire_lease later w task' other ttl' (run ls' cs)
      ≡ err (held holder w (now + ttl_or_default ttl))
mutual_exclusion now w task holder ttl ls ls' l cs later task' other ttl' a foreign ne before =
    let (found, mine, until) = acquire-find now w task holder ttl ls ls' l a in
    let still = run-keeps ls' w l cs found foreign in
    acquire_held later w task' other ttl' (run ls' cs) l still (rw mine ne) (rw until before)
    ∙ ap₂ (λ h t. err (held h w t)) mine until
