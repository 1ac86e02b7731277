-- ===== src/Ledger/Lease.antt =====
-- internal/ledger/lease.go: exclusive claims on worktrees. The clock is an argument of each call,
-- and times are milliseconds; a `ttl` that is not positive is 0.
pub mod Exclusion
use local_engineer.Prelude.{
  ℕ, ◌+◌, Bool, true, false, not, ◌&&◌, List, [], ◌∷◌, Option, none, some, ltb, if◌then◌else◌,
  Result, ok, err, is_empty, keep, ◌==◌,
}
use local_engineer.GoStrings.{Text, text_eq}

pub record Lease : Type 0 where
  pub worktree_id : Text
  pub task_id : Text
  pub holder : Text
  pub expires_at : ℕ

pub data LeaseError : Type 0 where
  held : Text → Text → ℕ → LeaseError
  not_holder : Text → Text → LeaseError

-- The table `leases`, whose key is the worktree.
abbrev pub Leases : Type 0
Leases = List Lease

abbrev pub default_ttl : ℕ
default_ttl = 60_000

abbrev pub ttl_or_default : ℕ → ℕ
ttl_or_default ttl = if ltb 0 ttl then ttl else default_ttl

-- `Expired`: the clock is past the expiry.
unfoldable pub expired : ℕ → Lease → Bool
expired now l = ltb l.expires_at now

unfoldable pub find : Text → Leases → Option Lease
find w [] = none
find w (l ∷ ls) = if text_eq l.worktree_id w then some l else find w ls

-- `INSERT … ON CONFLICT (worktree_id) DO UPDATE`.
unfoldable pub upsert : Lease → Leases → Leases
upsert l [] = l ∷ []
upsert l (m ∷ ls) = if text_eq m.worktree_id l.worktree_id then l ∷ ls else m ∷ upsert l ls

-- A lease of somebody else that has not run out.
abbrev pub blocks : ℕ → Text → Lease → Bool
blocks now holder l = ltb now l.expires_at && not (text_eq l.holder holder)

-- `AcquireLease`.
unfoldable pub acquire_lease :
    ℕ → Text → Text → Text → ℕ → Leases → Result LeaseError (Lease × Leases)
acquire_lease now worktree_id task_id holder ttl leases =
    let lease : Lease = record {
      worktree_id = worktree_id;
      task_id = task_id;
      holder = holder;
      expires_at = now + ttl_or_default ttl;
    } in
    elim (find worktree_id leases) [
      | none ↦ ok (lease, upsert lease leases)
      | some current ↦
          if blocks now holder current
          then err (held current.holder worktree_id current.expires_at)
          else ok (lease, upsert lease leases)
    ]

-- `UPDATE leases SET expires_at = ? WHERE worktree_id = ? AND holder = ?`.
unfoldable pub extend : Text → Text → ℕ → Leases → Leases
extend w holder expires [] = []
extend w holder expires (l ∷ ls) =
    let rest = extend w holder expires ls in
    if text_eq l.worktree_id w && text_eq l.holder holder
    then record l { expires_at = expires } ∷ rest
    else l ∷ rest

abbrev pub owns : Text → Text → Lease → Bool
owns w holder l = text_eq l.worktree_id w && text_eq l.holder holder

unfoldable pub renew_lease : ℕ → Text → Text → ℕ → Leases → Result LeaseError (Lease × Leases)
renew_lease now worktree_id holder ttl leases =
    let expires = now + ttl_or_default ttl in
    let lease : Lease = record {
      worktree_id = worktree_id;
      task_id = [];
      holder = holder;
      expires_at = expires;
    } in
    if is_empty (keep (owns worktree_id holder) leases)
    then err (not_holder holder worktree_id)
    else ok (lease, extend worktree_id holder expires leases)

-- `DELETE FROM leases WHERE worktree_id = ? AND holder = ?`.
unfoldable pub release_lease : Text → Text → Leases → Leases
release_lease worktree_id holder leases = keep (λ l. not (owns worktree_id holder l)) leases

-- The calls that instances make, with the time of each.
pub data Call : Type 0 where
  acquires : Text → Text → Text → ℕ → Call
  renews : Text → Text → ℕ → Call
  releases : Text → Text → Call

abbrev after : Leases → Result LeaseError (Lease × Leases) → Leases
after ls (ok (l, ls')) = ls'
after ls (err e) = ls

unfoldable pub step : Leases → ℕ × Call → Leases
step ls (now, acquires w task holder ttl) = after ls (acquire_lease now w task holder ttl ls)
step ls (now, renews w holder ttl) = after ls (renew_lease now w holder ttl ls)
step ls (now, releases w holder) = release_lease w holder ls

unfoldable pub run : Leases → List (ℕ × Call) → Leases
run ls [] = ls
run ls (c ∷ cs) = run (step ls c) cs

abbrev pub caller : Call → Text
caller (acquires w task holder ttl) = holder
caller (renews w holder ttl) = holder
caller (releases w holder) = holder
