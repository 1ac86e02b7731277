-- ===== src/Native/Authorize/Exact.antt =====
-- What `authorize` lets through: exact conditions on the call, and the authority of every edit.
use local_engineer.Prelude.{
  ℕ, ◌≤◌, ◌≡◌, refl, ◌∙◌, ◌↔◌, ◌⊎◌, inl, inr, true, List, [], ◌∷◌, Option, none, some, arith, ap,
  subst, any, is_empty, All, ◌then_check◌, then_check-left, then_check-right, Option-cases,
  if◌then◌else◌,
}
use local_engineer.GoStrings.{Text, codes, text_eq, text_eq_iff}
use local_engineer.GoPath.{clean}
use local_engineer.Recipe.{lookup}
use local_engineer.Worktree.{FileSystem}
use local_engineer.Firewall.{Access, Denied, check_access}
use local_engineer.Firewall.Authority.{Resolves, Writable, check_access-write}
use local_engineer.Native.{ToolCall, ToolDef, tool_write_file, tool_edit_file}
use local_engineer.Native.Authorize.{
  Json, text, natural, other, Args, Property, Schema, Decoder, Refusal, max_int32, find_tool,
  check_required, check_text, check_integer, check_argument, check_arguments, text_argument, denial,
  check_path, authorize,
}

-- The value that a property of the schema admits.
pub data Fits (p : Property) : Json → Type 0 where
  fits_text :
      (t : Text)
      → p.type_name ≡ codes "string"
      → (p.choices ≡ []) ⊎ (any (λ choice. text_eq choice t) p.choices ≡ true)
      → Fits p (text t)
  fits_integer : (n : ℕ) → p.type_name ≡ codes "integer" → n ≤ max_int32 → Fits p (natural n)

-- A declared key with a value that its property admits.
abbrev pub Declared : Schema → Text × Json → Type 0
Declared s (key, value) = (p : Property) × (lookup key s.properties ≡ some p) × Fits p value

-- The call is advertised, its arguments decode, nothing required is missing, and every argument is
-- declared and fits.
abbrev pub WellFormed : Decoder → List ToolDef → ToolCall → Schema → Args → Type 0
WellFormed decode tools call s args =
    ((def : ToolDef) × (find_tool call.name tools ≡ some def) × (decode.schema def.schema ≡ some s))
    × (decode.arguments call.arguments ≡ some args)
    × All (λ key. (v : Json) × (lookup key args ≡ some v)) s.required
    × All (Declared s) args

check_required-none :
    (keys : List Text) (args : Args)
    → check_required keys args ≡ none
    → All (λ key. (v : Json) × (lookup key args ≡ some v)) keys
unfolding check_required
check_required-none [] args h = tt
check_required-none (key ∷ keys) args h = elim (Option-cases (lookup key args)) [
  | inl e ↦ absurd (ground arith)
  | inr (v, e) ↦ ((v, e), check_required-none keys args (ground arith))
]

required-check_required :
    (keys : List Text) (args : Args)
    → All (λ key. (v : Json) × (lookup key args ≡ some v)) keys
    → check_required keys args ≡ none
unfolding check_required
required-check_required [] args h = refl
required-check_required (key ∷ keys) args ((v, e), hs) =
    rw (e, check_required) (required-check_required keys args hs)

is_empty-nil : {A : Type 0} (xs : List A) → is_empty xs ≡ true → xs ≡ []
is_empty-nil [] h = refl
is_empty-nil (x ∷ xs) h = cc

check_argument-none :
    (s : Schema) (key : Text) (value : Json)
    → check_argument s key value ≡ none
    → Declared s (key, value)
unfolding check_argument check_text check_integer
check_argument-none s key value h = elim (Option-cases (lookup key s.properties)) [
  | inl e ↦ absurd (ground arith)
  | inr (p, e) ↦ (p, e, fits p value (ground arith))
]
  where
    fits :
        (p : Property) (value : Json)
        → (if text_eq p.type_name (codes "string")
            then check_text key p value
            else if text_eq p.type_name (codes "integer")
            then check_integer key value
            else some (Refusal.unsupported_type p.type_name))
          ≡ none
        → Fits p value
    fits p (text t) h =
        fits_text t (ground (arith, text_eq_iff p.type_name (codes "string")))
          (ground (arith, is_empty-nil p.choices))
    fits p (natural n) h =
        fits_integer n (ground (arith, text_eq_iff p.type_name (codes "integer"))) (ground arith)
    fits p other h = absurd (ground arith)

Fits-check_argument :
    (s : Schema) (key : Text) (value : Json) (p : Property)
    → lookup key s.properties ≡ some p
    → Fits p value
    → check_argument s key value ≡ none
unfolding check_argument check_text check_integer
Fits-check_argument s key _ p e (fits_text t name (inl empty)) =
    ground (arith, text_eq_iff p.type_name (codes "string"), ap is_empty empty)
Fits-check_argument s key _ p e (fits_text t name (inr found)) =
    ground (arith, text_eq_iff p.type_name (codes "string"))
Fits-check_argument s key _ p e (fits_integer n name small) = ground (
  arith,
  text_eq_iff p.type_name (codes "integer"),
  text_eq_iff p.type_name (codes "string"),
  ap (λ t. text_eq t (codes "string")) name,
)

check_arguments-none :
    (s : Schema) (args : Args) → check_arguments s args ≡ none → All (Declared s) args
unfolding check_arguments
check_arguments-none s [] h = tt
check_arguments-none s ((key, value) ∷ args) h = (
  check_argument-none s key value
      (then_check-left (check_argument s key value) (check_arguments s args) h),
  check_arguments-none s args
      (then_check-right (check_argument s key value) (check_arguments s args) h),
)

Declared-check_arguments :
    (s : Schema) (args : Args) → All (Declared s) args → check_arguments s args ≡ none
unfolding check_arguments
Declared-check_arguments s [] h = refl
Declared-check_arguments s ((key, value) ∷ args) ((p, e, f), hs) =
    rw (Fits-check_argument s key value p e f) (Declared-check_arguments s args hs)

WellFormed-authorize :
    (decode : Decoder) (fs : FileSystem) (access : Access) (worktree : Text) (tools : List ToolDef)
    (call : ToolCall) (s : Schema) (args : Args)
    → WellFormed decode tools call s args
    → authorize decode fs access worktree tools call ≡ check_path fs access worktree call.name args
unfolding authorize
WellFormed-authorize decode fs access worktree tools call s args
      ((def, found, read), given, present, declared) =
    ground (
      arith,
      required-check_required s.required args present,
      Declared-check_arguments s args declared,
    )

authorize-none :
    (decode : Decoder) (fs : FileSystem) (access : Access) (worktree : Text) (tools : List ToolDef)
    (call : ToolCall)
    → authorize decode fs access worktree tools call ≡ none
    → (s : Schema) × (args : Args) × WellFormed decode tools call s args
      × (check_path fs access worktree call.name args ≡ none)
unfolding authorize
authorize-none decode fs access worktree tools call h =
    elim (Option-cases (find_tool call.name tools)) [
      | inl e ↦ absurd (ground arith)
      | inr (def, found) ↦ elim (Option-cases (decode.schema def.schema)) [
        | inl e ↦ absurd (ground arith)
        | inr (s, read) ↦ elim (Option-cases (decode.arguments call.arguments)) [
          | inl e ↦ absurd (ground arith)
          | inr (args, given) ↦
              let required = check_required s.required args in
              let declared = check_arguments s args in
              let path = check_path fs access worktree call.name args in
              let all : (required then_check declared then_check path) ≡ none = ground arith in
              let rest = then_check-right required (declared then_check path) all in
              (
                s,
                args,
                (
                  (def, found, read),
                  given,
                  check_required-none s.required args
                      (then_check-left required (declared then_check path) all),
                  check_arguments-none s args (then_check-left declared path rest),
                ),
                then_check-right declared path rest,
              )
        ]
      ]
    ]

-- A call is authorized exactly when it is advertised, its arguments decode to an object that has
-- every required key and no key that the schema does not declare, each value fits its property
-- (among the choices where there are any, or a 32-bit integer that is not negative), and the path
-- that it names is one the attempt may use.
pub authorize_exact :
    (decode : Decoder) (fs : FileSystem) (access : Access) (worktree : Text) (tools : List ToolDef)
    (call : ToolCall)
    → (authorize decode fs access worktree tools call ≡ none) ↔ (
        (s : Schema) × (args : Args) × WellFormed decode tools call s args
        × (check_path fs access worktree call.name args ≡ none))
authorize_exact decode fs access worktree tools call = (
  authorize-none decode fs access worktree tools call,
  (λ (s, args, formed, path).
      WellFormed-authorize decode fs access worktree tools call s args formed ∙ path),
)

denial-none : (d : Option Denied) → denial d ≡ none → d ≡ none
denial-none none h = refl
denial-none (some d) h = cc

IsEdit : Text → Type 0
IsEdit name = (name ≡ tool_write_file) ⊎ (name ≡ tool_edit_file)

check_path-edit :
    (fs : FileSystem) (access : Access) (worktree name : Text) (args : Args)
    → IsEdit name
    → check_path fs access worktree name args ≡ none
    → check_access fs access worktree (text_argument args (codes "path")) true ≡ none
unfolding check_path text_eq IsEdit
check_path-edit fs access worktree name args (inl e) h =
    denial-none (check_access fs access worktree (text_argument args (codes "path")) true)
      (subst (λ n. check_path fs access worktree n args ≡ none) e h)
check_path-edit fs access worktree name args (inr e) h =
    denial-none (check_access fs access worktree (text_argument args (codes "path")) true)
      (subst (λ n. check_path fs access worktree n args ≡ none) e h)

-- An authorized write or edit names a path that resolves below the worktree and whose two names, the
-- supplied one and that of the real target, the attempt may write.
pub authorized_edit :
    (decode : Decoder) (fs : FileSystem) (access : Access) (worktree : Text) (tools : List ToolDef)
    (call : ToolCall)
    → (call.name ≡ tool_write_file) ⊎ (call.name ≡ tool_edit_file)
    → authorize decode fs access worktree tools call ≡ none
    → (args : Args) × (decode.arguments call.arguments ≡ some args)
      × ((target : Text) × Resolves fs worktree (text_argument args (codes "path")) target
          × Writable access (clean (text_argument args (codes "path")))
          × Writable access target)
unfolding IsEdit
authorized_edit decode fs access worktree tools call edit h =
    let (s, args, (advertised, given, required, formed), path) =
      authorize-none decode fs access worktree tools call h in
    (
      args,
      given,
      (check_access-write fs access worktree (text_argument args (codes "path"))).0
          (check_path-edit fs access worktree call.name args edit path),
    )
