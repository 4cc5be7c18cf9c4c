-- ===== src/Pip/Options/Grammar.antt =====
-- hermeto/core/package_managers/pip/requirements.py: the two lists of options that the splitter
-- returns.
use mathlib.Core.List.{foldl, foldl-append}
use cachi.Base.{
  String, Bool, true, false, not, ◌&&◌, Option, none, some, List, [], ◌∷◌, ◌++◌, ◌≡◌, ◌≢◌, refl,
  sym, ◌∙◌, ◌==◌, string_eq, bool_eq, if◌then◌else◌, arith, Bool-cases, Option-cases, inl, inr,
  subst,
}
use cachi.Base.Text.{startswith, split}
use cachi.Errors.{Error, ok, err, Result-cases}
use cachi.Pip.Options.{
  requires_value, is_requirement_option, State, start, append_context, split_value, append_option,
  step_option, step, run, finish, split_options_and_requirement,
}

-- One item of a list of options of one kind; the flag says whether a value is due.
pub read_item : Bool → Option Bool → String → Option Bool
read_item kind none part = none
read_item kind (some true) part = some false
read_item kind (some false) part =
    if is_requirement_option part == kind then requires_value part else none

pub reads : Bool → List String → Option Bool
reads kind l = foldl (read_item kind) (some false) l

-- The options are known, and no value is due at the end.
abbrev pub IsOptionList : Bool → List String → Type 0
IsOptionList kind l = reads kind l ≡ some false

reads-concat :
    (kind : Bool) (l : List String) (part : String)
    → reads kind (l ++ part ∷ []) ≡ read_item kind (reads kind l) part
unfolding reads
reads-concat kind l part = rw foldl-append

-- What the loop keeps: a value is due in the list that the last option went to, and only there.
record Inv (s : State) : Type 0 where
  globals : reads false s.global_options ≡ some (s.require_value && not s.to_requirement)
  requirements : reads true s.requirement_options ≡ some (s.require_value && s.to_requirement)

append_option-Inv :
    (part : String) (value : Option String) (needs : Bool) (s : State)
    → requires_value part ≡ some needs
    → s.require_value ≡ false
    → (value ≢ none → needs ≡ true)
    → Inv s
    → Inv
        (append_option part value needs (record s { to_requirement = is_requirement_option part }))
unfolding append_option read_item
append_option-Inv part none needs s e d v i =
    ground (
      arith,
      reads-concat false s.global_options part,
      reads-concat true s.requirement_options part,
    )
append_option-Inv part (some w) needs s e d v i = ground (
  arith,
  reads-concat false s.global_options part,
  reads-concat true s.requirement_options part,
  reads-concat false (s.global_options ++ part ∷ []) w,
  reads-concat true (s.requirement_options ++ part ∷ []) w,
)

step_option-Inv :
    (part : String) (value : Option String) (s t : State)
    → s.require_value ≡ false
    → step_option part value (requires_value part) s ≡ ok t
    → Inv s
    → Inv t
unfolding step_option
step_option-Inv part value s t d h i = elim (Option-cases (requires_value part)) [
  | inl e ↦ absurd (known e)
  | inr (needs, e) ↦
      subst Inv (result needs e) (append_option-Inv part value needs s e d (asked needs e) i)
]
  where
    known : requires_value part ≡ none → ⊥
    known e = ground arith

    result :
        (needs : Bool)
        → requires_value part ≡ some needs
        → append_option part value needs (record s { to_requirement = is_requirement_option part })
          ≡ t
    result needs e = ground arith

    asked : (needs : Bool) → requires_value part ≡ some needs → value ≢ none → needs ≡ true
    asked needs e v = ground arith

pub step_at_option :
    (part : String) (s : State)
    → s.require_value ≡ false
    → startswith part "-" ≡ true
    → step part s
      ≡ step_option
          (split_value part).0
          (split_value part).1
          (requires_value (split_value part).0)
          s
unfolding step
step_at_option part s d o = ground arith

step-Inv : (part : String) (s t : State) → step part s ≡ ok t → Inv s → Inv t
unfolding step append_context read_item
step-Inv part s t h i = elim (Bool-cases s.require_value) [
  | inl d ↦ ground (
    arith,
    reads-concat false s.global_options part,
    reads-concat true s.requirement_options part,
  )
  | inr d ↦ elim (Bool-cases (startswith part "-")) [
    | inl o ↦
        step_option-Inv (split_value part).0 (split_value part).1 s t d
          (sym (step_at_option part s d o) ∙ h) i
    | inr o ↦ ground arith
  ]
]

run-Inv : (parts : List String) (s t : State) → run parts s ≡ ok t → Inv s → Inv t
unfolding run
run-Inv [] s t h i = ground arith
run-Inv (part ∷ parts) s t h i = elim (Result-cases (step part s)) [
  | inl (e, p) ↦ absurd (stopped e p)
  | inr (u, p) ↦ run-Inv parts u t (rw (p, run) at h) (step-Inv part s u p i)
]
  where
    stopped : (e : Error) → step part s ≡ err e → ⊥
    stopped e p = ground arith

start-Inv : Inv start
unfolding reads
start-Inv = record { globals = refl; requirements = refl }

finish-requirement :
    (s : State) (g r : List String) (line : String)
    → finish s ≡ ok (g, r, line)
    → (s.require_value ≡ false) × (s.global_options ≡ g) × (s.requirement_options ≡ r)
unfolding finish
finish-requirement s g r line h = ground arith

-- The options that the splitter returns are known and of the right kind, each that requires a
-- value is followed by one, and no other value stands among them.
pub split_options_and_requirement-IsOptionList :
    (line : String) (g r : List String) (rest : String)
    → split_options_and_requirement line ≡ ok (g, r, rest)
    → IsOptionList false g × IsOptionList true r
unfolding split_options_and_requirement
split_options_and_requirement-IsOptionList line g r rest h =
    elim (Result-cases (run (split line) start)) [
      | inl (e, p) ↦ absurd (stopped e p)
      | inr (s, p) ↦
          let i = run-Inv (split line) start s p start-Inv in
          let (due, eg, er) =
            finish-requirement s g r rest (rw (p, split_options_and_requirement) at h) in
          (
            subst (IsOptionList false) eg (rw due at i.globals),
            subst (IsOptionList true) er (rw due at i.requirements),
          )
    ]
  where
    stopped : (e : Error) → run (split line) start ≡ err e → ⊥
    stopped e p = ground arith
