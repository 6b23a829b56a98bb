-- ===== src/Conditions.antt =====
-- The condition manager of pkg/apis/condition_set.go and condition_types.go.
-- An `Accessor` holds what `GetConditions` returns, with the readings that `time.Now` has yet to
-- give. The accessor of a manager is never nil, so the nil checks on it have no branch here. A
-- message is the text that `fmt.Sprintf` has made of a format and its arguments.
pub mod Equality
pub mod Sort
pub mod Others
pub mod Store
pub mod Sets
pub mod Coherence
pub mod Counting
pub mod Summary
pub mod Happiness
pub mod Marking
pub mod Unknown
pub mod Initial
pub mod Ready
pub mod Runs
pub mod Calls
pub mod Unhappy
pub mod Clearing
mod Tests
use nats_account_operator.Common.{
  ℕ, suc, ◌<◌, String, ◌==◌, text_lt, ltb, nat_eq, Bool, true, false, not, ◌&&◌, ◌||◌,
  if◌then◌else◌, Option, none, some, List, [], ◌∷◌, ◌++◌, length, filter, find_first, any,
}
use mathlib.Core.Option
use mathlib.Core.List.{foldl}

-- `corev1.ConditionStatus` is a string with three constants; `other` is any other text.
pub data ConditionStatus : Type 0 where
  status_true status_false status_unknown : ConditionStatus
  other : String → ConditionStatus

pub data ConditionSeverity : Type 0 where
  error warning info : ConditionSeverity
  other : String → ConditionSeverity

pub record Condition : Type 0 where
  pub type : String
  pub status : ConditionStatus
  pub severity : ConditionSeverity
  pub last_transition_time : ℕ
  pub reason : String
  pub message : String

abbrev pub condition_ready : String
condition_ready = "Ready"

abbrev pub condition_succeeded : String
condition_succeeded = "Succeeded"

abbrev pub status_eq : ConditionStatus → ConditionStatus → Bool
status_eq status_true status_true = true
status_eq status_false status_false = true
status_eq status_unknown status_unknown = true
status_eq (ConditionStatus.other s) (ConditionStatus.other t) = s == t
status_eq _ _ = false

abbrev pub severity_eq : ConditionSeverity → ConditionSeverity → Bool
severity_eq error error = true
severity_eq warning warning = true
severity_eq info info = true
severity_eq (ConditionSeverity.other s) (ConditionSeverity.other t) = s == t
severity_eq _ _ = false

-- `reflect.DeepEqual` on two conditions.
pub condition_eq : Condition → Condition → Bool
condition_eq c d =
    c.type == d.type
    && (status_eq c.status d.status
        && (severity_eq c.severity d.severity
            && (nat_eq c.last_transition_time d.last_transition_time
                && (c.reason == d.reason && c.message == d.message))))

abbrev pub is_true : Option Condition → Bool
is_true none = false
is_true (some c) = status_eq c.status status_true

abbrev pub is_false : Option Condition → Bool
is_false none = false
is_false (some c) = status_eq c.status status_false

abbrev pub is_unknown : Option Condition → Bool
is_unknown none = true
is_unknown (some c) = status_eq c.status status_unknown

abbrev pub get_reason : Option Condition → String
get_reason none = ""
get_reason (some c) = c.reason

abbrev pub get_message : Option Condition → String
get_message none = ""
get_message (some c) = c.message

pub record ConditionSet : Type 0 where
  pub happy : String
  pub dependents : List String

unfoldable pub contains : List String → String → Bool
contains [] t = false
contains (c ∷ ct) t = c == t || contains ct t

-- The loop of `newConditionSet`, with the dependents kept so far.
unfoldable pub keep_dependents : String → List String → List String → List String
unfolding contains
keep_dependents happy deps [] = deps
keep_dependents happy deps (d ∷ ds) =
    keep_dependents happy (if d == happy || contains deps d then deps else deps ++ d ∷ []) ds

unfoldable pub new_condition_set : String → List String → ConditionSet
unfolding keep_dependents
new_condition_set happy dependents = record {
  happy = happy;
  dependents = keep_dependents happy [] dependents;
}

unfoldable pub new_living_condition_set : List String → ConditionSet
unfolding new_condition_set
new_living_condition_set = new_condition_set condition_ready

pub new_batch_condition_set : List String → ConditionSet
unfolding new_condition_set
new_batch_condition_set = new_condition_set condition_succeeded

pub get_top_level_condition_type : ConditionSet → String
get_top_level_condition_type r = r.happy

pub record Accessor : Type 0 where
  pub conditions : List Condition
  pub clock : ℕ → ℕ

-- A stable insertion sort. Go's `sort.Slice` is one on up to twelve elements.
pub insert_by : (Condition → Condition → Bool) → Condition → List Condition → List Condition
insert_by less x [] = x ∷ []
insert_by less x (y ∷ ys) =
    let rest = insert_by less x ys in if less y x then y ∷ rest else x ∷ y ∷ ys

pub sort_by : (Condition → Condition → Bool) → List Condition → List Condition
unfolding insert_by
sort_by less [] = []
sort_by less (x ∷ xs) = insert_by less x (sort_by less xs)

abbrev pub type_less : Condition → Condition → Bool
type_less c d = text_lt c.type d.type

abbrev pub later : Condition → Condition → Bool
later c d = ltb d.last_transition_time c.last_transition_time

pub find : String → List Condition → Option Condition
find t [] = none
find t (c ∷ cs) = if c.type == t then some c else find t cs

unfoldable pub get_condition : String → Accessor → Option Condition
unfolding find
get_condition t a = find t a.conditions

unfoldable pub get_top_level_condition : ConditionSet → Accessor → Option Condition
unfolding get_condition
get_top_level_condition r a = get_condition r.happy a

unfoldable pub is_happy : ConditionSet → Accessor → Bool
unfolding get_top_level_condition
is_happy r a = is_true (get_top_level_condition r a)

-- The loop of `SetCondition`: `none` is the early return, where only the time would change.
pub others : Condition → List Condition → Option (List Condition)
others cond [] = some []
others cond (c ∷ cs) =
    let rest = others cond cs in
    if c.type == cond.type
    then if condition_eq (record cond { last_transition_time = c.last_transition_time }) c
      then none
      else rest
    else Option.map (λ l. c ∷ l) rest

abbrev pub stamp : ℕ → Condition → Condition
stamp time c = record c { last_transition_time = time }

pub store : Condition → Accessor → Option (List Condition) → Accessor
unfolding sort_by text_lt
store cond a none = a
store cond a (some conditions) = record {
  conditions = sort_by type_less (conditions ++ stamp (a.clock 0) cond ∷ []);
  clock = λ n. a.clock (suc n);
}

pub set_condition : Condition → Accessor → Accessor
unfolding others store condition_eq
set_condition cond a = store cond a (others cond a.conditions)

pub is_terminal : ConditionSet → String → Bool
unfolding contains
is_terminal r t = contains r.dependents t || t == r.happy

pub severity : ConditionSet → String → ConditionSeverity
unfolding is_terminal
severity r t = if is_terminal r t then error else info

abbrev pub make : ConditionSet → String → ConditionStatus → String → String → Condition
make r t status reason message = record {
  type = t;
  status = status;
  severity = severity r t;
  last_transition_time = 0;
  reason = reason;
  message = message;
}

-- The error, "clearing terminal conditions not implemented", is `none`.
pub clear_condition : ConditionSet → String → Accessor → Option Accessor
unfolding is_terminal get_condition sort_by text_lt
clear_condition r t a =
    if is_terminal r t
    then none
    else if is_none (get_condition t a)
    then some a
    else some
        (record a { conditions = sort_by type_less (filter (λ c. not (c.type == t)) a.conditions) })
  where
    is_none : Option Condition → Bool
    is_none none = true
    is_none (some _) = false

-- The conditions that `findUnhappyDependent` looks through, before they are sorted.
pub failures : ConditionSet → List Condition → List Condition
failures r = filter (λ c. severity_eq c.severity error && not (c.type == r.happy))

abbrev pub uninitialized : Condition
uninitialized = record {
  type = "";
  status = status_unknown;
  severity = error;
  last_transition_time = 0;
  reason = "";
  message = "";
}

abbrev pub or_else : Option Condition → Option Condition → Option Condition
or_else none d = d
or_else (some c) d = some c

abbrev pub is_empty : List String → Bool
is_empty [] = true
is_empty (_ ∷ _) = false

pub worst : ConditionSet → List Condition → Option Condition
worst r conditions = or_else (find_first (λ c. is_false (some c)) conditions) (
    or_else (find_first (λ c. is_unknown (some c)) conditions)
      (if ltb (length conditions) (length r.dependents) then some uninitialized else none))

pub find_unhappy_dependent : ConditionSet → Accessor → Option Condition
unfolding failures worst sort_by
find_unhappy_dependent r a =
    if is_empty r.dependents then none else worst r (sort_by later (failures r a.conditions))

pub propagate : ConditionSet → String → Accessor → Option Condition → Accessor
unfolding set_condition severity
propagate r t a (some c) = set_condition (make r r.happy c.status c.reason c.message) a
propagate r t a none =
    if t == r.happy then a else set_condition (make r r.happy status_true "" "") a

pub recompute_happiness : ConditionSet → String → Accessor → Accessor
unfolding propagate find_unhappy_dependent
recompute_happiness r t a = propagate r t a (find_unhappy_dependent r a)

unfoldable pub mark_true : ConditionSet → String → Accessor → Accessor
unfolding recompute_happiness set_condition severity
mark_true r t a = recompute_happiness r t (set_condition (make r t status_true "" "") a)

unfoldable pub mark_true_with_reason : ConditionSet → String → String → String → Accessor → Accessor
unfolding recompute_happiness set_condition severity
mark_true_with_reason r t reason message a =
    recompute_happiness r t (set_condition (make r t status_true reason message) a)

-- `types` in `MarkFalse`: `t`, and the happy type once for each dependent that is `t`.
pub false_types : ConditionSet → String → List String → List String
false_types r t [] = []
false_types r t (d ∷ ds) = let rest = false_types r t ds in if d == t then r.happy ∷ rest else rest

pub set_false : ConditionSet → String → String → List String → Accessor → Accessor
unfolding set_condition severity
set_false r reason message [] a = a
set_false r reason message (t ∷ ts) a =
    set_false r reason message ts (set_condition (make r t status_false reason message) a)

unfoldable pub mark_false : ConditionSet → String → String → String → Accessor → Accessor
unfolding set_false false_types
mark_false r t reason message a = set_false r reason message (t ∷ false_types r t r.dependents) a

-- The loop of `MarkUnknown` over the dependents, and what follows it.
pub check_dependents :
    ConditionSet → String → String → String → Bool → List String → Accessor → Accessor
unfolding set_condition severity get_condition mark_false
check_dependents r t reason message is_dependent [] a =
    if is_dependent then set_condition (make r r.happy status_unknown reason message) a else a
check_dependents r t reason message is_dependent (d ∷ ds) a =
    let rest = check_dependents r t reason message (is_dependent || d == t) ds a in
    if is_false (get_condition d a)
    then if is_false (get_condition r.happy a) then a else mark_false r r.happy reason message a
    else rest

unfoldable pub mark_unknown : ConditionSet → String → String → String → Accessor → Accessor
unfolding check_dependents set_condition severity
mark_unknown r t reason message a =
    check_dependents r t reason message false r.dependents
      (set_condition (make r t status_unknown reason message) a)

abbrev pub initial : String → ConditionStatus → Condition
initial t status = record {
  type = t;
  status = status;
  severity = error;
  last_transition_time = 0;
  reason = "";
  message = "";
}

-- Sets a condition of a type that has none. The pointer that `initializeTerminalCondition` also
-- returns is not used by its caller.
pub initialize_missing : String → ConditionStatus → Accessor → Option Condition → Accessor
unfolding set_condition
initialize_missing t status a (some _) = a
initialize_missing t status a none = set_condition (initial t status) a

pub initialize_terminal_condition : ConditionStatus → Accessor → String → Accessor
unfolding initialize_missing get_condition
initialize_terminal_condition status a t = initialize_missing t status a (get_condition t a)

unfoldable pub initialize_conditions : ConditionSet → Accessor → Accessor
unfolding initialize_terminal_condition initialize_missing get_condition
initialize_conditions r a =
    let happy = get_condition r.happy a in
    foldl (initialize_terminal_condition (if is_true happy then status_true else status_unknown))
      (initialize_missing r.happy status_unknown a happy) r.dependents
