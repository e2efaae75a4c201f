-- ===== src/Runtime/Loader.antt =====
-- Start and serviceLoader of pkg/runtime/runtime.go. An event type is a number, and so are a service and
-- the error of a factory; a set of event types is the list of those that were put into it.
use ww.Prelude.{ℕ, ◌==◌, Bool, true, false, if◌then◌else◌, List, [], ◌∷◌, ◌++◌, Option, none, some}

-- What NewService returns
pub data Built : Type 0 where
  service : ℕ → Built
  broken : ℕ → Built

-- ServiceFactory, with the events of EventProducer and EventConsumer, if it implements them
pub record Factory : Type 0 where
  pub built : Built
  pub produces : Option (List ℕ)
  pub consumes : Option (List ℕ)

-- The error of a factory, and DependencyError
pub data LoadError : Type 0 where
  factory_error : ℕ → LoadError
  dependency_error : ℕ → LoadError

-- serviceLoader, with the hooks that it has appended to the lifecycle
pub record Loader : Type 0 where
  pub err : Option LoadError
  pub prod : List ℕ
  pub cons : List ℕ
  pub hooks : List ℕ

abbrev pub no_services : Loader
no_services = record { err = none; prod = []; cons = []; hooks = [] }

-- addEventProducer and addEventConsumer, on the set of events
abbrev pub add_events : List ℕ → Option (List ℕ) → List ℕ
add_events set none = set
add_events set (some events) = events ++ set

-- addDependencies
abbrev pub add_dependencies : Loader → Factory → Loader
add_dependencies sl f = record sl {
  prod = add_events sl.prod f.produces;
  cons = add_events sl.cons f.consumes;
}

-- LoadService
abbrev pub load_built : Loader → Factory → Built → Loader
load_built sl f (service s) = add_dependencies (record sl { hooks = sl.hooks ++ s ∷ [] }) f
load_built sl f (broken e) = record sl { err = some (factory_error e) }

abbrev pub load_by : Option LoadError → Loader → Factory → Loader
load_by none sl f = load_built sl f f.built
load_by (some e) sl f = sl

unfoldable pub load_service : Loader → Factory → Loader
load_service sl f = load_by sl.err sl f

-- The test of a map for a key
abbrev pub has_event : ℕ → List ℕ → Bool
has_event ev [] = false
has_event ev (e ∷ events) = if ev == e then true else has_event ev events

-- The loop of Error
abbrev pub first_missing : List ℕ → List ℕ → Option LoadError
first_missing prod [] = none
first_missing prod (ev ∷ cons) =
    if has_event ev prod then first_missing prod cons else some (dependency_error ev)

-- Error
abbrev pub error_by : Option LoadError → Loader → Option LoadError
error_by (some e) sl = some e
error_by none sl = first_missing sl.prod sl.cons

unfoldable pub error : Loader → Option LoadError
error sl = error_by sl.err sl

-- The loop of Start
unfoldable pub load_all : Loader → List Factory → Loader
load_all sl [] = sl
load_all sl (f ∷ fs) = load_all (load_service sl f) fs

-- Start: the hooks of the lifecycle, and the error
unfoldable pub start : List Factory → List ℕ × Option LoadError
start fs = ((load_all no_services fs).hooks, error (load_all no_services fs))
