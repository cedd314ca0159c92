-- ===== src/Start/Threads.antt =====
-- mmtk/src/collection.rs: the set of GC threads, and mmtk/src/lib.rs: what the panic hook does on a
-- thread. What the panic does once the hook has returned is not the hook's: it unwinds to the next
-- `extern "C"` function, which aborts. `ThreadId`s are numbers, and the set is a list without a thread twice.
use mmtk_julia.Base.{
  ℕ, ◌≡◌, refl, sym, ap, ◌∙◌, Bool, true, false, List, [], ◌∷◌, arith, ◌==◌, if◌then◌else◌, ==_iff,
  Bool-cases, inl, inr,
}
use mmtk_julia.Start.Init.{Hook, standard, abort_on_gc_thread}

abbrev pub GcThreads : Type 0
GcThreads = List ℕ

unfoldable pub is_gc_thread : GcThreads → (id : ℕ) → Bool
is_gc_thread [] id = false
is_gc_thread (t ∷ ts) id = let rest = is_gc_thread ts id in if t == id then true else rest

-- `HashSet::insert` and `HashSet::remove`.
unfoldable pub register_gc_thread : GcThreads → (id : ℕ) → GcThreads
register_gc_thread ts id = if is_gc_thread ts id then ts else id ∷ ts

unfoldable pub unregister_gc_thread : GcThreads → (id : ℕ) → GcThreads
unregister_gc_thread [] id = []
unregister_gc_thread (t ∷ ts) id =
    let rest = unregister_gc_thread ts id in if t == id then rest else t ∷ rest

-- What the hook does on a thread that panics.
pub data Action : Type 0 where
  default_report : Action  -- the standard hook prints its message and returns
  process_abort : Action

unfoldable pub run_hook : Hook → GcThreads → (id : ℕ) → Action
run_hook standard ts id = default_report
run_hook (abort_on_gc_thread old) ts id =
    let older = run_hook old ts id in if is_gc_thread ts id then process_abort else older

-- What a thread that `spawn_gc_thread` starts does to the set, before its worker loop and behind it.
pub data Event : Type 0 where
  starts : (id : ℕ) → Event
  quits : (id : ℕ) → Event

abbrev pub step : GcThreads → Event → GcThreads
step ts (starts id) = register_gc_thread ts id
step ts (quits id) = unregister_gc_thread ts id

-- Events in their order.
abbrev pub after_events : GcThreads → List Event → GcThreads
after_events ts [] = ts
after_events ts (e ∷ es) = after_events (step ts e) es

-- Whether a thread is at work, by its own last event.
abbrev pub at_work : (before : Bool) (id : ℕ) → List Event → Bool
at_work before id [] = before
at_work before id (starts t ∷ es) = at_work (if t == id then true else before) id es
at_work before id (quits t ∷ es) = at_work (if t == id then false else before) id es

register_choice :
    (ts : GcThreads) (t id : ℕ) (b : Bool)
    → is_gc_thread ts t ≡ b
    → is_gc_thread (if b then ts else t ∷ ts) id ≡ (if t == id then true else is_gc_thread ts id)
unfolding is_gc_thread
register_choice ts t id false e = refl
register_choice ts t id true e = elim (Bool-cases (t == id)) [
  | inl same ↦ ap (is_gc_thread ts) (sym ((==_iff t id).0 same)) ∙ e ∙ rw same
  | inr apart ↦ rw apart
]

is_gc_thread-register :
    (ts : GcThreads) (t id : ℕ)
    → is_gc_thread (register_gc_thread ts t) id ≡ (if t == id then true else is_gc_thread ts id)
unfolding register_gc_thread is_gc_thread
is_gc_thread-register ts t id = register_choice ts t id (is_gc_thread ts t) refl

is_gc_thread-unregister :
    (ts : GcThreads) (t id : ℕ)
    → is_gc_thread (unregister_gc_thread ts t) id ≡ (if t == id then false else is_gc_thread ts id)
unfolding unregister_gc_thread is_gc_thread
is_gc_thread-unregister [] t id = ground arith
is_gc_thread-unregister (u ∷ ts) t id = ground (arith, is_gc_thread-unregister ts t id)

registered_at_work :
    (es : List Event) (ts : GcThreads) (id : ℕ)
    → is_gc_thread (after_events ts es) id ≡ at_work (is_gc_thread ts id) id es
registered_at_work [] ts id = refl
registered_at_work (starts t ∷ es) ts id =
    registered_at_work es (register_gc_thread ts t) id
    ∙ ap (λ b. at_work b id es) (is_gc_thread-register ts t id)
registered_at_work (quits t ∷ es) ts id =
    registered_at_work es (unregister_gc_thread ts t) id
    ∙ ap (λ b. at_work b id es) (is_gc_thread-unregister ts t id)

-- Whatever GC threads start and quit, in any order: the hook of `mmtk_gc_init`, set over the standard
-- one, itself aborts the process if the last thing that the panicking thread did to the set of GC
-- threads was to register itself, and else, where it never did or has unregistered since, runs the
-- standard hook and returns.
pub run_hook-at_work :
    (es : List Event) (id : ℕ)
    → run_hook (abort_on_gc_thread standard) (after_events [] es) id
      ≡ (if at_work false id es then process_abort else default_report)
unfolding run_hook is_gc_thread
run_hook-at_work es id = rw (registered_at_work es [] id)
