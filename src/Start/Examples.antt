-- ===== src/Start/Examples.antt =====
-- The theorems on the start at a concrete builder and concrete calls.
use mmtk_julia.Base.{ℕ, ◌≡◌, refl, Bool, true, false, some, none, List, [], ◌∷◌, ltb}
use mmtk_julia.Start.Options.{
  GcTriggerSelector, delegated, dynamic_heap_size, Features, MmtkOptions, OptionLaws,
}
use mmtk_julia.Start.Init.{
  Panic, returned, aborted, standard, abort_on_gc_thread, Request, mmtk_gc_init, set_options,
  set_heap_size, set_reference_types, set_gc_threads, start_instance, assert_allocators,
}
use Prim.Native.String.{String}
use mmtk_julia.Start.Frame.{Statics}
use mmtk_julia.Start.Process.{mmtk_process}
use mmtk_julia.Start.Once.{init, Later, now, processed, mmtk_gc_init-once}
use mmtk_julia.Start.Configured.{Configured, mmtk_gc_init-Configured}
use mmtk_julia.Start.Threads.{
  Event, starts, quits, after_events, run_hook, process_abort, run_hook-at_work,
}

-- Options that take everything but more than 100 threads.
record Plain : Type 0 where
  trigger : GcTriggerSelector
  no_types : Bool
  workers : ℕ

abbrev plain_options : MmtkOptions
plain_options = record {
  Options = Plain;
  gc_trigger = λ o. o.trigger;
  no_reference_types = λ o. o.no_types;
  threads = λ o. o.workers;
  set_plan = λ o p. (o, true);
  set_gc_trigger = λ o v. (record o { trigger = v }, true);
  set_no_reference_types = λ o v. (record o { no_types = v }, true);
  set_threads = λ o v. (record o { workers = v }, ltb v 101);
  default_is_immix = λ o. true;
  immortal_is_bump_pointer = λ o. true;
}

plain_laws : OptionLaws plain_options
plain_laws = record {
  gc_trigger-set = λ o v h. refl;
  no_reference_types-set = λ o v h. refl;
  threads-set = λ o v h. refl;
  gc_trigger-set_no_reference_types = λ o v. refl;
  gc_trigger-set_threads = λ o v. refl;
  no_reference_types-set_threads = λ o v. refl;
}

abbrev immix_build : Features
immix_build = record { nogc = false; marksweep = false; immix_plan = true; stickyimmix = false }

abbrev fresh : Statics plain_options immix_build 4096
fresh = record {
  julia_header_size = 0;
  julia_buff_tag = 0;
  builder = record { trigger = delegated; no_types = true; workers = 1 };
  mmtk_initialized = false;
  singleton = none;
  mmtk_side_log_bit_base_address = 0;
  panic_hook = standard;
}

abbrev usual : Request
usual = record {
  min_heap_size = 4096;
  max_heap_size = 8192;
  n_gcthreads = 4;
  header_size = 8;
  buffer_tag = 0x4eadc0004eadc000;
}

abbrev configured : Statics plain_options immix_build 4096
configured = record {
  julia_header_size = 8;
  julia_buff_tag = 0x4eadc0004eadc000;
  builder = record { trigger = dynamic_heap_size 4096 8192; no_types = false; workers = 4 };
  mmtk_initialized = true;
  singleton =
      some (record { trigger = dynamic_heap_size 4096 8192; no_types = false; workers = 4 });
  mmtk_side_log_bit_base_address = 4096;
  panic_hook = abort_on_gc_thread standard;
}

usual-returned : init plain_options immix_build 4096 usual fresh ≡ returned configured
unfolding mmtk_gc_init set_options set_heap_size set_reference_types set_gc_threads start_instance
    assert_allocators
usual-returned = refl

mmtk_gc_init-Configured_example :
    Configured plain_options immix_build 4096 plain_laws usual fresh configured
mmtk_gc_init-Configured_example =
    mmtk_gc_init-Configured plain_options immix_build 4096 plain_laws usual fresh configured refl
      usual-returned

abbrev plain_process : Plain → String → String → Plain × Bool
plain_process o name value = (record o { workers = 2 }, true)

-- An option is set between the two calls.
abbrev reset : Statics plain_options immix_build 4096
reset = record configured {
  builder = record { trigger = dynamic_heap_size 4096 8192; no_types = false; workers = 2 };
}

reset-Later : Later plain_options immix_build 4096 plain_process configured reset
unfolding mmtk_process
reset-Later = processed (some "threads") (some "2") true now refl

mmtk_gc_init-once_example :
    (p : Panic) × (init plain_options immix_build 4096 usual reset ≡ aborted p)
mmtk_gc_init-once_example =
    mmtk_gc_init-once plain_options immix_build 4096 plain_process usual usual fresh configured
      reset refl usual-returned reset-Later

-- Two GC threads start, and one quits.
abbrev two_threads : List Event
two_threads = starts 7 ∷ starts 9 ∷ quits 7 ∷ []

run_hook-at_work_example :
    run_hook (abort_on_gc_thread standard) (after_events [] two_threads) 9 ≡ process_abort
run_hook-at_work_example = run_hook-at_work two_threads 9
