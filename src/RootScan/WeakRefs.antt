-- ===== src/RootScan/WeakRefs.antt =====
-- mmtk/src/scanning.rs: the work packets of `process_weak_refs`, and what each does.
use mmtk_julia.Base.{
  ℕ, ◌≡◌, Bool, true, false, Option, none, some, List, [], ◌∷◌, ◌++◌, Address, ◌>>=◌,
}
use mmtk_julia.Finalizer.ArrayList.{ArrayListT}
use mmtk_julia.Finalizer.Scan.Defs.{FinalizerLists, scan_finalizers_in_rust}

-- The stages of mmtk-core's scheduler that the binding uses.
pub data WorkBucketStage : Type 0 where
  vm_ref_closure : WorkBucketStage
  release : WorkBucketStage

pub record SweepVmSpecific : Type 0 where
  pub swept : Bool

abbrev pub new : SweepVmSpecific
new = record { swept = false }

pub data Packet : Type 0 where
  scan_finalizers_single_threaded : Packet
  sweep_specific : SweepVmSpecific → Packet

-- The packets in the scheduler's buckets, in the order in which they were added.
abbrev pub Buckets : Type 0
Buckets = WorkBucketStage → List Packet

abbrev pub add_work_packet : WorkBucketStage → Packet → Buckets → Buckets
add_work_packet vm_ref_closure packet b vm_ref_closure = b vm_ref_closure ++ packet ∷ []
add_work_packet vm_ref_closure packet b release = b release
add_work_packet release packet b vm_ref_closure = b vm_ref_closure
add_work_packet release packet b release = b release ++ packet ∷ []

-- The answer says whether the method is to be called again.
abbrev pub process_weak_refs : Buckets → Buckets × Bool
process_weak_refs b =
    let finalizers = add_work_packet vm_ref_closure scan_finalizers_single_threaded b in
    (add_work_packet release (sweep_specific new) finalizers, false)

-- The calls of the C runtime that a sweep makes.
pub data Upcall : Type 0 where
  jl_gc_mmtk_sweep_malloced_memory : Upcall
  jl_gc_sweep_stack_pools_and_mtarraylist_buffers : Upcall

-- What a collection has done to finalizers and to C's own memory so far.
pub record Progress (T : Type 0) : Type 0 where
  pub lists : FinalizerLists
  pub tracer : T
  pub upcalls : List Upcall

abbrev pub do_sweep : SweepVmSpecific → List Upcall → SweepVmSpecific × List Upcall
do_sweep work calls = (
  record work { swept = true },
  calls ++ jl_gc_mmtk_sweep_malloced_memory ∷ jl_gc_sweep_stack_pools_and_mtarraylist_buffers ∷ [],
)

module _ {T : Type 0} (grow : ArrayListT → ℕ → ArrayListT) (live : Address → Bool)
    (trace_object : T → Address → T × Address) (nursery : Bool) where
  abbrev with_scanned : List Upcall → Option (FinalizerLists × T) → Option (Progress T)
  with_scanned calls none = none
  with_scanned calls (some (l, t)) = some (record { lists = l; tracer = t; upcalls = calls })

  abbrev pub do_work : Packet → Progress T → Option (Progress T)
  do_work scan_finalizers_single_threaded p =
      with_scanned p.upcalls
        (scan_finalizers_in_rust grow live trace_object nursery p.lists p.tracer)
  do_work (sweep_specific w) p = some (record p { upcalls = (do_sweep w p.upcalls).1 })

  abbrev pub run_packets : List Packet → Progress T → Option (Progress T)
  run_packets [] p = some p
  run_packets (w ∷ ws) p = do p' ← do_work w p; run_packets ws p'

  -- mmtk-core runs the packets of the closure before those of the release.
  abbrev pub run_buckets : Buckets → Progress T → Option (Progress T)
  run_buckets b p = do p' ← run_packets (b vm_ref_closure) p; run_packets (b release) p'

  -- Once the finalizers are scanned, C's memory is swept, once each, and behind what was called before.
  pub run_buckets-process_weak_refs :
      (p : Progress T) (r : FinalizerLists × T)
      → scan_finalizers_in_rust grow live trace_object nursery p.lists p.tracer ≡ some r
      → run_buckets (process_weak_refs (λ stage. [])).0 p
        ≡ some (record {
          lists = r.0;
          tracer = r.1;
          upcalls =
              p.upcalls
              ++ jl_gc_mmtk_sweep_malloced_memory ∷ jl_gc_sweep_stack_pools_and_mtarraylist_buffers
                ∷ [];
        })
  run_buckets-process_weak_refs p r h = rw h
