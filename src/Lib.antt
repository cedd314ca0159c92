-- ===== src/Lib.antt =====
-- The MMTk binding for Julia (the Rust crate under mmtk/): a model of its collector-side code and the
-- theorems that make it correct.
--
-- Julia starts the collector by one call (Start). From then on mmtk-core drives the collections and
-- calls the binding. When the allocator asks, the trigger policy decides whether a collection is due
-- (GcTrigger). The mutators announce that they have stopped and wait (Collection); mmtk-core visits
-- them through the table of mutators (Mutators) and asks for the roots of each thread (RootScan),
-- which stand on its tasks' shadow stacks and in its backtrace buffer. It traces on by scanning
-- objects (ObjectScan), each pointer field being a slot (Slots), and moves objects by copying them
-- (ObjectModel). Finalizer lists are then swept and traced (Finalizer), weak references cleared
-- (Api.WeakRef), and the trigger sets the next heap target. All of them read Julia's structures, whose
-- layout (Structs) and bit fields (Bitfield) are those of mmtk/src/julia_types.rs, a file that the
-- build script (Build) makes from Julia's headers.
--
-- Which file models what:
--   Finalizer     mmtk/src/julia_finalizer.rs: ArrayListT, sweep_finalizer_list, mark_finlist,
--                 scan_finalizers_in_rust, each under its own name; a round of a loop is a function.
--   Slots         mmtk/src/slots.rs: JuliaVmSlot and OffsetSlot (Slot), JuliaMemorySlice and its copy
--                 (Slice), the iterator (Iterator), RootsWorkBuffer, RootsWorkClosure and its
--                 callbacks (Roots), and the calls of scan_vm_specific_roots (Reports).
--   Bitfield      mmtk/src/julia_types.rs: __BindgenBitfieldUnit (Storage), the accessors that bindgen
--                 writes (Accessors) and, by structure, the fields and new_bitfield_1 (Fields).
--   Structs       mmtk/src/julia_types.rs: each structure by its members and each assertion about it
--                 (Lists, Threads, Objects, Types, Modules), the rules of repr(C) (Layout), the small
--                 type tags (Tags), and the numbers by which the scanner reads (Reads). A structure has its
--                 C name without leading underscores.
--   Build         mmtk/build.rs: main, cut at its tests, with make, bindgen and the files as a parameter
--                 (Script), and a second run of it (Again); mmtk/src/build_info.rs: the version texts
--                 (Version).
--   Start         mmtk/src/api.rs: mmtk_gc_init over the statics of mmtk/src/lib.rs (Init), with
--                 mmtk-core's options (Options), and mmtk_process (Process); the GC threads of
--                 collection.rs and the panic hook of lib.rs (Threads).
--   GcTrigger     mmtk/src/gc_trigger.rs: the methods of JuliaGcTrigger (Policy), its two helpers
--                 mmtk_overallocation (Overallocation) and mmtk_jl_gc_smooth; on_gc_end is cut into
--                 one function for each of its paragraphs.
--   Collection    mmtk/src/collection.rs: the handshake of stop_all_mutators, resume_mutators and
--                 mmtk_block_thread_for_gc as a step relation, one shared access a step (World); the
--                 states it is lost in (Lost) or stuck (Stuck) and a way on from the others (Progress); the visit of the
--                 mutators and the statistics in between (Pause).
--   ObjectScan    mmtk/src/julia_scanning.rs: types and layouts (Layout), scan_julia_object by kind of
--                 object (Object), mmtk_scan_gcstack (Stack) and a stack in its buffer (CopiedStack); what
--                 is reported for objects (Kinds), modules (Modules), memories (Elements, Memory),
--                 frames (Frames) and tasks (Task).
--   RootScan      mmtk/src/scanning.rs: scan_roots_in_mutator_thread (Mutator) with the backtrace
--                 buffer (Backtrace) and packets (Chunks); their contents (Packets);
--                 process_weak_refs and the work it adds (WeakRefs).
--   ObjectModel   mmtk/src/object_model.rs: get_so_object_size (Size) and copy (Copying).
--   Mutators      mmtk/src/active_plan.rs and the table MUTATORS of mmtk/src/api.rs, and its lock, one
--                 call of a thread a step (Lock).
--   Api           mmtk/src/api.rs, mmtk/src/reference_glue.rs and mmtk/src/util.rs: the other calls,
--                 a region's copy and its log bits among them (Region); those that pass on to
--                 mmtk-core, a record of operations there (Forward).
--   Base          helpers that the others share.
-- A module Examples beside each part holds its theorems at concrete inputs.
--
-- Conventions. The model is of the release build: words are 64 bits and wrap around, written out as
-- remainders, and debug assertions are left out. An address is a number; memory is a function from
-- addresses, to words, or to bytes in ObjectModel.Copying, Api.Buffer and Bitfield. A panic is `none`,
-- or `aborted` in Start and Mutators.Lock: with the toolchain that mmtk/rust-toolchain pins, a panic in an
-- `extern "C"` function ends the process, and no state is followed beyond it. mmtk-core, the C runtime
-- and floating-point numbers are parameters: an object tracer, the liveness test, the allocator,
-- arraylist_grow, the upcalls, `Floats`. What the code relies on is a named hypothesis: GrowKeeps,
-- TracesEven, SimpleSlotLaws, FloatLaws, OptionLaws, CopiesSlices, KeepsFiles. A hash map is an
-- association list.
--
-- Fuel. The sweep and the marking take one unit for each entry and one to stop, and return with it. A
-- scan is given its fuel: more than the number of elements or pointers; a shadow stack, the number of
-- its frames. The backtrace loop and the loop over a frame take as many rounds as there are elements.
--
-- Not modelled: the logging, the statistics of the trigger, the metadata specifications, the trait
-- methods that are left unimplemented, the calls that only panic or only make one upcall, pinning in a
-- build that moves nothing, the aliases and foreign declarations of bindgen: none of them holds logic
-- of the binding.
-- Several mutators are one in Collection.World, for Julia stops the others before the one that asked
-- announces the stop.
pub mod Api
pub mod Base
pub mod Build
pub mod Bitfield
pub mod Collection
pub mod Finalizer
pub mod GcTrigger
pub mod Mutators
pub mod ObjectModel
pub mod ObjectScan
pub mod RootScan
pub mod Slots
pub mod Start
pub mod Structs
