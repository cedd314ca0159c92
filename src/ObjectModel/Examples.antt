-- ===== src/ObjectModel/Examples.antt =====
-- The theorems on sizes and copies at concrete objects.
use mmtk_julia.Base.{
  ℕ, ◌+◌, ◌*◌, ◌<◌, ◌≤◌, ◌≡◌, ◌⊎◌, refl, true, false, some, [], arith, Address, Bytes, ◌==◌,
  if◌then◌else◌,
}
use mmtk_julia.ObjectScan.Layout.{Runtime, small_tag}
use mmtk_julia.ObjectModel.Size.{llt_align, small_size, get_so_object_size, is_object_in_los}
use mmtk_julia.Structs.Tags.{jl_simplevector_tag, jl_module_tag, jl_task_tag, jl_string_tag}
use mmtk_julia.ObjectModel.Align.{IsRounded, small_size-IsRounded}
use mmtk_julia.ObjectModel.Corrupt.{Settled, get_so_object_size-settles}
use mmtk_julia.ObjectModel.Copying.{heap_of, copy_nonoverlapping, copy, copy-relocates}

abbrev runtime : Runtime
runtime = record {
  jl_symbol_type = 7000;
  jl_weakref_type = 7100;
  jl_task_type = 7200;
  jl_array_typename = 7300;
  jl_genericmemory_typename = 7400;
  jl_small_typeof = λ i. 7500;
  julia_buff_tag = 1320042496;
  julia_header_size = 8;
  object_is_managed_by_mmtk = λ a. true;
  gc_genericmemory_how = λ a. 0;
  gc_get_owner_address = λ a. a;
  gc_get_stackbase = λ i. 0;
  gc_scan_julia_exc_obj = λ a. [];
  julia_copy_stack = false;
}

-- At 1000 a simple vector of 3 elements, its header (tag 9) in the 8 bytes before.
abbrev vector_memory : Bytes
vector_memory a = if a == 992 then 144 else if a == 1000 then 3 else 0

abbrev no_buffer : Address → ℕ
no_buffer obj = 0

abbrev to_two_thousand : (from size align offset : ℕ) → Address
to_two_thousand from size align offset = 2000

abbrev unchanged : (from to : Address) → Bytes → Bytes
unchanged from to m = m

vector_size : get_so_object_size runtime (heap_of vector_memory) no_buffer 1000 ≡ some 48
unfolding get_so_object_size small_size llt_align heap_of
vector_size = refl

get_so_object_size-settles_example :
    Settled runtime
      (heap_of vector_memory)
      no_buffer
      1000
      (get_so_object_size runtime (heap_of vector_memory) no_buffer 1000)
get_so_object_size-settles_example =
    get_so_object_size-settles runtime (heap_of vector_memory) no_buffer 1000

-- A vector of 3 elements; and, by its first word, a string of 3 bytes.
small_size-IsRounded_example :
    IsRounded
      (3 * 8 + 8 + 8)
      16
      (small_size runtime (heap_of vector_memory) (small_tag jl_simplevector_tag) 1000)
    × IsRounded
        (392 + 8)
        16
        (small_size runtime (heap_of vector_memory) (small_tag jl_module_tag) 1000)
    × IsRounded
        (224 + 8)
        16
        (small_size runtime (heap_of vector_memory) (small_tag jl_task_tag) 1000)
    × IsRounded
        (3 + 9 + 8)
        8
        (small_size runtime (heap_of vector_memory) (small_tag jl_string_tag) 1000)
unfolding heap_of
small_size-IsRounded_example =
    small_size-IsRounded runtime (heap_of vector_memory) 1000 (omega arith)

abbrev copied : Bytes
copied = copy_nonoverlapping vector_memory 992 2000 48

copy-relocates_example :
    (copy runtime no_buffer to_two_thousand unchanged vector_memory 1000
      ≡ some (record { memory = copied; to_obj = 2008; post_copied = 48 }))
    × ((i : ℕ) → i < 48 → copied (2000 + i) ≡ vector_memory (992 + i))
    × ((a : Address) → (a < 2000) ⊎ (2048 ≤ a) → copied a ≡ vector_memory a)
unfolding heap_of is_object_in_los copy_nonoverlapping
copy-relocates_example =
    copy-relocates runtime no_buffer to_two_thousand unchanged vector_memory 1000 48 refl refl
      (omega arith) (omega arith) (omega arith) vector_size (omega arith) copied refl (omega arith)
