-- ===== src/Bitfield/Fields/Context.antt =====
-- mmtk/src/julia_types.rs: the bit fields of `jl_ucontext_t`.
use mmtk_julia.Base.{ℕ, Option, ◌>>=◌}
use mmtk_julia.Bitfield.Storage.{BindgenBitfieldUnit, set}
use mmtk_julia.Bitfield.Accessors.{Accessors, accessors, default_unit}

abbrev pub copy_stack : Accessors
copy_stack = accessors 32 0 31

abbrev pub started : Accessors
started = accessors 32 31 1

abbrev pub new_bitfield_1 : (copy_stack_val started_val : ℕ) → Option BindgenBitfieldUnit
new_bitfield_1 copy_stack_val started_val = do
  unit0 ← set (default_unit 4) 0 31 copy_stack_val
  set unit0 31 1 started_val
