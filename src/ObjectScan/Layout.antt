-- ===== src/ObjectScan/Layout.antt =====
-- mmtk/src/julia_scanning.rs and util.rs: reading types and their layouts. The offsets of fields and
-- the small type tags are those that julia_types.rs asserts.
use mmtk_julia.Base.{
  ℕ, ◌+◌, ◌*◌, ◌/◌, ◌%◌, ◌^◌, Bool, ◌||◌, ◌&&◌, List, bit_and, Address, add_word, sub_word,
  clear_low, ◌==◌, ltb, if◌then◌else◌,
}
use mmtk_julia.Structs.Tags.{
  jl_datatype_tag, jl_enternode_tag, jl_globalref_tag, jl_gotoifnot_tag, jl_phicnode_tag,
  jl_phinode_tag, jl_pinode_tag, jl_quotenode_tag, jl_returnnode_tag, jl_tvar_tag, jl_unionall_tag,
  jl_uniontype_tag, jl_upsilonnode_tag, jl_vararg_tag,
}
use mmtk_julia.Slots.Slot.{Memory, JuliaVmSlot}

-- The memory, read at each width.
pub record Heap : Type 0 where
  pub load64 : Memory
  pub load32 : Address → ℕ
  pub load16 : Address → ℕ
  pub load8 : Address → ℕ

-- What Julia's runtime in C, mmtk-core and the build supply: the addresses of types, the answers of
-- the upcalls, the constants given to `mmtk_gc_init`, and whether the feature `julia_copy_stack` is on.
pub record Runtime : Type 0 where
  pub jl_symbol_type : Address
  pub jl_weakref_type : Address
  pub jl_task_type : Address
  pub jl_array_typename : Address
  pub jl_genericmemory_typename : Address
  pub jl_small_typeof : ℕ → Address
  pub julia_buff_tag : ℕ
  pub julia_header_size : ℕ
  pub object_is_managed_by_mmtk : ℕ → Bool
  pub gc_genericmemory_how : Address → ℕ
  pub gc_get_owner_address : Address → Address
  pub gc_get_stackbase : ℕ → ℕ
  pub gc_scan_julia_exc_obj : Address → List JuliaVmSlot
  pub julia_copy_stack : Bool

-- `tag << 4` for a small type tag.
abbrev pub small_tag : ℕ → ℕ
small_tag tag = tag * 16

abbrev pub jl_max_tags : ℕ
jl_max_tags = 64

-- The header before the object, without its four lowest bits.
abbrev pub typetagof : Heap → Address → Address
typetagof h addr = clear_low (h.load64 (sub_word addr 8)) 4

abbrev pub to_typeof : Runtime → Address → Address
to_typeof rt t = if ltb t (jl_max_tags * 16) then rt.jl_small_typeof (t / 8) else t

abbrev pub typeof : Runtime → Heap → Address → Address
typeof rt h addr = to_typeof rt (typetagof h addr)

-- The tags of objects that hold pointers and need no other handling.
abbrev pub is_plain_tag : ℕ → Bool
is_plain_tag t =
    (t == small_tag jl_datatype_tag)
    || (t == small_tag jl_unionall_tag)
    || (t == small_tag jl_uniontype_tag)
    || (t == small_tag jl_tvar_tag)
    || (t == small_tag jl_vararg_tag)
    || (t == small_tag jl_globalref_tag)
    || (t == small_tag jl_gotoifnot_tag)
    || (t == small_tag jl_returnnode_tag)
    || (t == small_tag jl_enternode_tag)
    || (t == small_tag jl_pinode_tag)
    || (t == small_tag jl_phinode_tag)
    || (t == small_tag jl_phicnode_tag)
    || (t == small_tag jl_upsilonnode_tag)
    || (t == small_tag jl_quotenode_tag)

-- `jl_datatype_t`: its name, its layout and its bit field `smalltag`.
abbrev pub type_name : Heap → Address → Address
type_name h vt = h.load64 vt

abbrev pub type_layout : Heap → Address → Address
type_layout h vt = h.load64 (vt + 40)

abbrev pub smalltag : Heap → Address → ℕ
smalltag h vt = h.load16 (vt + 52) / 2 ^ 10 % 64

-- The check of a type that is not a small one; the code panics where it fails.
abbrev pub is_sound_type : Heap → Address → Bool
is_sound_type h vtag = (typetagof h vtag == small_tag jl_datatype_tag) && (smalltag h vtag == 0)

-- `jl_datatype_layout_t`
abbrev pub layout_size : Heap → Address → ℕ
layout_size h l = h.load32 l

abbrev pub nfields : Heap → Address → ℕ
nfields h l = h.load32 (l + 4)

abbrev pub npointers : Heap → Address → ℕ
npointers h l = h.load32 (l + 8)

abbrev pub first_ptr : Heap → Address → ℕ
first_ptr h l = h.load32 (l + 12)

abbrev pub layout_flags : Heap → Address → ℕ
layout_flags h l = h.load16 (l + 18)

abbrev pub fielddesc_type_custom : ℕ → ℕ
fielddesc_type_custom fielddesc_type_raw = bit_and (fielddesc_type_raw / 2) 3

abbrev pub fielddesc_size : ℕ → ℕ
fielddesc_size fielddesc_type = (2 * 2 ^ fielddesc_type) % 2 ^ 32

abbrev pub dt_layout_fields : Address → Address
dt_layout_fields l = add_word l 20

abbrev pub dt_layout_ptrs : Heap → Address → Address
dt_layout_ptrs h l =
    add_word (dt_layout_fields l)
      ((fielddesc_size (fielddesc_type_custom (layout_flags h l)) * nfields h l) % 2 ^ 32)

-- `jl_svec_t`
abbrev pub svec_len : Heap → Address → ℕ
svec_len h obj = h.load64 obj

abbrev pub svec_data : Address → Address
svec_data obj = add_word obj 8

-- `jl_module_t`: the list `usings` within it.
abbrev pub usings_len : Heap → Address → ℕ
usings_len h m = h.load64 (m + 64)

abbrev pub usings_items : Heap → Address → Address
usings_items h m = h.load64 (m + 80)

-- `jl_genericmemory_t`
abbrev pub memory_length : Heap → Address → ℕ
memory_length h m = h.load64 m

abbrev pub memory_ptr : Heap → Address → Address
memory_ptr h m = h.load64 (m + 8)

-- `jl_array_t`: the reference `ref_` within it.
abbrev pub ref_ptr_or_offset : Heap → Address → Address
ref_ptr_or_offset h a = h.load64 a

abbrev pub ref_mem : Heap → Address → Address
ref_mem h a = h.load64 (a + 8)

-- `jl_task_t`: the fields of its context `ctx`, and others of its own.
abbrev pub ctx_stkbuf : Heap → Address → Address
ctx_stkbuf h ta = h.load64 (ta + 200)

abbrev pub ctx_bitfield_1 : Heap → Address → ℕ
ctx_bitfield_1 h ta = h.load32 (ta + 216)

abbrev pub task_tid : Heap → Address → ℕ
task_tid h ta = h.load16 (ta + 144)

abbrev pub task_gcstack : Heap → Address → Address
task_gcstack h ta = h.load64 (ta + 152)

abbrev pub task_ptls : Heap → Address → Address
task_ptls h ta = h.load64 (ta + 168)

abbrev pub task_excstack : Heap → Address → Address
task_excstack h ta = h.load64 (ta + 176)
