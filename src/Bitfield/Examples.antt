-- ===== src/Bitfield/Examples.antt =====
-- The theorems on bit fields at concrete units and memories.
use mmtk_julia.Base.{
  ℕ, ◌+◌, ◌*◌, ◌/◌, ◌%◌, ◌^◌, ◌<◌, ◌≤◌, ◌≡◌, ◌⊎◌, some, [], ◌∷◌, arith, length, Address, Bytes,
  ◌==◌, if◌then◌else◌,
}
use mmtk_julia.ObjectScan.Layout.{typetagof, smalltag, layout_flags, fielddesc_type_custom}
use mmtk_julia.ObjectScan.Stack.{copy_stack}
use mmtk_julia.ObjectModel.Copying.{heap_of}
use mmtk_julia.Bitfield.Storage.{BindgenBitfieldUnit, get, set, raw_get, raw_set}
use mmtk_julia.Bitfield.Word.{get-word}
use mmtk_julia.Bitfield.RoundTrip.{get-set}
use mmtk_julia.Bitfield.Raw.{bytes_at, raw-bytes_at}
use mmtk_julia.Bitfield.Packing.{Builds}
use mmtk_julia.Bitfield.Structures.{new_bitfield_1-Builds}
use mmtk_julia.Bitfield.Custom.{fields-accessors}
use mmtk_julia.Bitfield.Fields.Context
use mmtk_julia.Bitfield.Fields.TaggedValue
use mmtk_julia.Bitfield.Fields.Layout
use mmtk_julia.Bitfield.Fields.DataType

-- The two bytes of a type's flags: concrete, and with the small tag 37.
abbrev type_flags : BindgenBitfieldUnit
type_flags = 0b00000010 ∷ 0b10010100 ∷ []

get-word_example : get type_flags 10 6 ≡ some 37
get-word_example =
    get-word type_flags 10 6 (omega arith, (omega arith, tt)) (omega arith) (omega arith)

get-set_example :
    (s' : BindgenBitfieldUnit) × (set type_flags 4 6 0x41 ≡ some s')
    × (length s' ≡ 2)
    × (get s' 4 6 ≡ some 1)
    × ((off' w' : ℕ)
        → w' ≤ 64
        → off' + w' ≤ 16
        → (off' + w' ≤ 4) ⊎ (10 ≤ off')
        → get s' off' w' ≡ get type_flags off' w')
get-set_example = get-set type_flags 4 6 0x41 (omega arith) (omega arith)

-- A memory whose bytes follow their addresses.
abbrev counting_memory : Bytes
counting_memory a = a % 256

raw-bytes_at_example :
    (get (100 ∷ 101 ∷ []) 3 9 ≡ some (raw_get counting_memory 100 3 9))
    × (set (100 ∷ 101 ∷ []) 3 9 500 ≡ some (bytes_at (raw_set counting_memory 100 3 9 500) 100 2))
    × ((a : Address) → (a < 100) ⊎ (102 ≤ a) → raw_set counting_memory 100 3 9 500 a ≡ a % 256)
raw-bytes_at_example = raw-bytes_at counting_memory 100 2 3 9 500 (omega arith) (omega arith)

-- A concrete immutable type with the small tag 37; the value for its third field is too wide.
abbrev type_values : ℕ → ℕ
type_values n =
    if n == 1 then 1 else if n == 2 then 6 else if n == 8 then 1 else if n == 10 then 37 else 0

new_bitfield_1-Builds_example : Builds (DataType.new_bitfield_1 0 1 6 0 0 0 0 0 1 0 37) (
    (DataType.hasfreetypevars, 0)
    ∷ (DataType.isconcretetype, 1)
    ∷ (DataType.isdispatchtuple, 0)
    ∷ (DataType.isbitstype, 0)
    ∷ (DataType.zeroinit, 0)
    ∷ (DataType.has_concrete_subtype, 0)
    ∷ (DataType.maybe_subtype_of_cache, 0)
    ∷ (DataType.isprimitivetype, 0)
    ∷ (DataType.ismutationfree, 1)
    ∷ (DataType.isidentityfree, 0)
    ∷ (DataType.smalltag, 37)
    ∷ [])
new_bitfield_1-Builds_example = (new_bitfield_1-Builds type_values).4

fields-accessors_example :
    (smalltag (heap_of counting_memory) 8 ≡ DataType.smalltag.getter_raw counting_memory 60)
    × (fielddesc_type_custom (layout_flags (heap_of counting_memory) 80)
        ≡ Layout.fielddesc_type.getter_raw counting_memory 98)
    × (layout_flags (heap_of counting_memory) 80 / 2 ^ 3 % 2
        ≡ Layout.arrayelem_isboxed.getter_raw counting_memory 98)
    × (layout_flags (heap_of counting_memory) 80 / 2 ^ 4 % 2
        ≡ Layout.arrayelem_isunion.getter_raw counting_memory 98)
    × (copy_stack ((heap_of counting_memory).load32 316)
        ≡ Context.copy_stack.getter_raw counting_memory 316)
    × (typetagof (heap_of counting_memory) 600
        ≡ TaggedValue.tag.getter_raw counting_memory 592 * 2 ^ 4)
fields-accessors_example =
    fields-accessors counting_memory (λ a. omega arith) 8 80 100 600 (omega arith) (omega arith)
      (omega arith) (omega arith) (omega arith)
