-- ===== src/Api/Request.antt =====
-- mmtk/src/api.rs: `mmtk_handle_user_collection_request`; mmtk/src/util.rs: `RootLabel`,
-- `mmtk_julia_copy_stack_check` and `mmtk_get_possibly_forwarded`; mmtk/src/collection.rs: the
-- smaller calls of `VMCollection`.
use mmtk_julia.Base.{
  ℕ, ◌≡◌, refl, Bool, false, not, Option, none, some, Address, add_word, sub_word, ◌==◌, min,
  if◌then◌else◌,
}

-- What mmtk-core is asked for.
pub data UserRequest : Type 0 where
  auto : UserRequest
  full : UserRequest  -- forced and exhaustive
  incremental : UserRequest  -- forced, not exhaustive

-- `jl_gc_collection_t`; another value is unreachable.
abbrev pub request_of : ℕ → Option UserRequest
request_of collection =
    if collection == 0
    then some auto
    else if collection == 1
    then some full
    else if collection == 2
    then some incremental
    else none

pub record Requested : Type 0 where
  pub user_triggered_gc : ℕ
  pub request : Option UserRequest

-- `USER_TRIGGERED_GC` is an `isize` that wraps around. A disabled request takes its count back.
unfoldable pub mmtk_handle_user_collection_request :
    (user_triggered_gc : ℕ) (disabled_gc : Bool) (collection : ℕ) → Requested
mmtk_handle_user_collection_request user_triggered_gc disabled_gc collection =
    let raised = add_word user_triggered_gc 1 in
    if disabled_gc
    then record { user_triggered_gc = sub_word raised 1; request = none }
    else record { user_triggered_gc = raised; request = request_of collection }

pub data RootLabel : Type 0 where
  mark_and_scan : RootLabel
  scan_only : RootLabel
  fin_list : RootLabel
  obj_array : RootLabel
  array8 : RootLabel
  obj8 : RootLabel
  obj16 : RootLabel
  obj32 : RootLabel
  stack : RootLabel
  exc_stack : RootLabel
  module_binding : RootLabel

-- The discriminants of the enumeration.
abbrev pub discriminant : RootLabel → ℕ
discriminant mark_and_scan = 0
discriminant scan_only = 1
discriminant fin_list = 2
discriminant obj_array = 3
discriminant array8 = 4
discriminant obj8 = 5
discriminant obj16 = 6
discriminant obj32 = 7
discriminant stack = 8
discriminant exc_stack = 9
discriminant module_binding = 10

unfoldable pub from_u32 : ℕ → Option RootLabel
from_u32 value =
    if value == 0
    then some mark_and_scan
    else if value == 1
    then some scan_only
    else if value == 2
    then some fin_list
    else if value == 3
    then some obj_array
    else if value == 4
    then some array8
    else if value == 5
    then some obj8
    else if value == 6
    then some obj16
    else if value == 7
    then some obj32
    else if value == 8
    then some stack
    else if value == 9
    then some exc_stack
    else if value == 10
    then some module_binding
    else none

-- Every label is recovered from its discriminant.
pub from_u32-discriminant : (l : RootLabel) → from_u32 (discriminant l) ≡ some l
unfolding from_u32
from_u32-discriminant mark_and_scan = refl
from_u32-discriminant scan_only = refl
from_u32-discriminant fin_list = refl
from_u32-discriminant obj_array = refl
from_u32-discriminant array8 = refl
from_u32-discriminant obj8 = refl
from_u32-discriminant obj16 = refl
from_u32-discriminant obj32 = refl
from_u32-discriminant stack = refl
from_u32-discriminant exc_stack = refl
from_u32-discriminant module_binding = refl

-- Whether the start goes on: the flag of the C build agrees with the feature `julia_copy_stack`.
abbrev pub mmtk_julia_copy_stack_check : (feature c_flag_is_defined : Bool) → Bool
mmtk_julia_copy_stack_check feature c_flag_is_defined =
    if c_flag_is_defined then feature else not feature

-- `forwarded` is `get_forwarded_object` of mmtk-core.
abbrev pub or_else : Option Address → Address → Address
or_else none object = object
or_else (some forwarded) object = forwarded

abbrev pub mmtk_get_possibly_forwarded : (Address → Option Address) → Address → Address
mmtk_get_possibly_forwarded forwarded object = or_else (forwarded object) object

abbrev pub is_collection_enabled : (jl_get_gc_disable_counter : ℕ) → Bool
is_collection_enabled jl_get_gc_disable_counter = jl_get_gc_disable_counter == 0

-- The heap size that `create_gc_trigger` gives to the trigger.
abbrev pub trigger_heap_size : (jl_gc_get_max_memory system_total_memory : ℕ) → ℕ
trigger_heap_size max_memory total_memory = min max_memory total_memory

-- `is_nursery` is the answer of the plan where it is generational.
abbrev pub is_current_gc_nursery : (generational : Option Bool) → Bool
is_current_gc_nursery none = false
is_current_gc_nursery (some is_nursery) = is_nursery
