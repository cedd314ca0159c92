-- ===== src/GcTrigger/Policy.antt =====
-- mmtk/src/gc_trigger.rs: `JuliaGcTrigger` and the methods of its `GCTriggerPolicy`.
use mmtk_julia.Base.{
  ℕ, ◌-◌, ◌*◌, ◌/◌, ◌^◌, Bool, true, false, not, ◌&&◌, ◌||◌, Option, none, some, add_word, sub_word,
  mul_word, ltb, leb, ◌==◌, if◌then◌else◌, is_some,
}
use mmtk_julia.GcTrigger.Overallocation.{mmtk_overallocation}
use mmtk_julia.GcTrigger.Floats.{Floats}

-- 5600 * 1024 * size_of::<usize>()
abbrev pub default_collect_interval : ℕ
default_collect_interval = 5600 * 1024 * 8

pub record JuliaGcTrigger : Type 0 where
  pub heap_target : ℕ
  pub max_total_memory : ℕ
  pub old_pause_time : ℕ
  pub old_mut_time : ℕ
  pub old_heap_size : ℕ
  pub old_alloc_diff : ℕ
  pub old_freed_diff : ℕ
  pub gc_start_time : ℕ
  pub gc_end_time : ℕ
  pub mutator_time : ℕ
  pub thrash_counter : ℕ
  pub thrashing : ℕ
  pub before_free_heap_size : ℕ
  pub prev_sweep_full : Bool
  pub pending_pages : ℕ

abbrev pub new : ℕ → JuliaGcTrigger
new max_total_mem = record {
  heap_target = default_collect_interval;
  max_total_memory = max_total_mem;
  old_pause_time = 10_000_000;
  old_mut_time = 1_000_000_000;
  old_heap_size = 0;
  old_alloc_diff = default_collect_interval;
  old_freed_diff = default_collect_interval;
  gc_start_time = 0;
  gc_end_time = 0;
  mutator_time = 0;
  thrash_counter = 0;
  thrashing = 0;
  before_free_heap_size = 0;
  prev_sweep_full = true;
  pending_pages = 0;
}

-- What the policy asks of mmtk-core: the reserved pages, and, of a generational plan, whether its last
-- collection was of the full heap.
pub record Plan : Type 0 where
  pub reserved_pages : ℕ
  pub generational : Option Bool

-- `pages_to_bytes` is mmtk-core's.
module _ (pages_to_bytes : ℕ → ℕ) where
  -- `now` is what `jl_hrtime` returns.
  unfoldable pub on_gc_start : JuliaGcTrigger → Plan → (now : ℕ) → JuliaGcTrigger
  on_gc_start t plan now = record t {
    gc_start_time = now;
    mutator_time = if t.gc_end_time == 0 then t.old_mut_time else sub_word now t.gc_end_time;
    before_free_heap_size = pages_to_bytes (add_word plan.reserved_pages t.pending_pages);
    prev_sweep_full = elim plan.generational [ none ↦ false | some full ↦ full ];
  }

  unfoldable pub is_heap_full : JuliaGcTrigger → Plan → Bool
  is_heap_full t plan =
      leb t.heap_target (pages_to_bytes (add_word plan.reserved_pages t.pending_pages))

  -- `collection_required` is the plan's own answer.
  unfoldable pub is_gc_required : JuliaGcTrigger → Plan → (collection_required : Bool) → Bool
  is_gc_required t plan collection_required =
      if is_heap_full t plan then true else collection_required

unfoldable pub on_pending_allocation : JuliaGcTrigger → ℕ → JuliaGcTrigger
on_pending_allocation t pages = record t { pending_pages = add_word t.pending_pages pages }

unfoldable pub get_current_heap_size_in_pages : (bytes_in_page : ℕ) → JuliaGcTrigger → ℕ
get_current_heap_size_in_pages bytes_in_page t = t.heap_target / bytes_in_page

unfoldable pub get_max_heap_size_in_pages : (bytes_in_page : ℕ) → JuliaGcTrigger → ℕ
get_max_heap_size_in_pages bytes_in_page t = t.max_total_memory / bytes_in_page

abbrev pub can_heap_size_grow : JuliaGcTrigger → Bool
can_heap_size_grow t = true

-- The thrashing estimator counts up while a pause is longer than the mutator ran, else down.
unfoldable pub count_thrash : (pause : ℕ) → JuliaGcTrigger → JuliaGcTrigger
count_thrash pause t =
    if ltb t.mutator_time pause && leb 4 t.thrash_counter
    then record t { thrash_counter = add_word t.thrash_counter 1 }
    else if ltb 0 t.thrash_counter
    then record t { thrash_counter = t.thrash_counter - 1 }
    else t

unfoldable pub update_thrashing : JuliaGcTrigger → JuliaGcTrigger
update_thrashing t =
    if t.thrashing == 0 && leb 3 t.thrash_counter
    then record t { thrashing = 1; thrash_counter = 6 }
    else if t.thrashing == 1 && leb t.thrash_counter 2
    then record t { thrashing = 0 }
    else t

unfoldable pub min_target_allocs : (heap_size : ℕ) → ℕ
min_target_allocs heap_size =
    let m = heap_size / 20 in
    if ltb m (default_collect_interval / 8) then default_collect_interval / 8 else m

unfoldable pub max_target_allocs : (before_free heap_size user_max : ℕ) → ℕ
max_target_allocs before_free heap_size user_max =
    let m = mmtk_overallocation before_free heap_size user_max in
    let least = min_target_allocs heap_size in if ltb m least then least else m

unfoldable pub sweep_full : JuliaGcTrigger → (gc_auto : Bool) → (heap_size user_max : ℕ) → Bool
sweep_full t gc_auto heap_size user_max =
    ltb user_max heap_size || (not gc_auto && not t.prev_sweep_full)

module _ (fl : Floats) where
  open fl use {F, of_usize, to_usize, decimal, add, sub, mul, div, sqrt, le, lt}

  -- The smoothed estimate before its limits.
  abbrev pub estimate : (old_val new_val : ℕ) → F → F
  estimate old_val new_val factor =
      add (mul factor (of_usize old_val)) (mul (sub (of_usize 1) factor) (of_usize new_val))

  unfoldable pub mmtk_jl_gc_smooth : (old_val new_val : ℕ) → F → ℕ
  mmtk_jl_gc_smooth old_val new_val factor =
      let est = estimate old_val new_val factor in
      if le est (of_usize 1) then 1 else if lt (of_usize (2 ^ 37)) est then 2 ^ 37 else to_usize est

  abbrev pub alloc_smooth_factor : F
  alloc_smooth_factor = decimal 95 2

  abbrev pub collect_smooth_factor : F
  collect_smooth_factor = decimal 5 1

  unfoldable pub smooth_rates : JuliaGcTrigger → (alloc_diff freed_diff pause : ℕ) → JuliaGcTrigger
  smooth_rates t alloc_diff freed_diff pause = record t {
    old_alloc_diff = mmtk_jl_gc_smooth t.old_alloc_diff alloc_diff alloc_smooth_factor;
    old_mut_time = mmtk_jl_gc_smooth t.old_mut_time t.mutator_time alloc_smooth_factor;
    old_freed_diff = mmtk_jl_gc_smooth t.old_freed_diff freed_diff collect_smooth_factor;
    old_pause_time = mmtk_jl_gc_smooth t.old_pause_time pause collect_smooth_factor;
  }

  -- The target by the rates of allocation and collection, in the state with the rates smoothed.
  unfoldable pub rate_target : JuliaGcTrigger → (heap_size : ℕ) → F
  rate_target t heap_size =
      if not (t.old_alloc_diff == 0)
        && not (t.old_mut_time == 0)
        && not (t.old_freed_diff == 0)
        && not (t.old_pause_time == 0)
      then (let alloc_rate = div (of_usize t.old_alloc_diff) (of_usize t.old_mut_time) in
          let gc_rate = div (of_usize t.old_freed_diff) (of_usize t.old_pause_time) in
          mul (sqrt (div (mul (of_usize heap_size) alloc_rate) gc_rate)) (of_usize 20_000))
      else of_usize 0

  unfoldable pub limit_to_user : F → (heap_size user_max : ℕ) → F
  limit_to_user target heap_size user_max =
      if lt (of_usize user_max) (add target (of_usize heap_size))
      then if ltb heap_size user_max
        then sub (of_usize user_max) (of_usize heap_size)
        else of_usize 1
      else target

  unfoldable pub raise_if_thrashing : JuliaGcTrigger → F → (least most : ℕ) → F
  raise_if_thrashing t target least most =
      if t.thrashing == 0
      then target
      else (let thrashing_allocs = sqrt (mul (of_usize least) (of_usize most)) in
          if lt target thrashing_allocs then thrashing_allocs else target)

  unfoldable pub guard_rails : F → (least most : ℕ) → F
  guard_rails target least most =
      let capped = if lt (of_usize most) target then of_usize most else target in
      if lt capped (of_usize least) then of_usize least else capped

  -- `target_heap` before its last test, in the state with the rates and the thrashing flag updated.
  unfoldable pub target_heap : JuliaGcTrigger → (heap_size user_max : ℕ) → F
  target_heap t heap_size user_max =
      let least = min_target_allocs heap_size in
      let most = max_target_allocs t.before_free_heap_size heap_size user_max in
      let target = limit_to_user (rate_target t heap_size) heap_size user_max in
      add (guard_rails (raise_if_thrashing t target least most) least most) (of_usize heap_size)

  unfoldable pub store_target : JuliaGcTrigger → F → JuliaGcTrigger
  store_target t target = record t {
    heap_target = to_usize (
        if lt target (of_usize default_collect_interval)
        then of_usize default_collect_interval
        else target);
  }

  -- The branch for a collection that the user did not ask for.
  unfoldable pub retarget :
      JuliaGcTrigger → (alloc_diff freed_diff pause heap_size user_max : ℕ) → JuliaGcTrigger
  retarget t alloc_diff freed_diff pause heap_size user_max =
      let t' = update_thrashing (count_thrash pause (smooth_rates t alloc_diff freed_diff pause)) in
      store_target t' (target_heap t' heap_size user_max)

  -- The new state, and whether the next collection is forced to be of the full heap.
  unfoldable pub on_gc_end :
      (pages_to_bytes : ℕ → ℕ)
      → JuliaGcTrigger
      → Plan
      → (is_user_triggered : Bool) → (now : ℕ) → JuliaGcTrigger × Bool
  on_gc_end pages_to_bytes t plan is_user_triggered now =
      let pause = sub_word now t.gc_start_time in
      let heap_size = pages_to_bytes (add_word plan.reserved_pages t.pending_pages) in
      let user_max = mul_word t.max_total_memory 80 / 100 in
      let alloc_diff = sub_word t.before_free_heap_size t.old_heap_size in
      let freed_diff = sub_word t.before_free_heap_size heap_size in
      let t1 = record t { gc_end_time = now; old_heap_size = heap_size } in
      let gc_auto = not is_user_triggered in
      let t2 = if gc_auto then retarget t1 alloc_diff freed_diff pause heap_size user_max else t1 in
      (t2, sweep_full t2 gc_auto heap_size user_max && is_some plan.generational)
