-- ===== src/GcTrigger/Target.antt =====
-- The heap target that a collection leaves, and the smoothed rates.
use mmtk_julia.Base.{
  ℕ, ◌+◌, ◌/◌, ◌^◌, ◌≤◌, ◌<◌, ◌≡◌, inl, inr, Bool, true, false, arith, add_word, sub_word, mul_word,
  Bool-cases,
}
use mmtk_julia.GcTrigger.Floats.{Floats, FloatLaws}
use mmtk_julia.GcTrigger.Policy.{
  guard_rails, raise_if_thrashing, limit_to_user, rate_target, min_target_allocs, max_target_allocs,
  is_heap_full, is_gc_required, JuliaGcTrigger, Plan, default_collect_interval, estimate,
  mmtk_jl_gc_smooth, target_heap, store_target, retarget, on_gc_end, count_thrash, update_thrashing,
  smooth_rates,
}

min_target_allocs_lem :
    (heap_size : ℕ)
    → (heap_size / 20 ≤ min_target_allocs heap_size)
      × (default_collect_interval / 8 ≤ min_target_allocs heap_size)
      × (min_target_allocs heap_size ≤ heap_size / 20 + default_collect_interval / 8)
unfolding min_target_allocs
min_target_allocs_lem heap_size = ground arith

module _ (fl : Floats) (laws : FloatLaws fl) where
  open fl use {F, of_usize, to_usize}

  -- A smoothed rate whose estimate is a number lies between 1 and `2 << 36`.
  pub mmtk_jl_gc_smooth_bounds :
      (old_val new_val : ℕ) (factor : F)
      → laws.IsNumber (estimate fl old_val new_val factor)
      → (1 ≤ mmtk_jl_gc_smooth fl old_val new_val factor)
        × (mmtk_jl_gc_smooth fl old_val new_val factor ≤ 2 ^ 37)
  unfolding mmtk_jl_gc_smooth
  mmtk_jl_gc_smooth_bounds old_val new_val factor num =
      let est = estimate fl old_val new_val factor in
      let one = laws.IsNumber_of 1 in
      let top = laws.IsNumber_of (2 ^ 37) in
      ground (
        arith,
        laws.not_le est (of_usize 1) num one,
        laws.to_usize_mono (of_usize 1) est,
        laws.to_usize_of 1 (omega arith),
        laws.not_lt (of_usize (2 ^ 37)) est top num,
        laws.to_usize_mono est (of_usize (2 ^ 37)),
        laws.to_usize_of (2 ^ 37) (omega arith),
      )

  guard_rails-le :
      (x : F) (least most : ℕ)
      → laws.IsNumber x
      → (laws.IsNumber (guard_rails fl x least most))
        × (fl.le (of_usize least) (guard_rails fl x least most) ≡ true)
  unfolding guard_rails
  guard_rails-le x least most num = elim (Bool-cases (fl.lt (of_usize most) x)) [
    | inl over ↦ rw over (elim (Bool-cases (fl.lt (of_usize most) (of_usize least))) [
      | inl under ↦ rw under (laws.IsNumber_of least, laws.le_refl _ (laws.IsNumber_of least))
      | inr fine ↦ rw fine (
        laws.IsNumber_of most,
        laws.not_lt _ _ (laws.IsNumber_of most) (laws.IsNumber_of least) fine,
      )
    ])
    | inr within ↦ rw within (elim (Bool-cases (fl.lt x (of_usize least))) [
      | inl under ↦ rw under (laws.IsNumber_of least, laws.le_refl _ (laws.IsNumber_of least))
      | inr fine ↦ rw fine (num, laws.not_lt _ _ num (laws.IsNumber_of least) fine)
    ])
  ]

  -- The stored target is at least the sum that was guarded, and at least the default interval.
  store_target-le :
      (t : JuliaGcTrigger) (x : F) (least heap_size : ℕ)
      → laws.IsNumber x
      → fl.le (of_usize least) x ≡ true
      → least + heap_size < 2 ^ 53
      → (least + heap_size ≤ (store_target fl t (fl.add x (of_usize heap_size))).heap_target)
        × (default_collect_interval
            ≤ (store_target fl t (fl.add x (of_usize heap_size))).heap_target)
  unfolding store_target
  store_target-le t x least heap_size num low small =
      let target = fl.add x (of_usize heap_size) in
      let sum = laws.IsNumber_add x heap_size num in
      let interval = of_usize default_collect_interval in
      let mono =
        laws.add_mono (of_usize least) x (of_usize heap_size) (laws.IsNumber_of least) num
          (laws.IsNumber_of heap_size) low in
      ground (
        arith,
        laws.not_lt target interval sum (laws.IsNumber_of default_collect_interval),
        laws.le_of_lt target interval,
        laws.to_usize_mono interval target,
        laws.to_usize_mono target interval,
        laws.to_usize_mono (fl.add (of_usize least) (of_usize heap_size)) target mono,
        laws.add_of least heap_size small,
        laws.to_usize_of (least + heap_size) small,
        laws.to_usize_of default_collect_interval (omega arith),
      )

  module _ (pages_to_bytes : ℕ → ℕ) (t : JuliaGcTrigger) (plan : Plan) (now : ℕ) where
    abbrev pub heap_size_now : ℕ
    heap_size_now = pages_to_bytes (add_word plan.reserved_pages t.pending_pages)

    -- The state in which the collection's target is computed.
    abbrev pub updated : JuliaGcTrigger
    updated = update_thrashing (
        count_thrash (sub_word now t.gc_start_time) (
          smooth_rates fl (record t { gc_end_time = now; old_heap_size = heap_size_now })
            (sub_word t.before_free_heap_size t.old_heap_size)
            (sub_word t.before_free_heap_size heap_size_now) (sub_word now t.gc_start_time)))

    abbrev pub user_max : ℕ
    user_max = mul_word t.max_total_memory 80 / 100

    -- The allocations aimed at, before the guard rails.
    abbrev pub unguarded : F
    unguarded =
        raise_if_thrashing fl updated
          (limit_to_user fl (rate_target fl updated heap_size_now) heap_size_now user_max)
          (min_target_allocs heap_size_now)
          (max_target_allocs updated.before_free_heap_size heap_size_now user_max)

    heap_target-le :
        laws.IsNumber unguarded
        → heap_size_now < 2 ^ 52
        → (min_target_allocs heap_size_now + heap_size_now
            ≤ (on_gc_end fl pages_to_bytes t plan false now).0.heap_target)
          × (default_collect_interval
              ≤ (on_gc_end fl pages_to_bytes t plan false now).0.heap_target)
    unfolding on_gc_end retarget target_heap
    heap_target-le num small =
        let least = min_target_allocs heap_size_now in
        let most = max_target_allocs updated.before_free_heap_size heap_size_now user_max in
        let (guarded, low) = guard_rails-le unguarded least most num in
        store_target-le updated (guard_rails fl unguarded least most) least heap_size_now guarded
          low (omega (arith, min_target_allocs_lem heap_size_now))

    pending-on_gc_end :
        (user : Bool)
        → (on_gc_end fl pages_to_bytes t plan user now).0.pending_pages ≡ t.pending_pages
    unfolding on_gc_end retarget store_target count_thrash update_thrashing smooth_rates
    pending-on_gc_end user = ground arith

    -- If the allocations aimed at are a number and the heap is below `2 ^ 52` bytes: the target that an
    -- automatic collection leaves is at least the default interval, and exceeds the heap's size by at
    -- least a twentieth of it and an eighth of the interval. So the heap is not full at once: until
    -- pages are reserved, no further collection is due but at the plan's own wish.
    pub on_gc_end-not_full :
        laws.IsNumber unguarded
        → heap_size_now < 2 ^ 52
        → (default_collect_interval ≤ (on_gc_end fl pages_to_bytes t plan false now).0.heap_target)
          × (heap_size_now + heap_size_now / 20
              ≤ (on_gc_end fl pages_to_bytes t plan false now).0.heap_target)
          × (heap_size_now + default_collect_interval / 8
              ≤ (on_gc_end fl pages_to_bytes t plan false now).0.heap_target)
          × ((required : Bool)
              → is_gc_required pages_to_bytes
                  (on_gc_end fl pages_to_bytes t plan false now).0
                  plan
                  required
                ≡ required)
    unfolding is_gc_required is_heap_full
    on_gc_end-not_full num small =
        let (room, interval) = heap_target-le num small in
        let least = min_target_allocs_lem heap_size_now in
        (
          interval,
          omega arith,
          omega arith,
          λ required. rw (pending-on_gc_end false) (ground arith),
        )
