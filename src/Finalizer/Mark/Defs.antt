-- ===== src/Finalizer/Mark/Defs.antt =====
-- mmtk/src/julia_finalizer.rs: `mark_finlist`, its loop given a round for each entry.
use mmtk_julia.Base.{
  ℕ, zero, suc, ◌+◌, Option, none, some, Address, ltb, leb, ◌==◌, if◌then◌else◌, bit_or,
}
use mmtk_julia.Finalizer.ArrayList.{ArrayListT, get, set, gc_ptr_clear_tag, gc_ptr_tag}

-- The list, the loop's index and the tracer that the collector passes in.
pub record MarkState (T : Type 0) : Type 0 where
  pub list : ArrayListT
  pub i : ℕ
  pub tracer : T

-- `trace_object` is mmtk-core's: it changes the tracer and returns where the object is now.
module _ {T : Type 0} (trace_object : T → Address → T × Address) where
  -- A round from the test of tag 2 on; `i` is at the entry `cur_i` or, behind tag 1, at the next.
  unfoldable pub mark_entry : MarkState T → (cur cur_i cur_tag new_obj_addr : ℕ) → MarkState T
  mark_entry s cur cur_i cur_tag new_obj_addr =
      if gc_ptr_tag cur 2
      then record s { i = s.i + 1 }
      else (let traced = trace_object s.tracer new_obj_addr in
          record {
            list = set s.list cur_i (bit_or (traced.1) cur_tag);
            i = s.i + 1;
            tracer = traced.0;
          })

  unfoldable pub mark_round : MarkState T → MarkState T
  mark_round s =
      let cur = get s.list s.i in
      if cur == 0
      then record s { i = s.i + 1 }
      else if gc_ptr_tag cur 1
      then mark_entry (record s { i = s.i + 1 }) cur s.i 1 (gc_ptr_clear_tag cur 1)
      else mark_entry s cur s.i 0 cur

  -- `none`: out of fuel.
  unfoldable pub mark_loop : ℕ → MarkState T → Option (MarkState T)
  mark_loop zero s = none
  mark_loop (suc fuel) s =
      let rest = mark_loop fuel (mark_round s) in if ltb s.i s.list.len then rest else some s

  unfoldable pub mark_finlist : ArrayListT → ℕ → T → Option (MarkState T)
  mark_finlist list start tracer =
      let s : MarkState T = record { list = list; i = start; tracer = tracer } in
      if leb list.len start then some s else mark_loop (list.len + 1) s
