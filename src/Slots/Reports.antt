-- ===== src/Slots/Reports.antt =====
-- What C's calls of a `RootsWorkClosure` (mmtk/src/slots.rs) hand to the factory, and the buffers that
-- they get back, as in `scan_vm_specific_roots` of mmtk/src/scanning.rs.
use mmtk_julia.Base.{
  ℕ, ◌≡◌, refl, sym, ap₂, ◌∙◌, Bool, true, false, List, [], ◌∷◌, ◌++◌, map, append-nil,
  append_assoc, Address, ◌==◌, if◌then◌else◌,
}
use mmtk_julia.Slots.Slot.{simple}
use mmtk_julia.Slots.Roots.{
  root_work_packet_size, RootsWorkBuffer, empty, Factory, create_process_roots_work,
  create_process_pinning_roots_work, create_process_tpinning_roots_work, new, renewed,
  report_simple_slots, report_nodes, report_tpinned_nodes, RootsWorkClosure,
  from_roots_work_factory,
}

pub data RootKind : Type 0 where
  slots : RootKind
  nodes : RootKind
  tpinned_nodes : RootKind

-- One call of C: a buffer of roots, null or with its first `size` entries filled, and whether C wants
-- another.
pub record Report : Type 0 where
  pub kind : RootKind
  pub buf : Address
  pub size : ℕ
  pub renew : Bool

module _ (allocate : ℕ → RootsWorkBuffer) (read : Address → ℕ → List Address) where
  abbrev pub call :
      RootsWorkClosure allocate read
      → RootKind
      → Address
      → ℕ
      → Factory
      → Bool
      → Factory × RootsWorkBuffer
  call c slots = c.report_slots_func
  call c nodes = c.report_nodes_func
  call c tpinned_nodes = c.report_tpinned_nodes_func

  -- C's calls one after the other: the factory in the end, and the buffers that C was given.
  unfoldable pub scan_vm_specific_roots : List Report → Factory → Factory × List RootsWorkBuffer
  scan_vm_specific_roots [] f = (f, [])
  scan_vm_specific_roots (r ∷ rs) f =
      let answer = call (from_roots_work_factory allocate read) r.kind r.buf r.size f r.renew in
      let rest = scan_vm_specific_roots rs answer.0 in (rest.0, answer.1 ∷ rest.1)

  unfoldable pub same_kind : RootKind → RootKind → Bool
  same_kind slots slots = true
  same_kind nodes nodes = true
  same_kind tpinned_nodes tpinned_nodes = true
  same_kind _ _ = false

  -- The buffers of one kind that are not null, with what stands in them.
  unfoldable pub reported : RootKind → List Report → List (List Address)
  unfolding same_kind
  reported want [] = []
  reported want (r ∷ rs) =
      let rest = reported want rs in
      if same_kind want r.kind
      then (if r.buf == 0 then rest else read r.buf r.size ∷ rest)
      else rest

  abbrev added : RootKind → List Address → Factory → Factory
  added slots xs f = create_process_roots_work (map simple xs) f
  added nodes xs f = create_process_pinning_roots_work xs f
  added tpinned_nodes xs f = create_process_tpinning_roots_work xs f

  answer_of :
      (k : RootKind) (buf : Address) (size : ℕ) (f : Factory) (renew : Bool)
      → call (from_roots_work_factory allocate read) k buf size f renew
        ≡ (if buf == 0 then f else added k (read buf size) f, renewed allocate read renew)
  unfolding report_simple_slots report_nodes report_tpinned_nodes
  answer_of slots buf size f renew = refl
  answer_of nodes buf size f renew = refl
  answer_of tpinned_nodes buf size f renew = refl

  renewed_buffer :
      (renew : Bool)
      → renewed allocate read renew ≡ (if renew then allocate root_work_packet_size else empty)
  unfolding renewed new
  renewed_buffer renew = refl

  slot_step :
      (k : RootKind) (b : Bool) (xs : List Address) (f : Factory) (ys : List (List Address))
      → (if b then f else added k xs f).slot_roots ++ map (map simple) ys
        ≡ f.slot_roots
          ++ map (map simple) (if same_kind slots k then (if b then ys else xs ∷ ys) else ys)
  unfolding same_kind
  slot_step slots true xs f ys = refl
  slot_step slots false xs f ys = append_assoc f.slot_roots _ _
  slot_step nodes true xs f ys = refl
  slot_step nodes false xs f ys = refl
  slot_step tpinned_nodes true xs f ys = refl
  slot_step tpinned_nodes false xs f ys = refl

  pinning_step :
      (k : RootKind) (b : Bool) (xs : List Address) (f : Factory) (ys : List (List Address))
      → (if b then f else added k xs f).pinning_roots ++ ys
        ≡ f.pinning_roots ++ (if same_kind nodes k then (if b then ys else xs ∷ ys) else ys)
  unfolding same_kind
  pinning_step slots true xs f ys = refl
  pinning_step slots false xs f ys = refl
  pinning_step nodes true xs f ys = refl
  pinning_step nodes false xs f ys = append_assoc f.pinning_roots _ _
  pinning_step tpinned_nodes true xs f ys = refl
  pinning_step tpinned_nodes false xs f ys = refl

  tpinning_step :
      (k : RootKind) (b : Bool) (xs : List Address) (f : Factory) (ys : List (List Address))
      → (if b then f else added k xs f).tpinning_roots ++ ys
        ≡ f.tpinning_roots
          ++ (if same_kind tpinned_nodes k then (if b then ys else xs ∷ ys) else ys)
  unfolding same_kind
  tpinning_step slots true xs f ys = refl
  tpinning_step slots false xs f ys = refl
  tpinning_step nodes true xs f ys = refl
  tpinning_step nodes false xs f ys = refl
  tpinning_step tpinned_nodes true xs f ys = refl
  tpinning_step tpinned_nodes false xs f ys = append_assoc f.tpinning_roots _ _

  -- The factory has got exactly the buffers reported, by kind and in their order; C has got a fresh
  -- buffer where it asked for one, and else the null buffer.
  pub record Delivered (rs : List Report) (f : Factory) (out : Factory × List RootsWorkBuffer)
      : Type 0 where
    pub slot_roots : out.0.slot_roots ≡ f.slot_roots ++ map (map simple) (reported slots rs)
    pub pinning_roots : out.0.pinning_roots ≡ f.pinning_roots ++ reported nodes rs
    pub tpinning_roots : out.0.tpinning_roots ≡ f.tpinning_roots ++ reported tpinned_nodes rs
    pub buffers : out.1 ≡ map (λ r. if r.renew then allocate root_work_packet_size else empty) rs

  -- Whatever buffers of roots C reports, in whatever order: see `Delivered`.
  pub scan_vm_specific_roots-Delivered :
      (rs : List Report) (f : Factory) → Delivered rs f (scan_vm_specific_roots rs f)
  unfolding scan_vm_specific_roots reported
  scan_vm_specific_roots-Delivered [] f = record {
    slot_roots = sym (append-nil f.slot_roots);
    pinning_roots = sym (append-nil f.pinning_roots);
    tpinning_roots = sym (append-nil f.tpinning_roots);
    buffers = refl;
  }
  scan_vm_specific_roots-Delivered (r ∷ rs) f =
      let null = r.buf == 0 in
      let xs = read r.buf r.size in
      let f' : Factory = if null then f else added r.kind xs f in
      let rest = scan_vm_specific_roots-Delivered rs f' in
      rw (answer_of r.kind r.buf r.size f r.renew) (record {
        slot_roots = rest.slot_roots ∙ slot_step r.kind null xs f (reported slots rs);
        pinning_roots = rest.pinning_roots ∙ pinning_step r.kind null xs f (reported nodes rs);
        tpinning_roots =
            rest.tpinning_roots ∙ tpinning_step r.kind null xs f (reported tpinned_nodes rs);
        buffers = ap₂ ◌∷◌ (renewed_buffer r.renew) rest.buffers;
      })
