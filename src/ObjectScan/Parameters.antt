-- ===== src/ObjectScan/Parameters.antt =====
-- mmtk/src/julia_scanning.rs: reading the elements of a simple vector and the parameters of a type,
-- and the words that follow an array for its dimensions; none of them is called by the scanner.
use mmtk_julia.Base.{
  ℕ, ◌+◌, ◌-◌, ◌*◌, ◌^◌, ◌<◌, ◌≡◌, ◌↔◌, arith, Address, add_word, shift_words, ltb, if◌then◌else◌,
}
use mmtk_julia.ObjectScan.Layout.{Heap, svec_data}

unfoldable pub mmtk_jl_array_ndimwords : ℕ → ℕ
mmtk_jl_array_ndimwords ndims = if ltb ndims 3 then 0 else ndims - 2

-- `i` is added to the address of the elements as it is.
abbrev pub svecref_address : (vt i : ℕ) → Address
svecref_address vt i = add_word (svec_data vt) i

unfoldable pub mmtk_jl_svecref : Heap → (vt i : ℕ) → ℕ
mmtk_jl_svecref h vt i = h.load64 (svecref_address vt i)

unfoldable pub mmtk_jl_tparam0 : Heap → Address → ℕ
unfolding mmtk_jl_svecref
mmtk_jl_tparam0 h vt = mmtk_jl_svecref h (h.load64 (vt + 16)) 0

-- The address is that of element `i` for the first element only.
svecref_address-element :
    (vt i : ℕ)
    → vt + 8 + i * 8 < 2 ^ 64
    → (svecref_address vt i ≡ shift_words (svec_data vt) i) ↔ (i ≡ 0)
svecref_address-element vt i high = (λ e. omega arith, λ e. omega arith)
