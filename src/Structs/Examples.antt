-- ===== src/Structs/Examples.antt =====
-- The theorem on the declared structures at a concrete one.
use mmtk_julia.Base.{◌≡◌, refl, [], ◌∷◌}
use mmtk_julia.Structs.Layout.{size_of, align_of}
use mmtk_julia.Structs.Asserted.{OffsetsAgree}
use mmtk_julia.Structs.Agreement.{declarations-Agrees}
use mmtk_julia.Structs.Lists.{arraylist_t, arraylist_t_asserted}

declarations-Agrees_example :
    (size_of arraylist_t ≡ 256)
    × (align_of arraylist_t ≡ 8)
    × OffsetsAgree arraylist_t (("len", 0) ∷ ("max", 8) ∷ ("items", 16) ∷ ("_space", 24) ∷ [])
declarations-Agrees_example = declarations-Agrees 1 (arraylist_t, arraylist_t_asserted) refl
