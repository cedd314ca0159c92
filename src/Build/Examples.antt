-- ===== src/Build/Examples.antt =====
-- The build script run twice, the files being whether the bindings are there and the log of what was
-- done; and version texts.
use Prim.Native.String.{String}
use text.Mathlib.Text.{◌==◌ as str_eq}
use mathlib.Core.Path.{subst}
use mathlib.Core.Option.{some-injective}
use mmtk_julia.Base.{
  ◌≡◌, refl, Bool, true, false, Option, none, some, List, [], ◌∷◌, ◌&&◌, ◌||◌, if◌then◌else◌,
}
use mmtk_julia.Build.Script.{
  Setting, Tools, done, panic, must_set_julia_path, expect,
  failed_to_acquire_build_time_information, Environment, main, types_path,
}
use mmtk_julia.Build.Version.{Raw, binding_version_string, get_mmtk_version}
use mmtk_julia.Build.Again.{KeepsFiles, IsOwnCheckout, main-again}

abbrev Log : Type 0
Log = Bool × List String

abbrev log_tools : Tools
log_tools = record {
  Files = Log;
  Bindings = List Setting;
  exists = λ files path.
      files.0 && (str_eq path "src/julia_types.rs" || str_eq path "../mmtk/src/julia_types.rs");
  output = λ files c. some (files.0, c.current_dir ∷ files.1);
  generate = λ files s. some s;
  write_to_file = λ files b path. some (true, path ∷ files.1);
  write_built_file = λ files. some (files.0, "built.rs" ∷ files.1);
}

log_tools-KeepsFiles : KeepsFiles log_tools
log_tools-KeepsFiles = record {
  written = λ files r b e.
      subst (λ (f : Log). log_tools.exists f "src/julia_types.rs" ≡ true) (some-injective _ _ e)
        refl;
  built_beside = λ files r path e h.
      subst (λ (f : Log). log_tools.exists f path ≡ true) (some-injective _ _ e) h;
}

abbrev julia_only : Environment
julia_only name = if str_eq name "JULIA_PATH" then some "julia" else none

abbrev no_variables : Environment
no_variables name = none

abbrev clean : Log
clean = (false, [])

-- Both calls of make, the bindings and the build information, the last first.
abbrev built : Log
built = (true, "built.rs" ∷ "src/julia_types.rs" ∷ "julia/deps" ∷ "julia/src" ∷ [])

main-built : main log_tools julia_only clean ≡ done built
unfolding main
main-built = refl

main-unset : main log_tools no_variables clean ≡ panic must_set_julia_path
unfolding main
main-unset = refl

log_tools-IsOwnCheckout : IsOwnCheckout log_tools log_tools-KeepsFiles julia_only
log_tools-IsOwnCheckout files h = h

-- The second run has no variable set.
main-again_example :
    (log_tools.exists built (types_path julia_only) ≡ true)
    × (main log_tools no_variables built
        ≡ expect (log_tools.write_built_file built) failed_to_acquire_build_time_information)
main-again_example =
    main-again log_tools log_tools-KeepsFiles julia_only no_variables clean built
      log_tools-IsOwnCheckout refl main-built

-- A clean tree, a dirty one, and a hash that is too short.
abbrev raw : Option String → Option Bool → Raw
raw hash dirty = record { pkg_version = "0.14.0"; git_commit_hash = hash; git_dirty = dirty }

clean_version :
    get_mmtk_version (raw (some "cfc755f0a1b2") (some false)) "mmtk-core 0.31"
    ≡ some "Built with MMTk Julia 0.14.0 (cfc755f), using mmtk-core 0.31\0"
clean_version = refl

dirty_version :
    binding_version_string (raw (some "cfc755f0a1b2") (some true))
    ≡ some "Built with MMTk Julia 0.14.0 (cfc755f-dirty)"
dirty_version = refl

short_hash : get_mmtk_version (raw (some "cfc") none) "mmtk-core" ≡ none
short_hash = refl
