-- ===== src/Build/Script.antt =====
-- mmtk/build.rs: `main`, over the environment variables and what the tools do to the files.
use Prim.Native.String.{String, ◌++◌ as ◌<>◌}
use mmtk_julia.Base.{Bool, Option, none, some, List, [], ◌∷◌, if◌then◌else◌}

-- `std::process::Command`
pub record Command : Type 0 where
  pub program : String
  pub current_dir : String
  pub envs : List (String × String)
  pub args : List String

-- A call on `bindgen::Builder`.
pub data Setting : Type 0 where
  header : String → Setting
  clang_arg : String → Setting
  allowlist_item : String → Setting
  opaque_type : String → Setting

-- What the script uses: `Path::exists`; `Command::output`, which fails only where the program does not
-- start and does not report how it ended; `Builder::generate`; `write_to_file`; `write_built_file`.
-- The files are a value of `Files`; `none` is a failure.
pub record Tools : Type 1 where
  pub Files : Type 0
  pub Bindings : Type 0
  pub exists : Files → String → Bool
  pub output : Files → Command → Option Files
  pub generate : Files → List Setting → Option Bindings
  pub write_to_file : Files → Bindings → String → Option Files
  pub write_built_file : Files → Option Files

-- The panics of the script.
pub data Message : Type 0 where
  must_set_julia_path : Message
  failed_to_execute_process : Message
  unable_to_generate_bindings : Message
  could_not_write_bindings : Message
  failed_to_acquire_build_time_information : Message

pub data Outcome (Files : Type 0) : Type 0 where
  done : Files → Outcome Files
  panic : Message → Outcome Files

infixl 5 ◌>>=◌
abbrev pub ◌>>=◌ : {A B : Type 0} → Outcome A → (A → Outcome B) → Outcome B
done a >>= f = f a
panic message >>= f = panic message

abbrev pub expect : {A : Type 0} → Option A → Message → Outcome A
expect none message = panic message
expect (some a) message = done a

-- `std::env::var`: `none` where the variable is not set, or is no text.
abbrev pub Environment : Type 0
Environment = String → Option String

abbrev pub or_default : Option String → String → String
or_default none d = d
or_default (some v) d = v

abbrev pub mmtk_dir : Environment → String
mmtk_dir env = or_default (env "MMTK_JULIA_DIR") ".."

abbrev pub types_path : Environment → String
types_path env = mmtk_dir env <> "/mmtk/src/julia_types.rs"

abbrev pub buildroot_dir : Environment → (julia_dir : String) → String
buildroot_dir env julia_dir = or_default (env "JULIA_BUILDROOT") julia_dir

-- `make julia_version.h`
abbrev pub make_version : (julia_dir buildroot : String) → Command
make_version julia_dir buildroot = record {
  program = "make";
  current_dir = julia_dir <> "/src";
  envs = ("BUILDDIR", buildroot) ∷ [];
  args = "julia_version.h" ∷ [];
}

-- `make` of the dependencies, without the binding.
abbrev pub make_deps : (julia_dir buildroot : String) → Command
make_deps julia_dir buildroot = record {
  program = "make";
  current_dir = julia_dir <> "/deps";
  envs = ("BUILDDIR", buildroot) ∷ ("MMTK_PLAN", "None") ∷ [];
  args = [];
}

abbrev pub bindings_settings : (mmtk julia_dir buildroot : String) → List Setting
bindings_settings mmtk julia_dir buildroot =
    header (julia_dir <> "/src/julia.h")
    ∷ header (julia_dir <> "/src/julia_internal.h")
    ∷ clang_arg "-I"
    ∷ clang_arg (mmtk <> "/mmtk/api")
    ∷ clang_arg "-I"
    ∷ clang_arg (julia_dir <> "/src")
    ∷ clang_arg "-I"
    ∷ clang_arg (julia_dir <> "/src/support")
    ∷ clang_arg "-I"
    ∷ clang_arg (buildroot <> "/usr/include")
    ∷ allowlist_item "jl_datatype_layout_t"
    ∷ allowlist_item "jl_ucontext_t"
    ∷ allowlist_item "jl_small_typeof_tags"
    ∷ allowlist_item "jl_*_tag"
    ∷ allowlist_item "jl_svec_t"
    ∷ allowlist_item "jl_module_t"
    ∷ allowlist_item "jl_task_t"
    ∷ allowlist_item "jl_datatype_t"
    ∷ allowlist_item "jl_weakref_t"
    ∷ allowlist_item "jl_binding_partition_t"
    ∷ allowlist_item "jl_bt_element_t"
    ∷ allowlist_item "jl_taggedvalue_t"
    ∷ allowlist_item "MMTkMutatorContext"
    ∷ opaque_type "MMTkMutatorContext"
    ∷ clang_arg "-x"
    ∷ clang_arg "c++"
    ∷ clang_arg "-std=c++14"
    ∷ clang_arg "-DWITH_THIRD_PARTY_HEAP=1"
    ∷ clang_arg "-DMMTK_PLAN_STICKYIMMIX"
    ∷ []

module _ (t : Tools) where
  open t use {Files, exists, output, generate, write_to_file, write_built_file}

  -- A command for a file that is not there yet.
  abbrev pub run_unless : Files → (path : String) → Command → Outcome Files
  run_unless files path command =
      if exists files path
      then done files
      else expect (output files command) failed_to_execute_process

  unfoldable pub write_bindings : Files → (mmtk julia_dir buildroot : String) → Outcome Files
  write_bindings files mmtk julia_dir buildroot = do
    bindings ←
        expect (generate files (bindings_settings mmtk julia_dir buildroot))
          unable_to_generate_bindings
    expect (write_to_file files bindings "src/julia_types.rs") could_not_write_bindings

  -- With `JULIA_PATH` known: Julia's headers, then the bindings from them.
  unfoldable pub bind_julia : Environment → Files → (julia_dir : String) → Outcome Files
  unfolding write_bindings
  bind_julia env files julia_dir =
      let buildroot = buildroot_dir env julia_dir in
      do
        versioned ←
            run_unless files (buildroot <> "/src/julia_version.h")
              (make_version julia_dir buildroot)
        included ←
            run_unless versioned (buildroot <> "/usr/include") (make_deps julia_dir buildroot)
        write_bindings included (mmtk_dir env) julia_dir buildroot

  abbrev pub with_julia_dir : Environment → Files → Option String → Outcome Files
  with_julia_dir env files none = panic must_set_julia_path
  with_julia_dir env files (some julia_dir) = bind_julia env files julia_dir

  unfoldable pub ensure_bindings : Environment → Files → Outcome Files
  unfolding bind_julia
  ensure_bindings env files =
      if exists files (types_path env)
      then done files
      else with_julia_dir env files (env "JULIA_PATH")

  unfoldable pub main : Environment → Files → Outcome Files
  unfolding ensure_bindings
  main env files = do
    bound ← ensure_bindings env files
    expect (write_built_file bound) failed_to_acquire_build_time_information
