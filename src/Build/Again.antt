-- ===== src/Build/Again.antt =====
-- What a second run of the build script does.
use Prim.Native.String.{String, ◌++◌ as ◌<>◌}
use mmtk_julia.Base.{◌≡◌, inl, inr, refl, sym, ap, ◌∙◌, true, Option, none, some, Bool-cases}
use mmtk_julia.Build.Script.{
  Message, Outcome, Tools, done, panic, expect, failed_to_acquire_build_time_information,
  could_not_write_bindings, unable_to_generate_bindings, Environment, types_path, mmtk_dir,
  buildroot_dir, make_version, make_deps, bindings_settings, run_unless, write_bindings, bind_julia,
  with_julia_dir, ensure_bindings, main, ◌>>=◌,
}

-- The bindings that were written are there, and the build information takes no file away.
pub record KeepsFiles (t : Tools) : Type 0 where
  pub written :
      (files r : t.Files) (b : t.Bindings)
      → t.write_to_file files b "src/julia_types.rs" ≡ some r
      → t.exists r "src/julia_types.rs" ≡ true
  pub built_beside :
      (files r : t.Files) (path : String)
      → t.write_built_file files ≡ some r
      → t.exists files path ≡ true
      → t.exists r path ≡ true

expect-done :
    {A : Type 0} (o : Option A) (message : Message) (r : A) → expect o message ≡ done r → o ≡ some r
expect-done none message r h = cc
expect-done (some a) message r h = cc

bind-done :
    {A B : Type 0} (x : Outcome A) (f : A → Outcome B) (r : B)
    → (x >>= f) ≡ done r
    → (a : A) × (x ≡ done a) × (f a ≡ done r)
bind-done (done a) f r h = (a, refl, h)
bind-done (panic message) f r h = cc

module _ (t : Tools) (keeps : KeepsFiles t) where
  write_bindings-exists :
      (files r : t.Files) (mmtk julia_dir buildroot : String)
      → write_bindings t files mmtk julia_dir buildroot ≡ done r
      → t.exists r "src/julia_types.rs" ≡ true
  unfolding write_bindings
  write_bindings-exists files r mmtk julia_dir buildroot h =
      let (b, made, wrote) =
        bind-done
          (expect (t.generate files (bindings_settings mmtk julia_dir buildroot))
            unable_to_generate_bindings)
          (λ b. expect (t.write_to_file files b "src/julia_types.rs") could_not_write_bindings) r
          h in
      keeps.written files r b (
        expect-done (t.write_to_file files b "src/julia_types.rs") could_not_write_bindings r wrote)

  bind_julia-exists :
      (env : Environment) (files r : t.Files) (julia_dir : String)
      → bind_julia t env files julia_dir ≡ done r
      → t.exists r "src/julia_types.rs" ≡ true
  unfolding bind_julia
  bind_julia-exists env files r julia_dir h =
      let root = buildroot_dir env julia_dir in
      let versioned =
        bind-done
          (run_unless t files (root <> "/src/julia_version.h") (make_version julia_dir root)) _ r
          h in
      let included =
        bind-done (run_unless t versioned.0 (root <> "/usr/include") (make_deps julia_dir root)) _ r
          versioned.2 in
      write_bindings-exists included.0 r (mmtk_dir env) julia_dir root included.2

  with_julia_dir-exists :
      (env : Environment) (files r : t.Files) (o : Option String)
      → with_julia_dir t env files o ≡ done r
      → t.exists r "src/julia_types.rs" ≡ true
  with_julia_dir-exists env files r none h = cc
  with_julia_dir-exists env files r (some d) h = bind_julia-exists env files r d h

  -- `MMTK_JULIA_DIR` names the checkout that the package itself is in.
  abbrev pub IsOwnCheckout : Environment → Type 0
  IsOwnCheckout env =
      (files : t.Files)
      → t.exists files "src/julia_types.rs" ≡ true
      → t.exists files (types_path env) ≡ true

  ensure_bindings-exists :
      (env : Environment) (files r : t.Files)
      → IsOwnCheckout env
      → ensure_bindings t env files ≡ done r
      → t.exists r (types_path env) ≡ true
  unfolding ensure_bindings
  ensure_bindings-exists env files r own h = elim (Bool-cases (t.exists files (types_path env))) [
    | inl there ↦
        let same : ◌≡◌ {A = Outcome t.Files} (done files) (done r) = rw there at h in
        let e : files ≡ r = cc in ap (λ f. t.exists f (types_path env)) (sym e) ∙ there
    | inr missing ↦ own r (with_julia_dir-exists env files r (env "JULIA_PATH") (rw missing at h))
  ]

  only_built :
      (env : Environment) (files : t.Files)
      → t.exists files (types_path env) ≡ true
      → main t env files
        ≡ expect (t.write_built_file files) failed_to_acquire_build_time_information
  unfolding main ensure_bindings
  only_built env files there = rw there refl

  -- Where the script has ended well, the bindings are there, whether it found or made them; and a
  -- later run that looks for them in the same place runs no make, generates nothing and panics for no
  -- variable: all it does is write the build information. For tools that keep files, and a
  -- `MMTK_JULIA_DIR` that names the checkout that the package is in, or is not set there.
  pub main-again :
      (env later : Environment) (files r : t.Files)
      → IsOwnCheckout env
      → types_path later ≡ types_path env
      → main t env files ≡ done r
      → (t.exists r (types_path env) ≡ true)
        × (main t later r ≡ expect (t.write_built_file r) failed_to_acquire_build_time_information)
  unfolding main
  main-again env later files r own place h =
      let (bound, found, built) =
        bind-done (ensure_bindings t env files)
          (λ bound. expect (t.write_built_file bound) failed_to_acquire_build_time_information) r
          h in
      let there =
        keeps.built_beside bound r (types_path env)
          (expect-done (t.write_built_file bound) failed_to_acquire_build_time_information r built)
          (ensure_bindings-exists env files bound own found) in
      (there, only_built later r (ap (t.exists r) place ∙ there))
