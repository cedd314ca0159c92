-- ===== src/Start/Process.antt =====
-- mmtk/src/api.rs: `mmtk_process`, which sets an option of the builder by its name. As in
-- `mmtk_gc_init`, a panic aborts the process.
use Prim.Native.String.{String}
use mmtk_julia.Base.{Bool, Option, none, some, Address}
use mmtk_julia.Start.Options.{Features, MmtkOptions}
use mmtk_julia.Start.Frame.{Statics}

-- `process` is mmtk-core's; a text that C passes is `none` where it is no UTF-8.
module _ (core : MmtkOptions) (features : Features) (vm_base_address : Address)
    (process : core.Options → String → String → core.Options × Bool) where
  -- The answer with the statics afterwards, or why the process ends.
  pub data Processed : Type 0 where
    answered : Bool → Statics core features vm_base_address → Processed
    refused_name : Processed
    refused_value : Processed

  unfoldable pub mmtk_process :
      (name value : Option String) → Statics core features vm_base_address → Processed
  mmtk_process none value g = refused_name
  mmtk_process (some name) none g = refused_value
  mmtk_process (some name) (some value) g =
      let (options, is_set) = process g.builder name value in
      answered is_set (record g { builder = options })
