-- ===== src/Build/Version.antt =====
-- mmtk/src/build_info.rs: the version texts; and `get_mmtk_version` of mmtk/src/api.rs. `none` is a
-- panic.
use Prim.Native.Nat.{ℕ}
use Prim.Native.Char.{Char, code}
use Prim.Native.String.{String, len, slice, ◌++◌ as ◌<>◌}
use Prim.Native.String.append
use mmtk_julia.Base.{
  ◌≡◌, inl, inr, refl, ap, ◌∙◌, Bool, true, false, Option, none, some, Bool-cases, if◌then◌else◌,
  ◌==◌,
}

-- The constants of built.rs that the texts are made of.
pub record Raw : Type 0 where
  pub pkg_version : String
  pub git_commit_hash : Option String
  pub git_dirty : Option Bool

-- The first half of `str::split_at`, which panics past the end and inside a character.
abbrev pub split_at : String → (mid : ℕ) → Option String
split_at s mid = if len (slice s 0 mid) == mid then some (slice s 0 mid) else none

abbrev pub dirty_mark : Option Bool → String
dirty_mark none = "-?"
dirty_mark (some true) = "-dirty"
dirty_mark (some false) = ""

abbrev pub with_hash : Raw → Option String → Option String
with_hash raw none = none
with_hash raw (some hash) = some (
    "Built with MMTk Julia "
    <> (raw.pkg_version <> (" (" <> (hash <> (dirty_mark raw.git_dirty <> ")")))))

abbrev pub binding_version_of : Raw → Option String → Option String
binding_version_of raw none = some ("Built with MMTk Julia " <> raw.pkg_version)
binding_version_of raw (some hash) = with_hash raw (split_at hash 7)

-- `BINDING_VERSION_STRING`
abbrev pub binding_version_string : Raw → Option String
binding_version_string raw = binding_version_of raw raw.git_commit_hash

abbrev pub has_nul : String → Bool
has_nul String.[] = false
has_nul (String.◌∷◌ c s) = if code c == 0 then true else has_nul s

-- `CString::new(s).unwrap()`
abbrev pub new_cstring : String → Option String
new_cstring s = if has_nul s then none else some (s <> "\0")

abbrev pub with_core : (core : String) → Option String → Option String
with_core core none = none
with_core core (some binding) = new_cstring (binding <> (", using " <> core))

-- `MMTK_JULIA_FULL_VERSION_STRING`, for mmtk-core's `MMTK_FULL_BUILD_INFO`.
abbrev pub mmtk_julia_full_version_string : Raw → (core : String) → Option String
mmtk_julia_full_version_string raw core = with_core core (binding_version_string raw)

-- `get_mmtk_version`: C gets the address of the text, which is made at the first use.
abbrev pub get_mmtk_version : Raw → (core : String) → Option String
get_mmtk_version raw core = mmtk_julia_full_version_string raw core

-- What C reads at such an address.
abbrev pub until_nul : String → String
until_nul String.[] = String.[]
until_nul (String.◌∷◌ c s) = if code c == 0 then String.[] else String.◌∷◌ c (until_nul s)

if_false : {b : Bool} (x y : String) → b ≡ false → (if b then x else y) ≡ y
if_false x y h = rw h

no_nul :
    (c : Char) (s : String)
    → has_nul (String.◌∷◌ c s) ≡ false
    → ((code c == 0) ≡ false) × (has_nul s ≡ false)
no_nul c s h = elim (Bool-cases (code c == 0)) [ inl is_nul ↦ cc | inr other ↦ (other, cc) ]

-- C reads a text without a nul to its end, and no further.
until_nul-terminated : (s : String) → has_nul s ≡ false → until_nul (s <> "\0") ≡ s
until_nul-terminated String.[] h = refl
until_nul-terminated (String.◌∷◌ c s) h =
    let (other, rest) = no_nul c s h in
    ap until_nul (append.cons c s "\0")
    ∙ if_false _ _ other
    ∙ ap (String.◌∷◌ c) (until_nul-terminated s rest)

-- Where the binding has a version and no part of the full text has a nul, C gets the text whole.
get_mmtk_version-until_nul :
    (raw : Raw) (core binding : String)
    → binding_version_string raw ≡ some binding
    → has_nul (binding <> (", using " <> core)) ≡ false
    → (c : String) × (get_mmtk_version raw core ≡ some c)
      × (until_nul c ≡ binding <> (", using " <> core))
get_mmtk_version-until_nul raw core binding known clean =
    let text = binding <> (", using " <> core) in
    (text <> "\0", rw (known, clean), until_nul-terminated text clean)
