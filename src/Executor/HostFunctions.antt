-- ===== src/Executor/HostFunctions.antt =====
-- `RuntimeVersionCache::new` of archive/executor/src/version_cache.rs: the host functions that the
-- interpreted runtime is given. A function is its name.
use sub_archive.Prelude.{
  List, [], ◌∷◌, Bool, true, false, ◌&&◌, ◌||◌, nat_beq, if◌then◌else◌, ◌≡◌, inl, inr, All,
  Bool-cases,
}
use sub_archive.Prelude.Text.{codes}
use sub_archive.Chain.{Bytes}
use sub_archive.Executor.VersionCache.{Versions}

abbrev is_prefix : Bytes → Bytes → Bool
is_prefix [] name = true
is_prefix (c ∷ pattern) [] = false
is_prefix (c ∷ pattern) (d ∷ name) = nat_beq c d && is_prefix pattern name

-- Whether `name.matches(pattern).count()` is not 0.
abbrev pub contains : Bytes → Bytes → Bool
contains pattern [] = is_prefix pattern []
contains pattern (c ∷ name) = is_prefix pattern (c ∷ name) || contains pattern name

-- `filter(|f| f.name().matches(pattern).count() == 0)`
unfoldable without : Bytes → List Bytes → List Bytes
without pattern [] = []
without pattern (name ∷ rest) =
    if contains pattern name then without pattern rest else name ∷ without pattern rest

unfoldable host_functions : List Bytes → List Bytes
host_functions all = without (codes "ext_logging") (
    without (codes "ext_default_child_storage") (
      without (codes "ext_storage")
        (without (codes "ext_offchain") (without (codes "wasm_tracing") all))))

-- Given `WasmExecutor::new` on the host functions, and the functions of Substrate.
unfoldable new : {E : Type 0} → (List Bytes → E) → List Bytes → E × Versions
unfolding host_functions
new wasm_executor all = (wasm_executor (host_functions all), [])

-- The name does not have the pattern in it.
abbrev pub Lacks : Bytes → Bytes → Type 0
Lacks pattern name = contains pattern name ≡ false

without-Lacks : (pattern : Bytes) (names : List Bytes) → All (Lacks pattern) (without pattern names)
unfolding without
without-Lacks pattern [] = tt
without-Lacks pattern (name ∷ rest) = elim (Bool-cases (contains pattern name)) [
  | inl there ↦ rw there (without-Lacks pattern rest)
  | inr absent ↦ rw absent (absent, without-Lacks pattern rest)
]

-- What a filter leaves lacks what was left out before it, too.
keeps-Lacks :
    (omitted pattern : Bytes) (names : List Bytes)
    → All (Lacks omitted) names
    → All (Lacks omitted) (without pattern names)
unfolding without
keeps-Lacks omitted pattern [] h = tt
keeps-Lacks omitted pattern (name ∷ rest) h = elim (Bool-cases (contains pattern name)) [
  | inl there ↦ rw there (keeps-Lacks omitted pattern rest h.1)
  | inr absent ↦ rw absent (h.0, keeps-Lacks omitted pattern rest h.1)
]

-- Whatever functions there are, the runtime is given none that works on the storage or off the chain.
host_functions-omit :
    (all : List Bytes)
    → All (Lacks (codes "ext_storage")) (host_functions all)
      × All (Lacks (codes "ext_default_child_storage")) (host_functions all)
      × All (Lacks (codes "ext_offchain")) (host_functions all)
unfolding host_functions
host_functions-omit all =
    let storage = codes "ext_storage" in
    let child = codes "ext_default_child_storage" in
    let offchain = codes "ext_offchain" in
    (
      keeps-Lacks storage _ _ (keeps-Lacks storage _ _ (without-Lacks storage _)),
      keeps-Lacks child _ _ (without-Lacks child _),
      keeps-Lacks offchain _ _
          (keeps-Lacks offchain _ _ (keeps-Lacks offchain _ _ (without-Lacks offchain _))),
    )
