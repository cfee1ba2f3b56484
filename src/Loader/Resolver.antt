-- ===== src/Loader/Resolver.antt =====
-- core/extensions/loader/dependency_resolver.py: the topological order of the manifests.
pub mod Visiting
pub mod Ordering
pub mod Resolving
use yodoca.Base.{
  ℕ, zero, suc, ◌+◌, String, Bool, true, false, Option, none, some, List, [], ◌∷◌, ◌++◌, length,
  not, if◌then◌else◌, same, any, select, is_some,
}

-- The fields of ExtensionManifest that the resolver and the loader read.
pub record Manifest : Type 0 where
  pub id : String
  pub depends_on : List String

-- The sets `seen` and `visiting` and the list `order` of a traversal.
pub record Traversal : Type 0 where
  pub order : List Manifest
  pub seen : List String
  pub visiting : List String

pub data Visit : Type 0 where
  visited : Traversal → Visit
  cycle_at : String → Visit
  out_of_fuel : Visit

-- What `resolve` returns or raises.
pub data Resolved : Type 0 where
  ordered : List Manifest → Resolved
  missing : (id dep : String) → Resolved
  cyclic : String → Resolved
  unresolved : Resolved

-- `x in ids`
abbrev pub is_member : String → List String → Bool
is_member x ids = any (λ i. same i x) ids

-- ids.remove(x)
abbrev pub remove : String → List String → List String
remove x ids = select (λ i. not (same i x)) ids

-- `by_id.get(dep)`: of manifests with one id the dictionary holds the last.
unfoldable pub by_id : List Manifest → String → Option Manifest
by_id [] x = none
by_id (m ∷ ms) x = elim (by_id ms x) [
  | some n ↦ some n
  | none ↦ if same m.id x then some m else none
]

-- `seen.add`, `visiting.remove` and `order.append` at the end of `_visit`.
unfoldable pub leave : Manifest → Visit → Visit
leave m (visited t) = visited (record {
  order = t.order ++ m ∷ [];
  seen = t.seen ++ m.id ∷ [];
  visiting = remove m.id t.visiting;
})
leave m (cycle_at i) = cycle_at i
leave m out_of_fuel = out_of_fuel

-- The loop over `depends_on`; `recurse` is the recursive call.
unfoldable pub visit_deps :
    (Manifest → Traversal → Visit) → List Manifest → List String → Traversal → Visit
visit_deps recurse ms [] t = visited t
visit_deps recurse ms (dep ∷ deps) t = elim (by_id ms dep) [
  | none ↦ visit_deps recurse ms deps t
  | some m ↦ elim (recurse m t) [
    | visited t' ↦ visit_deps recurse ms deps t'
    | cycle_at i ↦ cycle_at i
    | out_of_fuel ↦ out_of_fuel
  ]
]

unfoldable pub visit : ℕ → List Manifest → Manifest → Traversal → Visit
unfolding leave visit_deps
visit zero ms m t = out_of_fuel
visit (suc fuel) ms m t =
    if is_member m.id t.seen
    then visited t
    else if is_member m.id t.visiting
    then cycle_at m.id
    else leave m
        (visit_deps (visit fuel ms) ms m.depends_on (record t { visiting = m.id ∷ t.visiting }))

-- The loop over the manifests.
unfoldable pub visit_all : ℕ → List Manifest → List Manifest → Traversal → Visit
unfolding visit
visit_all fuel ms [] t = visited t
visit_all fuel ms (m ∷ rest) t = elim (visit fuel ms m t) [
  | visited t' ↦ visit_all fuel ms rest t'
  | cycle_at i ↦ cycle_at i
  | out_of_fuel ↦ out_of_fuel
]

-- The first dependency of the manifest that no manifest has as its id.
unfoldable pub missing_dep : List Manifest → List String → Option String
missing_dep ms [] = none
missing_dep ms (dep ∷ deps) = if any (λ m. same m.id dep) ms then missing_dep ms deps else some dep

-- The check before the traversal: the first manifest with a missing dependency.
unfoldable pub first_missing : List Manifest → List Manifest → Option (String × String)
unfolding missing_dep
first_missing ms [] = none
first_missing ms (m ∷ rest) = elim (missing_dep ms m.depends_on) [
  | some dep ↦ some (m.id, dep)
  | none ↦ first_missing ms rest
]

unfoldable pub resolution : Visit → Resolved
resolution (visited t) = ordered t.order
resolution (cycle_at i) = cyclic i
resolution out_of_fuel = unresolved

-- The recursion is at most one level deeper than there are manifests.
unfoldable pub resolve : List Manifest → Resolved
unfolding first_missing resolution visit_all
resolve ms = elim (first_missing ms ms) [
  | some (id, dep) ↦ missing id dep
  | none ↦
      resolution
        (visit_all (suc (length ms)) ms ms (record { order = []; seen = []; visiting = [] }))
]
