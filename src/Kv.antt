-- ===== src/Kv.antt =====
-- sandbox/extensions/kv/main.py: the key-value store in the file values.json, and its two tools.
pub mod Storing
pub mod Matching
pub mod Examples
use Prim.Native.Char.{Char, code}
use Prim.Native.String.{[] as nil, ◌∷◌ as cons, ◌++◌ as append}
use yodoca.Base.{
  ℕ, String, Bool, true, false, ◌&&◌, ◌||◌, not, Option, none, some, List, [], ◌∷◌, length, ◌==◌,
  leb, if◌then◌else◌, same, is_some, get, put, pop, behind, strip, is_empty,
}
use yodoca.Base.Sort.{sort}

abbrev pub Entries : Type 0
Entries = List (String × String)

-- The file by what json.loads makes of it. What `_save` has written is read back as it was.
pub data File : Type 0 where
  no_file unreadable not_a_dict : File
  entries : Entries → File

-- What `int(raw)` makes of the configured limit.
pub data RawLimit : Type 0 where
  absent invalid negative : RawLimit
  whole : ℕ → RawLimit

unfoldable pub parse_max_entries : RawLimit → ℕ
parse_max_entries absent = 500
parse_max_entries invalid = 500
parse_max_entries negative = 500
parse_max_entries (whole n) = if n == 0 then 500 else n

-- _FileStore
pub record Store : Type 0 where
  pub namespace : String
  pub max_entries : ℕ
  pub is_healthy : Bool

-- The extension and the file, which outlives it.
pub record Kv : Type 0 where
  pub store : Option Store
  pub file : File

pub data KvError : Type 0 where
  empty_key : KvError
  limit_reached : ℕ → KvError
  no_match not_found : String → KvError

pub data KvSetResult : Type 0 where
  stored deleted : (key : String) → KvSetResult
  not_set : KvError → KvSetResult

pub data KvGetResult : Type 0 where
  found : (key value : String) → KvGetResult
  pattern_match : (key : String) → Entries → KvGetResult
  not_read : KvError → KvGetResult

-- `self._namespace + ":"`
unfoldable pub prefix_of : String → String
prefix_of namespace = append namespace ":"

unfoldable pub ns : String → String → String
unfolding is_empty prefix_of
ns namespace key = if is_empty namespace then key else append (prefix_of namespace) key

unfoldable pub to_user_key : String → String → String
unfolding is_empty prefix_of
to_user_key namespace raw =
    if is_empty namespace
    then raw
    else elim (behind (prefix_of namespace) raw) [ some key ↦ key | none ↦ raw ]

unfoldable pub load : File → Entries
load no_file = []
load unreadable = []
load not_a_dict = []
load (entries d) = d

-- The order of `sorted(result.items())`: the keys of a dictionary differ.
abbrev pub key_before : String × String → String × String → Bool
key_before a b = elim (Prim.Native.String.compare a.0 b.0) [
  | Prim.Native.Nat.Ordering.lt ↦ true
  | _ ↦ false
]

-- `"*" in key or "?" in key`
unfoldable pub is_pattern : String → Bool
is_pattern nil = false
is_pattern (cons c s) = code c == 42 || code c == 63 || is_pattern s

unfoldable pub none_if_empty : String → Option String
none_if_empty nil = none
none_if_empty (cons c s) = some (cons c s)

-- `if not matches`
unfoldable pub matched : String → Entries → KvGetResult
matched key [] = not_read (no_match key)
matched key (e ∷ d) = pattern_match key (e ∷ d)

unfoldable pub read_result : String → Option String → KvGetResult
read_result key none = not_read (not_found key)
read_result key (some v) = found key v

unfoldable pub destroy : Kv → Kv
destroy kv = record kv { store = none }

unfoldable pub health_check : Kv → Bool
health_check kv = elim kv.store [ some s ↦ s.is_healthy | none ↦ false ]

-- `fnmatch key pattern` is fnmatch.fnmatch.
module _ (fnmatch : String → String → Bool) where
  -- The loop of `get_matching` over the entries of the file.
  unfoldable pub matching : (namespace pattern : String) → Entries → Entries → Entries
  unfolding to_user_key
  matching namespace pattern [] result = result
  matching namespace pattern ((k, v) ∷ d) result = matching namespace pattern d (
      if fnmatch (to_user_key namespace k) pattern
      then put (to_user_key namespace k) v result
      else result)

  unfoldable pub get_matching : Store → String → File → Entries
  unfolding matching load
  get_matching s pattern file = sort key_before (matching s.namespace pattern (load file) [])

  unfoldable pub ext_get_matching : Kv → String → Option Entries
  unfolding get_matching
  ext_get_matching kv pattern = elim kv.store [
    | some s ↦ some (get_matching s pattern kv.file)
    | none ↦ none
  ]

-- `is_space` is Python's white space.
module _ (is_space : Char → Bool) where
  unfoldable pub initialize : (namespace : String) → RawLimit → Kv → Kv
  unfolding parse_max_entries
  initialize namespace limit kv = record kv {
    store = some (record {
      namespace = strip is_space namespace;
      max_entries = parse_max_entries limit;
      is_healthy = true;
    });
  }

  unfoldable pub read : Store → String → File → Option String
  unfolding ns load
  read s key file = get (ns s.namespace (strip is_space key)) (load file)

  -- `none` is the ValueError of a full store; the file is then left as it was.
  unfoldable pub set : Store → String → Option String → File → Option File
  unfolding ns load
  set s key none file = some (entries (pop (ns s.namespace (strip is_space key)) (load file)))
  set s key (some v) file =
      if not (is_some (get (ns s.namespace (strip is_space key)) (load file)))
        && leb s.max_entries (length (load file))
      then none
      else some (entries (put (ns s.namespace (strip is_space key)) v (load file)))

  unfoldable pub kv_set : Store → (key value : String) → File → KvSetResult × File
  unfolding is_empty none_if_empty set
  kv_set s key value file =
      if is_empty (strip is_space key)
      then (not_set empty_key, file)
      else elim (set s (strip is_space key) (none_if_empty (strip is_space value)) file) [
        | none ↦ (not_set (limit_reached s.max_entries), file)
        | some f ↦ elim (none_if_empty (strip is_space value)) [
          | none ↦ (deleted (strip is_space key), f)
          | some v ↦ (stored (strip is_space key), f)
        ]
      ]

  -- The methods for other extensions; `none` is a RuntimeError or a ValueError.
  unfoldable pub ext_get : Kv → String → Option (Option String)
  unfolding read
  ext_get kv key = elim kv.store [ some s ↦ some (read s key kv.file) | none ↦ none ]

  unfoldable pub ext_set : Kv → String → Option String → Option Kv
  unfolding set
  ext_set kv key value = elim kv.store [
    | none ↦ none
    | some s ↦ elim (set s key value kv.file) [
      | none ↦ none
      | some f ↦ some (record kv { file = f })
    ]
  ]

module _ (is_space : Char → Bool) (fnmatch : String → String → Bool) where
  unfoldable pub kv_get : Store → String → File → KvGetResult
  unfolding is_empty is_pattern matched read_result get_matching read
  kv_get s key file =
      if is_empty (strip is_space key)
      then not_read empty_key
      else if is_pattern (strip is_space key)
      then matched (strip is_space key) (get_matching fnmatch s (strip is_space key) file)
      else read_result (strip is_space key) (read is_space s (strip is_space key) file)
