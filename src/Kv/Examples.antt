-- ===== src/Kv/Examples.antt =====
-- The key-value store on a concrete file.
use Prim.Native.Char.{Char, code}
use yodoca.Base.{
  String, Bool, true, none, some, [], ◌∷◌, ◌≡◌, refl, ◌==◌, get, if◌then◌else◌, is_some, behind,
  strip, put, pop,
}
use yodoca.Kv.{File, entries, Store, ns, to_user_key, load, set, get_matching, kv_set, deleted}
use yodoca.Kv.Storing.{Stores, set-Stores, Agrees, kv_set-Agrees}
use yodoca.Kv.Matching.{IsClean, set-IsClean, get_matching-finds}

abbrev is_blank : Char → Bool
is_blank c = code c == 32

-- A pattern as a prefix.
abbrev starts : String → String → Bool
starts key pattern = is_some (behind pattern key)

abbrev small : Store
small = record { namespace = "notes"; max_entries = 2; is_healthy = true }

abbrev two_entries : File
two_entries = entries (("notes:a", "1") ∷ ("notes:b", "2") ∷ [])

set_new : set is_blank small " c " (some "3") two_entries ≡ none
unfolding set get strip
set_new = refl

set_old :
    set is_blank small " a " (some "3") two_entries
    ≡ some (entries (("notes:a", "3") ∷ ("notes:b", "2") ∷ []))
unfolding set get strip put
set_old = refl

deletes_blank :
    kv_set is_blank small "a" "  " two_entries ≡ (deleted "a", entries (("notes:b", "2") ∷ []))
unfolding kv_set strip pop
deletes_blank = refl

lists : get_matching starts small "a" two_entries ≡ ("a", "1") ∷ []
unfolding get_matching behind put
lists = refl

set-Stores_example :
    Stores is_blank small " a "
      (some "3")
      two_entries
      (set is_blank small " a " (some "3") two_entries)
set-Stores_example = set-Stores is_blank small " a " (some "3") two_entries

kv_set-Agrees_example :
    Agrees is_blank small starts "a" "3 " two_entries (kv_set is_blank small "a" "3 " two_entries)
kv_set-Agrees_example = kv_set-Agrees is_blank small starts "a" "3 " two_entries

two_entries-IsClean : IsClean "notes" two_entries
unfolding load get ns to_user_key behind
two_entries-IsClean = ((refl, (refl, tt)), (refl, (refl, tt)))

get_matching-finds_example :
    get "a" (get_matching starts small "a" two_entries)
    ≡ (if starts "a" "a" then get (ns "notes" "a") (load two_entries) else none)
get_matching-finds_example = get_matching-finds starts small "a" "a" two_entries two_entries-IsClean

set-IsClean_example : IsClean "notes" (entries (("notes:a", "3") ∷ ("notes:b", "2") ∷ []))
set-IsClean_example =
    set-IsClean is_blank small " a " (some "3") two_entries
      (entries (("notes:a", "3") ∷ ("notes:b", "2") ∷ [])) two_entries-IsClean set_old
