-- ===== src/Tasks/Marker.antt =====
-- `_extract_final_result` of sandbox/extensions/task_engine/worker.py: the completion marker.
-- `is_space` is Python's white space of `\s` and of str.strip.
use Prim.Native.Char.{Char, code}
use Prim.Native.String.{[], ◌∷◌}
use yodoca.Base.{
  String, Bool, true, ◌||◌, Option, none, some, ◌==◌, if◌then◌else◌, behind, lstrip, strip,
}

abbrev pub final_marker : String
final_marker = "<<TASK_COMPLETE>>"

module _ (is_space : Char → Bool) where
  -- `[ \t]*`
  skip_blanks : String → String
  skip_blanks [] = []
  skip_blanks (c ∷ s) =
      let rest = skip_blanks s in if code c == 32 || code c == 9 then rest else c ∷ s

  -- `_FINAL_RE.search`: the text behind the first match; `line_start`: `^` matches here.
  unfoldable pub search_marker : Bool → String → Option String
  unfolding lstrip behind skip_blanks
  search_marker line_start [] = none
  search_marker line_start (c ∷ s) =
      let later = search_marker (code c == 10) s in
      elim (if line_start then behind final_marker (lstrip is_space (c ∷ s)) else none) [
        | some rest ↦ some (skip_blanks rest)
        | none ↦ later
      ]

  none_if_empty : String → Option String
  none_if_empty [] = none
  none_if_empty (c ∷ s) = some (c ∷ s)

  unfoldable pub extract_final_result : String → Option String
  unfolding search_marker strip none_if_empty
  extract_final_result content = elim (search_marker true content) [
    | none ↦ none
    | some rest ↦ none_if_empty (strip is_space rest)
  ]
