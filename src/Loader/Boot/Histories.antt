-- ===== src/Loader/Boot/Histories.antt =====
-- The histories of the diagnostics of the extensions.
use text.Mathlib.TextPositions.{eq_refl}
use yodoca.Base.{
  ℕ, zero, suc, ◌-◌, ◌≤◌, ◌≡◌, refl, ap, ◌∙◌, String, false, Option, none, some, List, [], ◌∷◌,
  ◌++◌, arith, if◌then◌else◌, same, length, drop, length-drop, All, get, get-put, All-put,
}
use yodoca.Loader.Boot.{
  Diagnostic, max_diagnostics, history, append_diagnostic, last_of, latest_diagnostic,
}

-- No history is longer than the limit.
abbrev pub IsBounded : List (String × List Diagnostic) → Type 0
IsBounded d = All (λ e. length e.1 ≤ max_diagnostics) d

length-snoc : (h : List Diagnostic) (new : Diagnostic) → length (h ++ new ∷ []) ≡ suc (length h)
length-snoc [] new = refl
length-snoc (e ∷ h) new = ap suc (length-snoc h new)

last_of-drop :
    (n : ℕ) (h : List Diagnostic) (new : Diagnostic)
    → n ≤ length h
    → last_of (drop n (h ++ new ∷ [])) ≡ some new
unfolding last_of
last_of-drop zero [] new l = refl
last_of-drop zero (e ∷ []) new l = refl
last_of-drop zero (e ∷ f ∷ h) new l = last_of-drop zero (f ∷ h) new (omega arith)
last_of-drop (suc n) [] new l = absurd (omega (arith, l))
last_of-drop (suc n) (e ∷ h) new l = last_of-drop n h new (omega (arith, l))

abbrev or_empty : Option (List Diagnostic) → List Diagnostic
or_empty o = elim o [ some h ↦ h | none ↦ [] ]

-- A diagnostic that is recorded is then the latest of its extension, the histories of the other
-- extensions are as before, and if no history was longer than the limit of 10, none is afterwards.
pub append_diagnostic-IsBounded :
    (id : String) (new : Diagnostic) (d : List (String × List Diagnostic))
    → IsBounded d
    → IsBounded (append_diagnostic id new d)
      × ((latest_diagnostic id (append_diagnostic id new d) ≡ some new)
          × ((j : String)
              → same id j ≡ false
              → history j (append_diagnostic id new d) ≡ history j d))
unfolding append_diagnostic latest_diagnostic history
append_diagnostic-IsBounded id new d b = (
  All-put (λ e. length e.1 ≤ max_diagnostics) id kept d kept_length (λ j w e h. kept_length) b,
  (
    ap (λ o. last_of (or_empty o))
          (get-put id id kept d ∙ ap (λ c. if c then some kept else get id d) (eq_refl id))
        ∙ latest,
    λ j e. ap or_empty (get-put id j kept d ∙ ap (λ c. if c then some kept else get j d) e),
  ),
)
  where
    old : List Diagnostic
    old = elim (get id d) [ some h ↦ h | none ↦ [] ]

    kept : List Diagnostic
    kept = drop (length (old ++ new ∷ []) - max_diagnostics) (old ++ new ∷ [])

    kept_length : length kept ≤ max_diagnostics
    kept_length =
        omega (arith, length-drop (length (old ++ new ∷ []) - max_diagnostics) (old ++ new ∷ []))

    latest : last_of kept ≡ some new
    latest =
        last_of-drop (length (old ++ new ∷ []) - max_diagnostics) old new
          (omega (arith, length-snoc old new))
