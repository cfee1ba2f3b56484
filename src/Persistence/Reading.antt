-- ===== src/Persistence/Reading.antt =====
-- `get_project` puts together from the joined rows what the tables hold of one project.
use mathlib.Core.Path.{subst}
use text.Mathlib.TextEquality.{eq_iff}
use yodoca.Base.{
  String, ◌≡◌, refl, sym, ◌∙◌, Bool, true, false, Option, none, some, List, [], ◌∷◌, same, head?,
  select, any, All, All-map, All-select, Bool-cases, inl, inr, arith,
}
use yodoca.Base.Sort.{sort, any-sort, All-sort}
use yodoca.Persistence.{Database, ProjectRow, is_project}
use yodoca.Persistence.Projects.{
  ProjectInfo, JoinRow, is_entry, join, extend, rows_to_projects, row_before, get_project,
}
use yodoca.Persistence.Integrity.{IsApart}
use yodoca.Persistence.Folding.{
  is_value, rows_to_projects-one, extend_all-files, extend_all-links, extend_all-row,
  extend_all-IsApart,
}
use yodoca.Persistence.Joining.{any-join, join-there, All-join}

-- The answer for the key: no project, or one of its rows with exactly the files and the links that
-- are attached to it, each of them once.
unfoldable pub IsAnswer : String → (ProjectRow → Bool) → Database → Option ProjectInfo → Type 0
IsAnswer i q db none = any (is_project i) db.projects ≡ false
IsAnswer i q db (some p) =
    (is_project i p.row ≡ true)
    × (q p.row ≡ true)
    × ((v : String) → any (same v) p.files ≡ any (is_entry i v) db.files)
    × ((v : String) → any (same v) p.links ≡ any (is_entry i v) db.links)
    × IsApart same p.files
    × IsApart same p.links

-- `get_project` finds a project if there is one, with a row that has whatever all rows of the table
-- have, and with exactly the files and links of the tables, each of them once.
pub get_project-IsAnswer :
    (text_before : String → String → Bool) (i : String) (q : ProjectRow → Bool) (db : Database)
    → All (λ p. q p ≡ true) db.projects
    → IsAnswer i q db (get_project text_before i db)
unfolding get_project IsAnswer
get_project-IsAnswer text_before i q db h =
    go (select (is_project i) db.projects) refl
      (All-select (λ p. q p ≡ true) (is_project i) db.projects h)
  where
    IsRow : ProjectRow → Type 0
    IsRow p = (q p ≡ true) × (is_project i p ≡ true)

    one_key :
        (p r : ProjectRow) → is_project i p ≡ true → is_project i r ≡ true → same p.id r.id ≡ true
    one_key p r k l = ground (arith, k, l, eq_iff p.id i, eq_iff r.id i, eq_iff p.id r.id)

    key_of : (p : ProjectRow) → is_project i p ≡ true → p.id ≡ i
    key_of p k = ground (arith, k, eq_iff p.id i)

    ids : (ps : List ProjectRow) → All IsRow ps → All (λ p. p.id ≡ i) ps
    ids ps k = All-map IsRow (λ p. p.id ≡ i) ps (λ p b. key_of p b.1) k

    none_selected :
        (ps : List ProjectRow) → select (is_project i) ps ≡ [] → any (is_project i) ps ≡ false
    none_selected [] e = refl
    none_selected (p ∷ ps) e = elim (Bool-cases (is_project i p)) [
      | inl b ↦ absurd (cc (rw b at e))
      | inr b ↦ rw b (none_selected ps (rw b at e))
    ]

    first :
        (p : ProjectRow) (ps : List ProjectRow) (rs : List JoinRow)
        → All IsRow (p ∷ ps)
        → ((f : JoinRow → Bool) → any f rs ≡ any f (join (p ∷ ps) db))
        → All (λ r. IsRow r.project) rs
        → IsAnswer i q db (head? (rows_to_projects rs []))
    first p ps [] k f a = absurd (cc (f (λ r. true), join-there p ps db))
    first p ps (r ∷ rs) k f a =
        subst (λ ys. IsAnswer i q db (head? ys))
          (sym (
            rows_to_projects-one rs (extend r none_yet) (
              All-map (λ s. IsRow s.project) (λ s. same r.project.id s.project.id ≡ true) rs
                (λ s b. one_key r.project s.project a.0.1 b.1) a.1)))
          (
            rw (extend_all-row rs (extend r none_yet)) (a.0.1),
            rw (extend_all-row rs (extend r none_yet)) (a.0.0),
            (λ v.
                extend_all-files (r ∷ rs) none_yet v
                ∙ f (λ s. is_value v s.file)
                ∙ (any-join db i v p ps (ids (p ∷ ps) k)).0),
            (λ v.
                extend_all-links (r ∷ rs) none_yet v
                ∙ f (λ s. is_value v s.link)
                ∙ (any-join db i v p ps (ids (p ∷ ps) k)).1),
            (extend_all-IsApart (r ∷ rs) none_yet (tt, tt)).0,
            (extend_all-IsApart (r ∷ rs) none_yet (tt, tt)).1,
          )
      where
        none_yet : ProjectInfo
        none_yet = record { row = r.project; files = []; links = [] }

    go :
        (ps : List ProjectRow)
        → select (is_project i) db.projects ≡ ps
        → All IsRow ps
        → IsAnswer i q db (head? (rows_to_projects (sort (row_before text_before) (join ps db)) []))
    go [] e k = none_selected db.projects e
    go (p ∷ ps) e k =
        first p ps (sort (row_before text_before) (join (p ∷ ps) db)) k
          (λ f. any-sort (row_before text_before) f (join (p ∷ ps) db))
          (All-sort (row_before text_before) (λ r. IsRow r.project) (join (p ∷ ps) db)
            (All-join IsRow (p ∷ ps) db k))
