-- ===== src/Persistence/Joining.antt =====
-- The rows of the two LEFT JOINs of `get_project`.
use text.Mathlib.TextEquality.{eq_iff}
use yodoca.Base.{
  String, ◌≡◌, refl, ap, sym, ◌∙◌, Bool, true, false, ◌||◌, Option, none, some, List, [], ◌∷◌, ◌++◌,
  map, same, select, any, All, All-append, arith,
}
use yodoca.Persistence.{Database, ProjectRow, Attached}
use yodoca.Persistence.Projects.{
  JoinRow, is_attached_to, is_entry, or_null, with_links, with_files, join,
}
use yodoca.Persistence.Folding.{is_value, or_idem, either, or_false}

-- The joined rows.
any-with_links :
    (v : String) (p : ProjectRow) (f l : Option Attached) (ls : List (Option Attached))
    → (any (λ r. is_value v r.file) (with_links p f (l ∷ ls)) ≡ is_value v f)
      × (any (λ r. is_value v r.link) (with_links p f (l ∷ ls)) ≡ any (is_value v) (l ∷ ls))
any-with_links v p f l [] = (ground arith, refl)
any-with_links v p f l (m ∷ ls) =
    let (a, b) = any-with_links v p f m ls in (ground (arith, a), ap (λ x. is_value v l || x) b)

any-append : (q : JoinRow → Bool) (xs ys : List JoinRow) → any q (xs ++ ys) ≡ (any q xs || any q ys)
any-append q [] ys = refl
any-append q (x ∷ xs) ys = ground (arith, any-append q xs ys)

any-with_files :
    (v : String) (p : ProjectRow) (f l : Option Attached) (fs ls : List (Option Attached))
    → (any (λ r. is_value v r.file) (with_files p (f ∷ fs) (l ∷ ls)) ≡ any (is_value v) (f ∷ fs))
      × (any (λ r. is_value v r.link) (with_files p (f ∷ fs) (l ∷ ls)) ≡ any (is_value v) (l ∷ ls))
any-with_files v p f l [] ls =
    let (a, b) = any-with_links v p f l ls in
    (
      any-append (λ r. is_value v r.file) (with_links p f (l ∷ ls)) [] ∙ ap (λ x. x || false) a,
      any-append (λ r. is_value v r.link) (with_links p f (l ∷ ls)) []
          ∙ sym (or_false (any (λ r. is_value v r.link) (with_links p f (l ∷ ls))))
          ∙ b,
    )
any-with_files v p f l (g ∷ fs) ls =
    let (a, b) = any-with_links v p f l ls in
    let (c, d) = any-with_files v p g l fs ls in
    (
      any-append (λ r. is_value v r.file) (with_links p f (l ∷ ls)) (with_files p (g ∷ fs) (l ∷ ls))
          ∙ either a c,
      any-append (λ r. is_value v r.link) (with_links p f (l ∷ ls)) (with_files p (g ∷ fs) (l ∷ ls))
          ∙ either b d
          ∙ or_idem (any (is_value v) (l ∷ ls)),
    )

any-or_null :
    (v : String) (xs : List Attached) → any (is_value v) (or_null xs) ≡ any (λ a. same v a.value) xs
any-or_null v [] = refl
any-or_null v (x ∷ xs) = ap (λ b. same v x.value || b) (go xs)
  where
    go : (ys : List Attached) → any (is_value v) (map some ys) ≡ any (λ a. same v a.value) ys
    go [] = refl
    go (y ∷ ys) = ap (λ b. same v y.value || b) (go ys)

any-joined :
    (v : String) (p : ProjectRow) (xs ys : List Attached)
    → (any (λ r. is_value v r.file) (with_files p (or_null xs) (or_null ys))
        ≡ any (is_value v) (or_null xs))
      × (any (λ r. is_value v r.link) (with_files p (or_null xs) (or_null ys))
          ≡ any (is_value v) (or_null ys))
any-joined v p [] [] = any-with_files v p none none [] []
any-joined v p [] (y ∷ ys) = any-with_files v p none (some y) [] (map some ys)
any-joined v p (x ∷ xs) [] = any-with_files v p (some x) none (map some xs) []
any-joined v p (x ∷ xs) (y ∷ ys) = any-with_files v p (some x) (some y) (map some xs) (map some ys)

any-select :
    (i v : String) (t : List Attached)
    → any (λ a. same v a.value) (select (is_attached_to i) t) ≡ any (is_entry i v) t
any-select i v [] = refl
any-select i v (a ∷ t) = ground (arith, eq_iff v a.value, eq_iff a.value v, any-select i v t)

module _ (db : Database) (i v : String) where
  rows_of : ProjectRow → List JoinRow
  rows_of p =
      with_files p (or_null (select (is_attached_to p.id) db.files))
        (or_null (select (is_attached_to p.id) db.links))

  step :
      (p : ProjectRow)
      → p.id ≡ i
      → (any (λ r. is_value v r.file) (rows_of p) ≡ any (is_entry i v) db.files)
        × (any (λ r. is_value v r.link) (rows_of p) ≡ any (is_entry i v) db.links)
  unfolding rows_of
  step p e =
      let fs = select (is_attached_to p.id) db.files in
      let ls = select (is_attached_to p.id) db.links in
      let (a, b) = any-joined v p fs ls in
      (
        a ∙ any-or_null v fs ∙ any-select p.id v db.files ∙ ap (λ j. any (is_entry j v) db.files) e,
        b ∙ any-or_null v ls ∙ any-select p.id v db.links ∙ ap (λ j. any (is_entry j v) db.links) e,
      )

  -- The join of the rows of one project has its files and links.
  pub any-join :
      (p : ProjectRow) (ps : List ProjectRow)
      → All (λ q. q.id ≡ i) (p ∷ ps)
      → (any (λ r. is_value v r.file) (join (p ∷ ps) db) ≡ any (is_entry i v) db.files)
        × (any (λ r. is_value v r.link) (join (p ∷ ps) db) ≡ any (is_entry i v) db.links)
  unfolding rows_of
  any-join p [] h =
      let (a, b) = step p h.0 in
      (
        any-append (λ r. is_value v r.file) (rows_of p) []
            ∙ sym (or_false (any (λ r. is_value v r.file) (rows_of p)))
            ∙ a,
        any-append (λ r. is_value v r.link) (rows_of p) []
            ∙ sym (or_false (any (λ r. is_value v r.link) (rows_of p)))
            ∙ b,
      )
  any-join p (r ∷ rs) h =
      let (a, b) = step p h.0 in
      let (c, d) = any-join r rs h.1 in
      (
        any-append (λ q. is_value v q.file) (rows_of p) (join (r ∷ rs) db)
            ∙ either a c
            ∙ or_idem (any (is_entry i v) db.files),
        any-append (λ q. is_value v q.link) (rows_of p) (join (r ∷ rs) db)
            ∙ either b d
            ∙ or_idem (any (is_entry i v) db.links),
      )

pub join-there :
    (p : ProjectRow) (ps : List ProjectRow) (db : Database)
    → any (λ r. true) (join (p ∷ ps) db) ≡ true
join-there p ps db =
    go (select (is_attached_to p.id) db.files) (select (is_attached_to p.id) db.links)
  where
    go :
        (xs ys : List Attached)
        → any (λ r. true) (with_files p (or_null xs) (or_null ys) ++ join ps db) ≡ true
    go [] [] = refl
    go [] (y ∷ ys) = refl
    go (x ∷ xs) [] = refl
    go (x ∷ xs) (y ∷ ys) = refl

module _ (R : ProjectRow → Type 0) where
  All-with_links :
      (p : ProjectRow) (f : Option Attached) (ls : List (Option Attached))
      → R p
      → All (λ r. R r.project) (with_links p f ls)
  All-with_links p f [] h = tt
  All-with_links p f (l ∷ ls) h = (h, All-with_links p f ls h)

  All-with_files :
      (p : ProjectRow) (fs ls : List (Option Attached))
      → R p
      → All (λ r. R r.project) (with_files p fs ls)
  All-with_files p [] ls h = tt
  All-with_files p (f ∷ fs) ls h =
      All-append (λ r. R r.project) (with_links p f ls) (with_files p fs ls)
        (All-with_links p f ls h) (All-with_files p fs ls h)

  pub All-join :
      (ps : List ProjectRow) (db : Database) → All R ps → All (λ r. R r.project) (join ps db)
  All-join [] db h = tt
  All-join (p ∷ ps) db h =
      All-append (λ r. R r.project)
        (with_files p (or_null (select (is_attached_to p.id) db.files))
          (or_null (select (is_attached_to p.id) db.links)))
        (join ps db)
        (All-with_files p (or_null (select (is_attached_to p.id) db.files))
          (or_null (select (is_attached_to p.id) db.links)) h.0)
        (All-join ps db h.1)
