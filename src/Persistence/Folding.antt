-- ===== src/Persistence/Folding.antt =====
-- `_rows_to_projects` on rows of one project.
use text.Mathlib.TextEquality.{eq_iff}
use yodoca.Base.{
  String, ◌≡◌, refl, ap, ◌∙◌, Bool, true, false, ◌||◌, Option, none, some, List, [], ◌∷◌, ◌++◌,
  same, any, any-eq_false, All, All-map, Bool-cases, inl, inr, arith, if_case,
}
use yodoca.Persistence.{Attached}
use yodoca.Persistence.Projects.{ProjectInfo, JoinRow, add_new, extend, rows_to_projects}
use yodoca.Persistence.Integrity.{IsApart, IsApart-append}

-- The partner of a row has the value.
abbrev pub is_value : String → Option Attached → Bool
is_value v none = false
is_value v (some a) = same v a.value

same_sym : (s t : String) → same s t ≡ same t s
same_sym s t = ground (arith, eq_iff s t, eq_iff t s)

any-add_new :
    (v : String) (f : Option Attached) (xs : List String)
    → any (same v) (add_new f xs) ≡ (any (same v) xs || is_value v f)
any-add_new v none xs = ground arith
any-add_new v (some a) xs = elim (Bool-cases (any (same a.value) xs)) [
  | inl e ↦ rw e (held xs e)
  | inr e ↦ rw e (added xs)
]
  where
    held :
        (ys : List String)
        → any (same a.value) ys ≡ true
        → any (same v) ys ≡ (any (same v) ys || same v a.value)
    held [] h = absurd (cc (h))
    held (y ∷ ys) h = ground (arith, h, held ys, eq_iff v y, eq_iff a.value y, eq_iff v a.value)

    added :
        (ys : List String) → any (same v) (ys ++ a.value ∷ []) ≡ (any (same v) ys || same v a.value)
    added [] = ground arith
    added (y ∷ ys) = ground (arith, added ys)

add_new-IsApart :
    (f : Option Attached) (xs : List String) → IsApart same xs → IsApart same (add_new f xs)
add_new-IsApart none xs h = h
add_new-IsApart (some a) xs h =
    if_case (IsApart same) (any (same a.value) xs) (λ _. h)
      (λ e.
        IsApart-append same xs a.value
          (All-map (λ x. same a.value x ≡ false) (λ x. same x a.value ≡ false) xs
            (λ x k. same_sym x a.value ∙ k) (any-eq_false (same a.value) xs e))
          h)

-- The rows of one project, one after the other.
abbrev extend_all : List JoinRow → ProjectInfo → ProjectInfo
extend_all [] p = p
extend_all (r ∷ rs) p = extend_all rs (extend r p)

pub rows_to_projects-one :
    (rs : List JoinRow) (p : ProjectInfo)
    → All (λ r. same p.row.id r.project.id ≡ true) rs
    → rows_to_projects rs (p ∷ []) ≡ extend_all rs p ∷ []
rows_to_projects-one [] p h = refl
rows_to_projects-one (r ∷ rs) p h = rw (h.0) (rows_to_projects-one rs (extend r p) h.1)

or_assoc : (a b c : Bool) → ((a || b) || c) ≡ (a || (b || c))
or_assoc a b c = ground arith

pub or_idem : (a : Bool) → (a || a) ≡ a
or_idem a = ground arith

pub either : {a b c d : Bool} → a ≡ b → c ≡ d → (a || c) ≡ (b || d)
either e k = cc

pub or_false : (a : Bool) → a ≡ (a || false)
or_false a = ground arith

pub extend_all-files :
    (rs : List JoinRow) (p : ProjectInfo) (v : String)
    → any (same v) (extend_all rs p).files
      ≡ (any (same v) p.files || any (λ r. is_value v r.file) rs)
extend_all-files [] p v = or_false (any (same v) p.files)
extend_all-files (r ∷ rs) p v =
    extend_all-files rs (extend r p) v
    ∙ ap (λ b. b || any (λ q. is_value v q.file) rs) (any-add_new v r.file p.files)
    ∙ or_assoc (any (same v) p.files) (is_value v r.file) (any (λ q. is_value v q.file) rs)

pub extend_all-links :
    (rs : List JoinRow) (p : ProjectInfo) (v : String)
    → any (same v) (extend_all rs p).links
      ≡ (any (same v) p.links || any (λ r. is_value v r.link) rs)
extend_all-links [] p v = or_false (any (same v) p.links)
extend_all-links (r ∷ rs) p v =
    extend_all-links rs (extend r p) v
    ∙ ap (λ b. b || any (λ q. is_value v q.link) rs) (any-add_new v r.link p.links)
    ∙ or_assoc (any (same v) p.links) (is_value v r.link) (any (λ q. is_value v q.link) rs)

pub extend_all-row : (rs : List JoinRow) (p : ProjectInfo) → (extend_all rs p).row ≡ p.row
extend_all-row [] p = refl
extend_all-row (r ∷ rs) p = extend_all-row rs (extend r p)

pub extend_all-IsApart :
    (rs : List JoinRow) (p : ProjectInfo)
    → IsApart same p.files × IsApart same p.links
    → IsApart same (extend_all rs p).files × IsApart same (extend_all rs p).links
extend_all-IsApart [] p h = h
extend_all-IsApart (r ∷ rs) p h =
    extend_all-IsApart rs (extend r p)
      (add_new-IsApart r.file p.files h.0, add_new-IsApart r.link p.links h.1)
