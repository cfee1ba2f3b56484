-- ===== src/Persistence/Integrity.antt =====
-- The keys and foreign keys of the tables hold after every operation, and threads stay.
use text.Mathlib.TextEquality.{eq_iff}
use yodoca.Base.{
  or_old, ℕ, String, ◌≡◌, refl, ap, ◌∙◌, Bool, true, false, Option, none, some, List, [], ◌∷◌, ◌++◌,
  same, All, All-update, All-delete, All-append, any, any-eq_false, update, delete, Bool-cases,
  if_both, inl, inr, arith, if◌then◌else◌,
}
use yodoca.Persistence.{
  Database, ThreadInfo, ThreadChanges, ProjectRow, Attached, is_thread, is_project, refers,
  coalesce, merge, set_thread_fields, create_thread, update_thread,
}
use yodoca.Persistence.Projects.{is_entry}

-- No two rows have one key.
module _ {A : Type 0} (same_key : A → A → Bool) where
  abbrev pub IsApart : List A → Type 0
  IsApart [] = Unit
  IsApart (x ∷ xs) = All (λ y. same_key x y ≡ false) xs × IsApart xs

  pub IsApart-delete : (p : A → Bool) (xs : List A) → IsApart xs → IsApart (delete p xs)
  IsApart-delete p [] h = tt
  IsApart-delete p (x ∷ xs) h = elim (Bool-cases (p x)) [
    | inl e ↦ rw e (IsApart-delete p xs h.1)
    | inr e ↦ rw e ((All-delete (λ y. same_key x y ≡ false) p xs h.0, IsApart-delete p xs h.1))
  ]

  pub IsApart-append :
      (xs : List A) (y : A)
      → All (λ x. same_key x y ≡ false) xs
      → IsApart xs
      → IsApart (xs ++ y ∷ [])
  IsApart-append [] y k h = (tt, tt)
  IsApart-append (x ∷ xs) y k h = (
    All-append (λ z. same_key x z ≡ false) xs (y ∷ []) h.0 (k.0, tt),
    IsApart-append xs y k.1 h.1,
  )

  pub IsApart-update :
      (p : A → Bool) (f : A → A) (xs : List A)
      → ((x y : A) → same_key (f x) y ≡ same_key x y)
      → ((x y : A) → same_key x (f y) ≡ same_key x y)
      → IsApart xs
      → IsApart (update p f xs)
  IsApart-update p f [] l r h = tt
  IsApart-update p f (x ∷ xs) l r h = (
    All-update (λ y. same_key x y ≡ false) (λ y. same_key (if p x then f x else x) y ≡ false) p f xs
        (λ y k _. first (f y) (r x y ∙ k)) (λ y k _. first y k) h.0,
    IsApart-update p f xs l r h.1,
  )
    where
      first : (z : A) → same_key x z ≡ false → same_key (if p x then f x else x) z ≡ false
      first z k = if_both (λ q. same_key q z ≡ false) (p x) (l x z ∙ k) k

module _ {A : Type 0} where
  pub any-update :
      (q p : A → Bool) (f : A → A) (xs : List A)
      → ((x : A) → q (f x) ≡ q x)
      → any q (update p f xs) ≡ any q xs
  any-update q p f [] h = refl
  any-update q p f (x ∷ xs) h = ground (arith, h x, any-update q p f xs h)

  pub any-append_left : (q : A → Bool) (xs ys : List A) → any q xs ≡ true → any q (xs ++ ys) ≡ true
  any-append_left q [] ys h = absurd (cc (h))
  any-append_left q (x ∷ xs) ys h = elim (Bool-cases (q x)) [
    | inl e ↦ rw e refl
    | inr e ↦ rw e (any-append_left q xs ys (rw e at h))
  ]

-- A project is still there when another one is deleted.
pub any-delete_other :
    (p i : String) (ps : List ProjectRow)
    → same p i ≡ false
    → any (is_project p) (delete (is_project i) ps) ≡ any (is_project p) ps
any-delete_other p i [] e = refl
any-delete_other p i (r ∷ rs) e =
    ground (arith, e, eq_iff r.id i, eq_iff r.id p, eq_iff p i, any-delete_other p i rs e)

abbrev pub same_thread : ThreadInfo → ThreadInfo → Bool
same_thread t u = same t.id u.id

abbrev pub same_project : ProjectRow → ProjectRow → Bool
same_project p q = same p.id q.id

abbrev pub same_entry : Attached → Attached → Bool
same_entry a b = is_entry b.project_id b.value a

-- The row names a project that is there.
abbrev pub IsBound : List ProjectRow → ThreadInfo → Type 0
IsBound ps t = refers ps t.project_id ≡ true

abbrev pub IsOwned : List ProjectRow → Attached → Type 0
IsOwned ps a = any (is_project a.project_id) ps ≡ true

-- A table of files or of links.
abbrev pub IsSoundTable : List ProjectRow → List Attached → Type 0
IsSoundTable ps as_rows = IsApart same_entry as_rows × All (IsOwned ps) as_rows

-- The primary keys are unique, and the foreign keys name a project that is there.
pub record IsSound (db : Database) : Type 0 where
  pub threads_apart : IsApart same_thread db.threads
  pub projects_apart : IsApart same_project db.projects
  pub files_sound : IsSoundTable db.projects db.files
  pub links_sound : IsSoundTable db.projects db.links
  pub threads_bound : All (IsBound db.projects) db.threads

-- A thread that was there is there.
abbrev pub KeepsThreads : Database → Database → Type 0
KeepsThreads db db' =
    (i : String) → any (is_thread i) db.threads ≡ true → any (is_thread i) db'.threads ≡ true

-- Where there is a result, it is sound, and has the threads that were there.
unfoldable pub StaysSound : Database → Option Database → Type 0
StaysSound db none = Unit
StaysSound db (some db') = IsSound db' × KeepsThreads db db'

pub StaysSound-none : (db : Database) → StaysSound db none
unfolding StaysSound
StaysSound-none db = tt

pub StaysSound-some :
    (db db' : Database) → IsSound db' → KeepsThreads db db' → StaysSound db (some db')
unfolding StaysSound
StaysSound-some db db' h k = (h, k)

-- An update of the threads that keeps the keys and names projects that are there.
pub update_threads-StaysSound :
    (p : ThreadInfo → Bool) (f : ThreadInfo → ThreadInfo) (db : Database)
    → ((t : ThreadInfo) → (f t).id ≡ t.id)
    → ((t : ThreadInfo) → IsBound db.projects t → IsBound db.projects (f t))
    → IsSound db
    → StaysSound db (some (record db { threads = update p f db.threads }))
update_threads-StaysSound p f db key bound h =
    StaysSound-some db (record db { threads = update p f db.threads })
      (record {
        threads_apart =
            IsApart-update same_thread p f db.threads (λ x y. ap (λ i. same i y.id) (key x))
              (λ x y. ap (λ i. same x.id i) (key y)) h.threads_apart;
        projects_apart = h.projects_apart;
        files_sound = h.files_sound;
        links_sound = h.links_sound;
        threads_bound =
            All-update (IsBound db.projects) (IsBound db.projects) p f db.threads
              (λ t k _. bound t k) (λ t k _. k) h.threads_bound;
      })
      (λ i k. any-update (is_thread i) p f db.threads (λ t. ap (λ j. same j i) (key t)) ∙ k)

refers-coalesce :
    (ps : List ProjectRow) (a b : Option String)
    → refers ps a ≡ true
    → refers ps b ≡ true
    → refers ps (coalesce a b) ≡ true
refers-coalesce ps none b h k = k
refers-coalesce ps (some a) b h k = h

refers-or_old :
    (ps : List ProjectRow) (a : Option (Option String)) (b : Option String)
    → refers ps (or_old a none) ≡ true
    → refers ps b ≡ true
    → refers ps (or_old a b) ≡ true
refers-or_old ps none b h k = k
refers-or_old ps (some a) b h k = h

insert_thread-StaysSound :
    (t : ThreadInfo) (db : Database)
    → any (is_thread t.id) db.threads ≡ false
    → IsBound db.projects t
    → IsSound db
    → StaysSound db (some (record db { threads = db.threads ++ t ∷ [] }))
insert_thread-StaysSound t db new b h =
    StaysSound-some db (record db { threads = db.threads ++ t ∷ [] })
      (record {
        threads_apart =
            IsApart-append same_thread db.threads t (any-eq_false (is_thread t.id) db.threads new)
              h.threads_apart;
        projects_apart = h.projects_apart;
        files_sound = h.files_sound;
        links_sound = h.links_sound;
        threads_bound =
            All-append (IsBound db.projects) db.threads (t ∷ []) h.threads_bound (b, tt);
      })
      (λ i k. any-append_left (is_thread i) db.threads (t ∷ []) k)

pub create_thread-StaysSound :
    (i channel_id : String) (project_id title : Option String) (now : ℕ) (db : Database)
    → IsSound db
    → StaysSound db (create_thread i channel_id project_id title now db)
unfolding create_thread
create_thread-StaysSound i channel_id project_id title now db h =
    elim (Bool-cases (refers db.projects project_id)) [
      | inr e ↦ rw e (StaysSound-none db)
      | inl e ↦ elim (Bool-cases (any (is_thread i) db.threads)) [
        | inl k ↦
            rw (e, k)
              (update_threads-StaysSound (is_thread i) (merge channel_id project_id title now) db
                (λ t. refl) (λ t b. refers-coalesce db.projects project_id t.project_id e b) h)
        | inr k ↦ rw (e, k) (insert_thread-StaysSound _ db k e h)
      ]
    ]

pub update_thread-StaysSound :
    (i : String) (c : ThreadChanges) (db : Database)
    → IsSound db
    → StaysSound db (update_thread i c db)
unfolding update_thread
update_thread-StaysSound i c db h =
    if_both (StaysSound db) (any (is_thread i) db.threads)
      (elim (Bool-cases (refers db.projects (or_old c.project_id none))) [
        | inr e ↦ rw e (StaysSound-none db)
        | inl e ↦ rw e (
            update_threads-StaysSound (is_thread i) (set_thread_fields c) db (λ t. refl)
              (λ t b. refers-or_old db.projects c.project_id t.project_id e b) h)
      ])
      (StaysSound-some db db h (λ j k. k))
