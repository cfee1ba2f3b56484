-- ===== src/Persistence/Owning.antt =====
-- The projects, their files and links keep the tables sound.
use text.Mathlib.TextPositions.{eq_refl}
use yodoca.Base.{
  ℕ, String, ◌≡◌, refl, ap, ◌∙◌, Bool, true, false, ◌||◌, not, Option, none, some, List, [], ◌∷◌,
  ◌++◌, is_text, All, All-update, All-delete, All-append, All-map, any, any-eq_false, update,
  delete, Bool-cases, if_both, inl, inr,
}
use yodoca.Persistence.{
  Database, ProjectRow, Attached, is_thread, is_project, refers, archive_thread,
}
use yodoca.Persistence.Projects.{
  ProjectChanges, is_attached_to, is_entry, attach_all, replace, replace_given, both,
  set_project_fields, is_unset, unbind, binding, create_project, update_project, delete_project,
  bind_thread,
}
use yodoca.Persistence.Integrity.{
  IsApart, IsApart-delete, IsApart-append, IsApart-update, any-update, any-append_left,
  any-delete_other, same_thread, same_project, same_entry, IsBound, IsOwned, IsSoundTable, IsSound,
  StaysSound, StaysSound-none, StaysSound-some, update_threads-StaysSound, update_thread-StaysSound,
}

pub any-append_right :
    {A : Type 0} (q : A → Bool) (xs ys : List A) → any q ys ≡ true → any q (xs ++ ys) ≡ true
any-append_right q [] ys h = h
any-append_right q (x ∷ xs) ys h = elim (Bool-cases (q x)) [
  | inl e ↦ rw e refl
  | inr e ↦ rw e (any-append_right q xs ys h)
]

-- Where there is a table, it is sound.
unfoldable IsTable : List ProjectRow → Option (List Attached) → Type 0
IsTable ps none = Unit
IsTable ps (some t) = IsSoundTable ps t

IsTable-some : (ps : List ProjectRow) (t : List Attached) → IsSoundTable ps t → IsTable ps (some t)
unfolding IsTable
IsTable-some ps t h = h

-- A project that is there is there in the second list.
abbrev IsWider : List ProjectRow → List ProjectRow → Type 0
IsWider ps qs = (i : String) → any (is_project i) ps ≡ true → any (is_project i) qs ≡ true

IsSoundTable-IsWider :
    (ps qs : List ProjectRow) (t : List Attached)
    → IsWider ps qs
    → IsSoundTable ps t
    → IsSoundTable qs t
IsSoundTable-IsWider ps qs t w h =
    (h.0, All-map (IsOwned ps) (IsOwned qs) t (λ a k. w a.project_id k) h.1)

bound-IsWider :
    (ps qs : List ProjectRow) (p : Option String)
    → IsWider ps qs
    → refers ps p ≡ true
    → refers qs p ≡ true
bound-IsWider ps qs none w h = refl
bound-IsWider ps qs (some i) w h = w i h

attach_all-IsTable :
    (ps : List ProjectRow) (vs : List String) (i : String) (now : ℕ) (t : List Attached)
    → any (is_project i) ps ≡ true
    → IsSoundTable ps t
    → IsTable ps (attach_all vs i now t)
attach_all-IsTable ps [] i now t p h = IsTable-some ps t h
attach_all-IsTable ps (v ∷ vs) i now t p h = elim (Bool-cases (any (is_entry i v) t)) [
  | inl e ↦ rw e (unfold IsTable in tt)
  | inr e ↦ rw e (
      attach_all-IsTable ps vs i now
        (t ++ record { project_id = i; value = v; added_at = now } ∷ []) p
        (
          IsApart-append same_entry t (record { project_id = i; value = v; added_at = now })
              (any-eq_false (is_entry i v) t e) h.0,
          All-append (IsOwned ps) t (_ ∷ []) h.1 (p, tt),
        ))
]

replace-IsTable :
    (ps : List ProjectRow) (vs : List String) (i : String) (now : ℕ) (t : List Attached)
    → any (is_project i) ps ≡ true
    → IsSoundTable ps t
    → IsTable ps (replace vs i now t)
unfolding replace
replace-IsTable ps vs i now t p h = attach_all-IsTable ps vs i now (delete (is_attached_to i) t) p (
  IsApart-delete same_entry (is_attached_to i) t h.0,
  All-delete (IsOwned ps) (is_attached_to i) t h.1,
)

replace_given-IsTable :
    (ps : List ProjectRow) (vs : Option (List String)) (i : String) (now : ℕ) (t : List Attached)
    → any (is_project i) ps ≡ true
    → IsSoundTable ps t
    → IsTable ps (replace_given vs i now t)
replace_given-IsTable ps none i now t p h = IsTable-some ps t h
replace_given-IsTable ps (some vs) i now t p h = replace-IsTable ps vs i now t p h

-- New projects with their tables, where the threads stay as they are.
both-StaysSound :
    (fs ls : Option (List Attached)) (qs : List ProjectRow) (db : Database)
    → IsTable qs fs
    → IsTable qs ls
    → IsApart same_project qs
    → IsWider db.projects qs
    → IsSound db
    → StaysSound db (both fs ls (record db { projects = qs }))
unfolding IsTable
both-StaysSound none ls qs db f l a w h = StaysSound-none db
both-StaysSound (some fs) none qs db f l a w h = StaysSound-none db
both-StaysSound (some fs) (some ls) qs db f l a w h =
    StaysSound-some db (record db { projects = qs; files = fs; links = ls })
      (record {
        threads_apart = h.threads_apart;
        projects_apart = a;
        files_sound = f;
        links_sound = l;
        threads_bound =
            All-map (IsBound db.projects) (IsBound qs) db.threads
              (λ t k. bound-IsWider db.projects qs t.project_id w k) h.threads_bound;
      })
      (λ i k. k)

pub create_project-StaysSound :
    (p : ProjectRow) (files links : List String) (now : ℕ) (db : Database)
    → IsSound db
    → StaysSound db (create_project p files links now db)
unfolding create_project
create_project-StaysSound p files links now db h =
    elim (Bool-cases (any (is_project p.id) db.projects)) [
      | inl e ↦ rw e (StaysSound-none db)
      | inr e ↦ rw e (stored e)
    ]
  where
    row : ProjectRow
    row = record p { created_at = now; updated_at = now }

    wider : IsWider db.projects (db.projects ++ row ∷ [])
    wider i k = any-append_left (is_project i) db.projects (row ∷ []) k

    there : any (is_project p.id) (db.projects ++ row ∷ []) ≡ true
    there =
        any-append_right (is_project p.id) db.projects (row ∷ [])
          (ap (λ b. b || false) (eq_refl p.id))

    table :
        (t : List Attached) → IsSoundTable db.projects t → IsSoundTable (db.projects ++ row ∷ []) t
    table t k = IsSoundTable-IsWider db.projects (db.projects ++ row ∷ []) t wider k

    stored :
        any (is_project p.id) db.projects ≡ false
        → StaysSound db (
            both
              (replace files p.id now db.files)
              (replace links p.id now db.links)
              (record db { projects = db.projects ++ row ∷ [] }))
    stored e =
        both-StaysSound (replace files p.id now db.files) (replace links p.id now db.links)
          (db.projects ++ row ∷ []) db
          (replace-IsTable _ files p.id now db.files there (table db.files h.files_sound))
          (replace-IsTable _ links p.id now db.links there (table db.links h.links_sound))
          (IsApart-append same_project db.projects row
            (any-eq_false (is_project p.id) db.projects e) h.projects_apart)
          wider h

pub update_project-StaysSound :
    (i : String) (c : ProjectChanges) (now : ℕ) (db : Database)
    → IsSound db
    → StaysSound db (update_project i c now db)
unfolding update_project
update_project-StaysSound i c now db h =
    elim (Bool-cases (is_unset c || not (any (is_project i) db.projects))) [
      | inl e ↦ rw e (StaysSound-some db db h (λ j k. k))
      | inr e ↦ rw e (stored (found (is_unset c) (any (is_project i) db.projects) e))
    ]
  where
    found : (a b : Bool) → (a || not b) ≡ false → b ≡ true
    found a true k = refl
    found false false k = absurd (cc (k))
    found true false k = absurd (cc (k))

    qs : List ProjectRow
    qs = update (is_project i) (set_project_fields c now) db.projects

    same_ids : (j : String) → any (is_project j) qs ≡ any (is_project j) db.projects
    same_ids j =
        any-update (is_project j) (is_project i) (set_project_fields c now) db.projects (λ p. refl)

    wider : IsWider db.projects qs
    wider j k = same_ids j ∙ k

    table : (t : List Attached) → IsSoundTable db.projects t → IsSoundTable qs t
    table t k = IsSoundTable-IsWider db.projects qs t wider k

    stored :
        any (is_project i) db.projects ≡ true
        → StaysSound db (
            both
              (replace_given c.files i now db.files)
              (replace_given c.links i now db.links)
              (record db { projects = qs }))
    stored e =
        both-StaysSound (replace_given c.files i now db.files)
          (replace_given c.links i now db.links) qs db
          (replace_given-IsTable qs c.files i now db.files (wider i e)
            (table db.files h.files_sound))
          (replace_given-IsTable qs c.links i now db.links (wider i e)
            (table db.links h.links_sound))
          (IsApart-update same_project (is_project i) (set_project_fields c now) db.projects
            (λ x y. refl) (λ x y. refl) h.projects_apart)
          wider h

pub archive_thread-StaysSound :
    (i : String) (db : Database) → IsSound db → StaysSound db (some (archive_thread i db).1)
unfolding archive_thread
archive_thread-StaysSound i db h =
    update_threads-StaysSound (is_thread i) (λ t. record t { is_archived = true }) db (λ t. refl)
      (λ t b. b) h

pub bind_thread-StaysSound :
    (i : String) (p : Option String) (db : Database)
    → IsSound db
    → StaysSound db (bind_thread i p db)
unfolding bind_thread
bind_thread-StaysSound i none db h = update_thread-StaysSound i (binding none) db h
bind_thread-StaysSound i (some p) db h =
    if_both (StaysSound db) (any (is_project p) db.projects)
      (update_thread-StaysSound i (binding (some p)) db h) (StaysSound-none db)

-- The deletion of a project that is there.
delete_project-IsSound :
    (i : String) (db : Database)
    → any (is_project i) db.projects ≡ true
    → IsSound db
    → StaysSound db (some (delete_project i db).1)
unfolding delete_project
delete_project-IsSound i db e h = rw e (
    StaysSound-some db
      (record {
        threads = update (λ t. is_text t.project_id i) (unbind i) db.threads;
        projects = delete (is_project i) db.projects;
        files = delete (is_attached_to i) db.files;
        links = delete (is_attached_to i) db.links;
      })
      (record {
        threads_apart =
            IsApart-update same_thread (λ t. is_text t.project_id i) (unbind i) db.threads
              (λ x y. refl) (λ x y. refl) h.threads_apart;
        projects_apart = IsApart-delete same_project (is_project i) db.projects h.projects_apart;
        files_sound = table db.files h.files_sound;
        links_sound = table db.links h.links_sound;
        threads_bound =
            All-update (IsBound db.projects) (IsBound (delete (is_project i) db.projects))
              (λ t. is_text t.project_id i) (unbind i) db.threads (λ t k _. refl)
              (λ t k n. other t.project_id n k) h.threads_bound;
      })
      (λ j k.
        any-update (is_thread j) (λ t. is_text t.project_id i) (unbind i) db.threads (λ t. refl)
        ∙ k))
  where
    other :
        (p : Option String)
        → is_text p i ≡ false
        → refers db.projects p ≡ true
        → refers (delete (is_project i) db.projects) p ≡ true
    other none n k = refl
    other (some p) n k = any-delete_other p i db.projects n ∙ k

    owned :
        (t : List Attached)
        → All (IsOwned db.projects) t
        → All (IsOwned (delete (is_project i) db.projects)) (delete (is_attached_to i) t)
    owned [] k = tt
    owned (a ∷ rest) k = elim (Bool-cases (is_attached_to i a)) [
      | inl q ↦ rw q (owned rest k.1)
      | inr q ↦ rw q ((any-delete_other a.project_id i db.projects q ∙ k.0, owned rest k.1))
    ]

    table :
        (t : List Attached)
        → IsSoundTable db.projects t
        → IsSoundTable (delete (is_project i) db.projects) (delete (is_attached_to i) t)
    table t k = (IsApart-delete same_entry (is_attached_to i) t k.0, owned t k.1)

pub delete_project-StaysSound :
    (i : String) (db : Database) → IsSound db → StaysSound db (some (delete_project i db).1)
delete_project-StaysSound i db h = elim (Bool-cases (any (is_project i) db.projects)) [
  | inl e ↦ delete_project-IsSound i db e h
  | inr e ↦ unfold delete_project in rw e (StaysSound-some db db h (λ j k. k))
]
