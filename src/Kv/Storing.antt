-- ===== src/Kv/Storing.antt =====
-- The key-value store: what a read finds after a write, and the limit on the entries.
use Prim.Native.Char.{Char}
use Prim.Native.String.{[], ◌∷◌, ◌++◌ as append}
use text.Mathlib.TextPositions.{eq_refl}
use text.Mathlib.TextLemmas.{append_cancel_left}
use yodoca.Base.{
  is_empty, ℕ, ◌≤◌, ◌≡◌, refl, sym, ap, ◌∙◌, ◌⊎◌, inl, inr, String, Bool, true, false, Option, none,
  some, length, leb, if◌then◌else◌, same, is_some, Bool-cases, put, get-put, get-pop,
  length-put_new, length-put_old, length-pop, strip, arith, eq_iff,
}
use yodoca.Kv.{
  File, entries, Store, ns, prefix_of, load, read, set, kv_set, kv_get, KvSetResult, stored,
  deleted, not_set, found, not_found, not_read, limit_reached, is_pattern, none_if_empty,
  read_result,
}

pub size : File → ℕ
unfolding load
size file = length (load file)

ns_inj : (n a b : String) → ns n a ≡ ns n b → a ≡ b
unfolding ns
ns_inj n a b e = go (is_empty n) e
  where
    go :
        (c : Bool)
        → (if c then a else append (prefix_of n) a) ≡ (if c then b else append (prefix_of n) b)
        → a ≡ b
    go true h = h
    go false h = append_cancel_left (prefix_of n) a b h

pub same-ns : (n a b : String) → same (ns n a) (ns n b) ≡ same a b
same-ns n a b = elim (Bool-cases (same a b)) [
  | inl h ↦ ground (arith, eq_iff a b, eq_iff (ns n a) (ns n b))
  | inr h ↦ ground (arith, eq_iff a b, eq_iff (ns n a) (ns n b), ns_inj n a b)
]

none_if_empty-some : (t w : String) → none_if_empty t ≡ some w → t ≡ w
unfolding none_if_empty
none_if_empty-some [] w e = absurd (cc)
none_if_empty-some (c ∷ t) w e = cc

module _ (is_space : Char → Bool) where
  -- `set` as a store of texts under stripped keys: a refusal comes only from a new key in a full store.
  abbrev pub Stores : Store → String → Option String → File → Option File → Type 0
  Stores s key v file none =
      (is_some v ≡ true) × ((read is_space s key file ≡ none) × (s.max_entries ≤ size file))
  Stores s key v file (some f) =
      ((j : String)
        → read is_space s j f
          ≡ (if same (strip is_space key) (strip is_space j) then v else read is_space s j file))
      × ((size f ≤ size file) ⊎ (size f ≤ s.max_entries))

  -- A write of a text is refused exactly when its key is new and the store full, and leaves the file
  -- as it was. Any other write is carried out: then a read of the written key, stripped of white
  -- space, finds the text or, after a deletion, nothing, and a read of any other key finds what it
  -- found before; and the number of entries grows only up to the limit.
  pub set-Stores :
      (s : Store) (key : String) (v : Option String) (file : File)
      → Stores s key v file (set is_space s key v file)
  unfolding set read size load
  set-Stores s key none file = (
    (λ j.
        rw
          (
            get-pop (ns s.namespace (strip is_space key)) (ns s.namespace (strip is_space j))
                (load file),
            same-ns s.namespace (strip is_space key) (strip is_space j),
          )
          refl),
    inl (length-pop (ns s.namespace (strip is_space key)) (load file)),
  )
  set-Stores s key (some v) file = go (read is_space s key file) refl
    where
      written :
          (j : String)
          → read is_space s j (entries (put (ns s.namespace (strip is_space key)) v (load file)))
            ≡ (if same (strip is_space key) (strip is_space j)
                then some v
                else read is_space s j file)
      written j =
          rw
            (
              get-put (ns s.namespace (strip is_space key)) (ns s.namespace (strip is_space j)) v
                  (load file),
              same-ns s.namespace (strip is_space key) (strip is_space j),
            )
            refl

      go :
          (o : Option String)
          → read is_space s key file ≡ o
          → Stores s key (some v) file (set is_space s key (some v) file)
      go (some w) e = rw e (
          (
            written,
            inl (
                omega
                  (arith, length-put_old (ns s.namespace (strip is_space key)) v w (load file) e)),
          ))
      go none e = elim (Bool-cases (leb s.max_entries (length (load file)))) [
        | inl h ↦ rw (e, h) ((refl, (e, ground (arith, h))))
        | inr h ↦
            rw (e, h)
              ((
                written,
                inr (
                    ground (
                      arith,
                      h,
                      length-put_new (ns s.namespace (strip is_space key)) v (load file) e,
                    )),
              ))
      ]

  -- What the tools promise each other, by what `kv_set` reports.
  pub Agrees :
      Store
      → (fnmatch : String → String → Bool) → (key value : String) → File
      → KvSetResult × File
      → Type 0
  Agrees s fnmatch key value file (stored k, f) =
      is_pattern (strip is_space key) ≡ false
      → kv_get is_space fnmatch s key f ≡ found (strip is_space key) (strip is_space value)
  Agrees s fnmatch key value file (deleted k, f) =
      is_pattern (strip is_space key) ≡ false
      → kv_get is_space fnmatch s key f ≡ not_read (not_found (strip is_space key))
  Agrees s fnmatch key value file (not_set e, f) = f ≡ file

  -- The tools agree: if `kv_set` reports that it has stored a text, the key's own tool `kv_get` finds
  -- the text, stripped of white space, and if it reports a deletion, `kv_get` finds nothing, both
  -- unless the key is taken for a pattern; and if it reports an error, the file is as it was.
  pub kv_set-Agrees :
      (s : Store) (fnmatch : String → String → Bool) (key value : String) (file : File)
      → Agrees s fnmatch key value file (kv_set is_space s key value file)
  unfolding kv_set Agrees kv_get read_result none_if_empty
  kv_set-Agrees s fnmatch key value file = elim (Bool-cases (is_empty (strip is_space key))) [
    | inl e ↦ rw e refl
    | inr e ↦ rw e (
        finish (none_if_empty (strip is_space value))
          (set is_space s (strip is_space key) (none_if_empty (strip is_space value)) file) refl e
          (set-Stores s (strip is_space key) (none_if_empty (strip is_space value)) file))
  ]
    where
      found_key :
          (v : Option String) (f : File)
          → is_empty (strip is_space key) ≡ false
          → is_pattern (strip is_space key) ≡ false
          → Stores s (strip is_space key) v file (some f)
          → kv_get is_space fnmatch s key f ≡ read_result (strip is_space key) v
      found_key v f e p h =
          rw (e, p, h.0 (strip is_space key), eq_refl (strip is_space (strip is_space key))) refl

      finish :
          (v : Option String) (o : Option File)
          → none_if_empty (strip is_space value) ≡ v
          → is_empty (strip is_space key) ≡ false
          → Stores s (strip is_space key) v file o
          → Agrees s fnmatch key value file (elim o [
            | none ↦ (not_set (limit_reached s.max_entries), file)
            | some f ↦ elim v [
              | none ↦ (deleted (strip is_space key), f)
              | some w ↦ (stored (strip is_space key), f)
            ]
          ])
      finish v none q e h = refl
      finish none (some f) q e h = λ p. found_key none f e p h
      finish (some w) (some f) q e h = λ p.
          found_key (some w) f e p h
          ∙ ap (found (strip is_space key)) (sym (none_if_empty-some (strip is_space value) w q))
