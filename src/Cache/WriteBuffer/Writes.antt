-- ===== src/Cache/WriteBuffer/Writes.antt =====
-- `Entries` and `Truncate` of cache/write_buffer.h after any calls of `Upsert`.
use data_agent_system.Prelude.{
  ℕ, ◌+◌, ◌≤◌, ◌≡◌, refl, sym, ap, ◌∙◌, Text, true, false, List, [], ◌∷◌, ◌++◌, Option, none, some,
  length, arith, text_eq, text_eq_iff, text_eq_refl, is_some, Bool-cases, Option-cases, inl, inr,
  if◌then◌else◌,
}
use data_agent_system.Prelude.Map.{Map, find, insert, find-insert, find-insert_self}
use data_agent_system.Cache.Entry.{ObjectCacheEntry}
use data_agent_system.Cache.WriteBuffer.{
  WriteBuffer, empty, upsert, truncate, size, collect, ordered_entries, listed,
}
use data_agent_system.Cache.WriteBuffer.Undo.{
  IsListed, contains, Distinct, upsert-IsListed, truncate_all, truncate-upsert, size-upsert,
}
use data_agent_system.Cache.WriteBuffer.Invariant.{IsWellFormed-IsListed, empty-IsWellFormed}

abbrev pub upsert_all : List ObjectCacheEntry → WriteBuffer → WriteBuffer
upsert_all [] b = b
upsert_all (e ∷ entries) b = upsert_all entries (upsert e b)

-- A new object goes to the end, and a known one keeps its place.
abbrev pub place : ObjectCacheEntry → List ObjectCacheEntry → List ObjectCacheEntry
place e [] = e ∷ []
place e (f ∷ listing) = if text_eq f.object_id e.object_id then e ∷ listing else f ∷ place e listing

abbrev pub placed : List ObjectCacheEntry → List ObjectCacheEntry → List ObjectCacheEntry
placed [] listing = listing
placed (e ∷ entries) listing = placed entries (place e listing)

abbrev placed_in :
    ObjectCacheEntry → Option (List ObjectCacheEntry) → Option (List ObjectCacheEntry)
placed_in e none = none
placed_in e (some listing) = some (place e listing)

-- What `collect` makes of the entry of an object and of those of the objects behind it.
abbrev cons_in :
    Option ObjectCacheEntry → Option (List ObjectCacheEntry) → Option (List ObjectCacheEntry)
cons_in o rest = elim o [
  | none ↦ none
  | some e ↦ elim rest [ none ↦ none | some listing ↦ some (e ∷ listing) ]
]

collect-cons :
    (m : Map ObjectCacheEntry) (j : Text) (order : List Text)
    → collect m (j ∷ order) ≡ cons_in (find j m) (collect m order)
unfolding collect
collect-cons m j order = refl

module _ (entry : ObjectCacheEntry) where
  place_other :
      (o : Option ObjectCacheEntry) (rest : Option (List ObjectCacheEntry))
      → ((f : ObjectCacheEntry) → o ≡ some f → text_eq f.object_id entry.object_id ≡ false)
      → cons_in o (placed_in entry rest) ≡ placed_in entry (cons_in o rest)
  place_other none rest h = refl
  place_other (some f) none h = refl
  place_other (some f) (some listing) h = rw (h f refl) refl

  place_same :
      (f : ObjectCacheEntry) (rest : Option (List ObjectCacheEntry))
      → text_eq f.object_id entry.object_id ≡ true
      → cons_in (some entry) rest ≡ placed_in entry (cons_in (some f) rest)
  place_same f none h = refl
  place_same f (some listing) h = rw h refl

module _ (entry : ObjectCacheEntry) (m : Map ObjectCacheEntry)
    (keyed : (k : Text) (e : ObjectCacheEntry) → find k m ≡ some e → e.object_id ≡ k) where
  abbrev after : Map ObjectCacheEntry
  after = insert entry.object_id entry m

  flip : (k j : Text) → text_eq k j ≡ false → text_eq j k ≡ false
  flip k j h = ground (arith, text_eq_iff k j, text_eq_iff j k)

  find-other : (j : Text) → text_eq j entry.object_id ≡ false → find j after ≡ find j m
  find-other j h = find-insert entry.object_id j entry m ∙ rw (flip j entry.object_id h) refl

  other_id :
      (j : Text)
      → text_eq j entry.object_id ≡ false
      → (f : ObjectCacheEntry) → find j m ≡ some f
      → text_eq f.object_id entry.object_id ≡ false
  other_id j h f e = rw (keyed j f e) h

  collect-other :
      (order : List Text)
      → contains entry.object_id order ≡ false
      → collect after order ≡ collect m order
  unfolding contains
  collect-other [] h = unfold collect in refl
  collect-other (j ∷ order) h =
      collect-cons after j order
      ∙ rw (find-other j (ground arith), collect-other order (ground arith)) refl
      ∙ sym (collect-cons m j order)

  -- A step past an object that is not the one that is written.
  collect_step :
      (j : Text) (order more : List Text)
      → text_eq j entry.object_id ≡ false
      → collect after more ≡ placed_in entry (collect m order)
      → collect after (j ∷ more) ≡ placed_in entry (collect m (j ∷ order))
  collect_step j order more h i =
      collect-cons after j more
      ∙ rw (find-other j h, i) (place_other entry (find j m) (collect m order) (other_id j h))
      ∙ ap (placed_in entry) (sym (collect-cons m j order))

  collect-append :
      (order : List Text)
      → contains entry.object_id order ≡ false
      → collect after (order ++ entry.object_id ∷ []) ≡ placed_in entry (collect m order)
  unfolding contains
  collect-append [] h =
      collect-cons after entry.object_id []
      ∙ rw (find-insert_self entry.object_id entry m) (unfold collect in refl)
  collect-append (j ∷ order) h =
      collect_step j order (order ++ entry.object_id ∷ []) (ground arith)
        (collect-append order (ground arith))

  collect_found :
      (j : Text) (order : List Text) (f : ObjectCacheEntry)
      → find j m ≡ some f
      → text_eq j entry.object_id ≡ true
      → contains j order ≡ false
      → collect after (j ∷ order) ≡ placed_in entry (collect m (j ∷ order))
  collect_found j order f e same n =
      let k : j ≡ entry.object_id = (text_eq_iff j entry.object_id).0 same in
      let found : find j after ≡ some entry =
        find-insert entry.object_id j entry m ∙ rw (k, text_eq_refl entry.object_id) refl in
      collect-cons after j order
      ∙ rw (found, collect-other order (rw (← k) n))
          (place_same entry f (collect m order) (rw (keyed j f e) same))
      ∙ ap (λ o. placed_in entry (cons_in o (collect m order))) (sym e)
      ∙ ap (placed_in entry) (sym (collect-cons m j order))

  collect-known :
      (order : List Text)
      → is_some (find entry.object_id m) ≡ true
      → contains entry.object_id order ≡ true
      → Distinct order
      → collect after order ≡ placed_in entry (collect m order)
  unfolding contains
  collect-known [] h c d = cc c
  collect-known (j ∷ order) h c d = elim (Bool-cases (text_eq j entry.object_id)) [
    | inl e ↦ elim (Option-cases (find j m)) [
      | inl n ↦
          let k : j ≡ entry.object_id = (text_eq_iff j entry.object_id).0 e in
          absurd (ground (arith, h, n, k))
      | inr (f, p) ↦ collect_found j order f p e d.0
    ]
    | inr e ↦ collect_step j order order e (collect-known order h (ground (arith, e, c)) d.1)
  ]

ordered_entries-upsert :
    (entry : ObjectCacheEntry) (b : WriteBuffer)
    → IsListed (b.order, b.entries)
    → ordered_entries (upsert entry b) ≡ placed_in entry (ordered_entries b)
unfolding ordered_entries upsert listed
ordered_entries-upsert entry b l = elim (Option-cases (find entry.object_id b.entries)) [
  | inl e ↦
      rw e (
        collect-append entry b.entries l.keyed b.order (l.same_keys entry.object_id ∙ ap is_some e))
  | inr (old, e) ↦ rw e (
      collect-known entry b.entries l.keyed b.order (ap is_some e)
        (l.same_keys entry.object_id ∙ ap is_some e) l.distinct)
]

entries_placed :
    (entries listing : List ObjectCacheEntry) (b : WriteBuffer)
    → IsListed (b.order, b.entries)
    → ordered_entries b ≡ some listing
    → ordered_entries (upsert_all entries b) ≡ some (placed entries listing)
entries_placed [] listing b l h = h
entries_placed (e ∷ entries) listing b l h =
    entries_placed entries (place e listing) (upsert e b) (upsert-IsListed e b l)
      (ordered_entries-upsert e b l ∙ ap (placed_in e) h)

truncate_placed :
    (n : ℕ) (entries : List ObjectCacheEntry) (b : WriteBuffer)
    → IsListed (b.order, b.entries)
    → n ≤ size b
    → truncate n (upsert_all entries b) ≡ truncate n b
truncate_placed n [] b l h = refl
truncate_placed n (e ∷ entries) b l h =
    truncate_placed n entries (upsert e b) (upsert-IsListed e b l)
      (rw (size-upsert e b) (omega arith))
    ∙ truncate-upsert n e b l h

upsert_all-IsListed :
    (entries : List ObjectCacheEntry) (b : WriteBuffer)
    → IsListed (b.order, b.entries)
    → IsListed ((upsert_all entries b).order, (upsert_all entries b).entries)
upsert_all-IsListed [] b l = l
upsert_all-IsListed (e ∷ entries) b l =
    upsert_all-IsListed entries (upsert e b) (upsert-IsListed e b l)

size-upsert_all :
    (entries : List ObjectCacheEntry) (b : WriteBuffer)
    → size (upsert_all entries b) ≡ length entries + size b
size-upsert_all [] b = omega arith
size-upsert_all (e ∷ entries) b =
    size-upsert_all entries (upsert e b) ∙ rw (size-upsert e b) (omega arith)

empty-IsListed : IsListed (empty.order, empty.entries)
empty-IsListed = IsWellFormed-IsListed empty empty-IsWellFormed

-- `Entries` after any writes to an empty buffer gives one entry for each object that was written, the
-- last one: an object that is new when it is written comes behind the others, and one that was
-- written before has its entry replaced in its place.
pub ordered_entries-upsert_all :
    (entries : List ObjectCacheEntry)
    → ordered_entries (upsert_all entries empty) ≡ some (placed entries [])
ordered_entries-upsert_all entries =
    entries_placed entries [] empty empty-IsListed (unfold ordered_entries collect in refl)

-- `Truncate` to the size that the buffer had after the first writes undoes all the later ones,
-- whatever they were: the buffer is just what the first writes made of an empty one, the order, the
-- entries and the history.
pub truncate-upsert_all :
    (first later : List ObjectCacheEntry)
    → truncate (length first) (upsert_all later (upsert_all first empty)) ≡ upsert_all first empty
truncate-upsert_all first later =
    let b = upsert_all first empty in
    let l = upsert_all-IsListed first empty empty-IsListed in
    let n : size b ≡ length first = size-upsert_all first empty ∙ (unfold size in omega arith) in
    truncate_placed (length first) later b l (omega arith)
    ∙ truncate_all (length first) b (omega arith)
