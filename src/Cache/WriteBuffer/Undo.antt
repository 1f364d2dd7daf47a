-- ===== src/Cache/WriteBuffer/Undo.antt =====
-- How the change history of the write buffer undoes writes.
use data_agent_system.Prelude.{
  ℕ, suc, ◌+◌, ◌≤◌, ◌≡◌, refl, ap, ◌∙◌, Text, List, [], ◌∷◌, ◌++◌, none, some, Bool, false, length,
  ltb, text_eq, text_eq_iff, text_eq_refl, arith, Bool-cases, Option-cases, inl, inr, ◌||◌, is_some,
  lt→ltb, le→ltb,
}
use data_agent_system.Prelude.Map.{Map, find, insert-insert_old, erase-insert_new, find-insert}
use data_agent_system.Cache.Entry.{ObjectCacheEntry}
use data_agent_system.Cache.WriteBuffer.{
  WriteBuffer, ChangeRecord, upsert, truncate, size, unwind, undo, listed, remove_first,
}

abbrev pub Snapshot : Type 0
Snapshot = List Text × Map ObjectCacheEntry

unfoldable pub contains : Text → List Text → Bool
contains k [] = false
contains k (j ∷ order) = text_eq j k || contains k order

abbrev pub Distinct : List Text → Type 0
Distinct [] = Unit
Distinct (k ∷ order) = (contains k order ≡ false) × Distinct order

-- The order lists each object with an entry once, and an entry stands under its own object.
pub record IsListed (s : Snapshot) : Type 0 where
  pub same_keys : (k : Text) → contains k s.0 ≡ is_some (find k s.1)
  pub distinct : Distinct s.0
  pub keyed : (k : Text) (e : ObjectCacheEntry) → find k s.1 ≡ some e → e.object_id ≡ k

remove_first-append :
    (k : Text) (order : List Text)
    → contains k order ≡ false
    → remove_first k (order ++ k ∷ []) ≡ order
unfolding contains remove_first
remove_first-append k [] h = rw text_eq_refl
remove_first-append k (j ∷ order) h = ground (arith, remove_first-append k order)

contains-append :
    (k j : Text) (order : List Text)
    → contains k (order ++ j ∷ []) ≡ (contains k order || text_eq j k)
unfolding contains
contains-append k j [] = ground arith
contains-append k j (i ∷ order) = ground (arith, contains-append k j order)

Distinct-append :
    (k : Text) (order : List Text)
    → Distinct order
    → contains k order ≡ false
    → Distinct (order ++ k ∷ [])
unfolding contains
Distinct-append k [] d h = (refl, tt)
Distinct-append k (j ∷ order) d h = ground (
  arith,
  contains-append j k order,
  Distinct-append k order d.1,
  text_eq_iff j k,
  text_eq_iff k j,
)

module _ (entry : ObjectCacheEntry) (b : WriteBuffer) (h : IsListed (b.order, b.entries)) where
  absent : find entry.object_id b.entries ≡ none → contains entry.object_id b.order ≡ false
  absent e = h.same_keys entry.object_id ∙ ap is_some e

  -- Undoing the change that `upsert` records restores the order and the entries.
  pub undo-upsert :
      undo
        (record { object_id = entry.object_id; previous_entry = find entry.object_id b.entries })
        ((upsert entry b).order, (upsert entry b).entries)
      ≡ (b.order, b.entries)
  unfolding upsert undo
  undo-upsert = elim (Option-cases (find entry.object_id b.entries)) [
    | inl e ↦ rw e (
        cc (
          remove_first-append entry.object_id b.order (absent e),
          erase-insert_new entry.object_id entry b.entries e,
        ))
    | inr (old, e) ↦ rw e (cc (insert-insert_old entry.object_id entry old b.entries e))
  ]

  pub upsert-IsListed : IsListed ((upsert entry b).order, (upsert entry b).entries)
  unfolding upsert listed
  upsert-IsListed = record {
    same_keys = λ k. ground (
      arith,
      contains-append k entry.object_id b.order,
      h.same_keys k,
      h.same_keys entry.object_id,
      text_eq_iff entry.object_id k,
      find-insert entry.object_id k entry b.entries,
    );
    distinct =
        ground
          (arith, h.same_keys entry.object_id, Distinct-append entry.object_id b.order h.distinct);
    keyed = λ k e.
        rw (find-insert entry.object_id k entry b.entries)
          λ p. ground (arith, h.keyed k e, text_eq_iff entry.object_id k);
  }

unwind_all :
    (n : ℕ) (cs : List ChangeRecord) (s : Snapshot)
    → length cs ≤ n
    → unwind n cs s ≡ record { order = s.0; entries = s.1; changes = cs }
unfolding unwind
unwind_all n [] s h = refl
unwind_all n (c ∷ cs) s h = rw (le→ltb n (suc (length cs)) h)

-- A buffer that is no longer than `n` is not cut.
pub truncate_all : (n : ℕ) (b : WriteBuffer) → size b ≤ n → truncate n b ≡ b
unfolding truncate size
truncate_all n b h = unwind_all n b.changes (b.order, b.entries) h

-- Cutting below a write undoes the write.
pub truncate-upsert :
    (n : ℕ) (entry : ObjectCacheEntry) (b : WriteBuffer)
    → IsListed (b.order, b.entries)
    → n ≤ size b
    → truncate n (upsert entry b) ≡ truncate n b
unfolding truncate size unwind
truncate-upsert n entry b l h =
    unfold upsert in
    rw (lt→ltb n (suc (length b.changes)) (omega arith))
      (ap (unwind n b.changes) (undo-upsert entry b l))

unwind-unwind :
    (n m : ℕ) (cs : List ChangeRecord) (s : Snapshot)
    → n ≤ m
    → truncate n (unwind m cs s) ≡ unwind n cs s
unfolding truncate unwind
unwind-unwind n m [] s h = refl
unwind-unwind n m (c ∷ cs) s h = elim (Bool-cases (ltb m (suc (length cs)))) [
  | inl e ↦ rw (e, lt→ltb n (suc (length cs)) (ground arith)) (unwind-unwind n m cs (undo c s) h)
  | inr e ↦ rw e
]

-- Cutting twice is cutting to the smaller size.
pub truncate-truncate :
    (n m : ℕ) (b : WriteBuffer) → n ≤ m → truncate n (truncate m b) ≡ truncate n b
truncate-truncate n m b h = unfold truncate in unwind-unwind n m b.changes (b.order, b.entries) h

pub size-upsert : (entry : ObjectCacheEntry) (b : WriteBuffer) → size (upsert entry b) ≡ size b + 1
unfolding size upsert
size-upsert entry b = omega arith

size-unwind :
    (n : ℕ) (cs : List ChangeRecord) (s : Snapshot) → n ≤ length cs → size (unwind n cs s) ≡ n
unfolding size unwind
size-unwind n [] s h = omega arith
size-unwind n (c ∷ cs) s h = ground (arith, size-unwind n cs (undo c s))

pub size-truncate : (n : ℕ) (b : WriteBuffer) → n ≤ size b → size (truncate n b) ≡ n
unfolding size
size-truncate n b h = unfold truncate in size-unwind n b.changes (b.order, b.entries) h
