-- ===== src/Cache/WriteBuffer/Invariant.antt =====
-- The invariant of the write buffer: every state that its history can go back to lists its keys.
use data_agent_system.Prelude.{
  ℕ, suc, ◌≡◌, refl, sym, ◌∙◌, subst, Text, List, [], ◌∷◌, map, some, true, length, ltb, arith,
  Bool-cases, Option-cases, inl, inr, is_some, text_eq_refl,
}
use data_agent_system.Prelude.Map.{Map, find}
use data_agent_system.Cache.Entry.{ObjectCacheEntry}
use data_agent_system.Cache.WriteBuffer.{
  WriteBuffer, ChangeRecord, empty, upsert, truncate, unwind, undo, collect, ordered_entries,
}
use data_agent_system.Cache.WriteBuffer.Undo.{
  Snapshot, IsListed, contains, Distinct, undo-upsert, upsert-IsListed,
}

abbrev pub IsUndoable : List ChangeRecord → Snapshot → Type 0
IsUndoable [] s = s ≡ ([], [])
IsUndoable (c ∷ cs) s = IsListed s × IsUndoable cs (undo c s)

abbrev pub IsWellFormed : WriteBuffer → Type 0
IsWellFormed b = IsUndoable b.changes (b.order, b.entries)

empty-IsListed : IsListed ([], [])
unfolding contains find
empty-IsListed = record { same_keys = λ k. refl; distinct = tt; keyed = λ k e p. cc }

IsUndoable-IsListed : (cs : List ChangeRecord) (s : Snapshot) → IsUndoable cs s → IsListed s
IsUndoable-IsListed [] s u = subst IsListed (sym u) empty-IsListed
IsUndoable-IsListed (c ∷ cs) s u = u.0

pub IsWellFormed-IsListed : (b : WriteBuffer) → IsWellFormed b → IsListed (b.order, b.entries)
IsWellFormed-IsListed b w = IsUndoable-IsListed b.changes (b.order, b.entries) w

pub empty-IsWellFormed : IsWellFormed empty
empty-IsWellFormed = refl

pub upsert-IsWellFormed :
    (entry : ObjectCacheEntry) (b : WriteBuffer) → IsWellFormed b → IsWellFormed (upsert entry b)
unfolding upsert
upsert-IsWellFormed entry b w =
    let l = IsWellFormed-IsListed b w in
    (upsert-IsListed entry b l, subst (IsUndoable b.changes) (sym (undo-upsert entry b l)) w)

unwind-IsWellFormed :
    (n : ℕ) (cs : List ChangeRecord) (s : Snapshot) → IsUndoable cs s → IsWellFormed (unwind n cs s)
unfolding unwind
unwind-IsWellFormed n [] s u = u
unwind-IsWellFormed n (c ∷ cs) s u = elim (Bool-cases (ltb n (suc (length cs)))) [
  | inl e ↦ rw e (unwind-IsWellFormed n cs (undo c s) u.1)
  | inr e ↦ rw e u
]

pub truncate-IsWellFormed : (n : ℕ) (b : WriteBuffer) → IsWellFormed b → IsWellFormed (truncate n b)
truncate-IsWellFormed n b w =
    unfold truncate in unwind-IsWellFormed n b.changes (b.order, b.entries) w

unwind_zero : (cs : List ChangeRecord) (s : Snapshot) → IsUndoable cs s → unwind 0 cs s ≡ empty
unfolding unwind
unwind_zero [] s u = cc
unwind_zero (c ∷ cs) s u = ground (arith, unwind_zero cs (undo c s))

-- Discarding the whole history of a well-formed buffer gives the empty buffer.
pub truncate_zero : (b : WriteBuffer) → IsWellFormed b → truncate 0 b ≡ empty
truncate_zero b w = unfold truncate in unwind_zero b.changes (b.order, b.entries) w

-- `Entries` of a listing: the entries found, under their own keys.
pub record Lists (entries : Map ObjectCacheEntry) (order : List Text) : Type 0 where
  pub listing : List ObjectCacheEntry
  pub collected : collect entries order ≡ some listing
  pub ids : map (λ e. e.object_id) listing ≡ order

collect_step :
    (entries : Map ObjectCacheEntry) (k : Text) (order : List Text) (entry : ObjectCacheEntry)
    → find k entries ≡ some entry
    → entry.object_id ≡ k
    → Lists entries order
    → Lists entries (k ∷ order)
unfolding collect
collect_step entries k order entry e i r = record {
  listing = entry ∷ r.listing;
  collected = rw (e, collect, r.collected);
  ids = cc (i, r.ids);
}

collect-Lists :
    (entries : Map ObjectCacheEntry) (order : List Text)
    → ((k : Text) → contains k order ≡ true → is_some (find k entries) ≡ true)
    → ((k : Text) (e : ObjectCacheEntry) → find k entries ≡ some e → e.object_id ≡ k)
    → Lists entries order
unfolding collect contains
collect-Lists entries [] known keyed = record { listing = []; collected = refl; ids = refl }
collect-Lists entries (k ∷ order) known keyed = elim (Option-cases (find k entries)) [
  | inl e ↦ absurd (ground (arith, known k, text_eq_refl k))
  | inr (entry, e) ↦
      collect_step entries k order entry e (keyed k entry e)
        (collect-Lists entries order (λ j h. known j (ground arith)) keyed)
]

-- `Entries` of a well-formed buffer finds every listed object: one entry for each, in the order of
-- the list.
pub ordered_entries-Lists :
    (b : WriteBuffer)
    → IsWellFormed b
    → (listing : List ObjectCacheEntry) × (ordered_entries b ≡ some listing)
      × (map (λ e. e.object_id) listing ≡ b.order)
      × Distinct b.order
unfolding ordered_entries
ordered_entries-Lists b w =
    let l = IsWellFormed-IsListed b w in
    let r = collect-Lists b.entries b.order (λ k h. sym (l.same_keys k) ∙ h) l.keyed in
    (r.listing, r.collected, r.ids, l.distinct)
