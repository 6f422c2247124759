-- ===== src/Core/Store/Lineage.antt =====
-- The lineages of crates/group-agent-core/src/checkpoint_store.rs: every history is a chain of
-- parents, of records of one thread that are found by their identifiers.
use group.Prelude.{
  All, All-map, get, insert, get-insert, ==_iff, nat_eq, string_eq, bool_eq, option_eq, list_eq,
  ◌≡◌, refl, sym, ◌∙◌, Option, none, some, List, [], ◌∷◌, ◌++◌, arith,
}
use group.Core.Record.{CheckpointId, BranchId, ThreadId, CheckpointRecord, record_eq}
use group.Core.Store.{InMemoryRecordState, InMemoryBranch, last_id}

-- Each record's parent is the record before it, and the first one's is `parent`.
abbrev pub IsChain : Option CheckpointId → List CheckpointRecord → Type 0
IsChain parent [] = Unit
IsChain parent (r ∷ rest) = (r.parent_id ≡ parent) × IsChain (some r.checkpoint_id) rest

-- A branch starts at a record of any parent.
abbrev pub IsLine : List CheckpointRecord → Type 0
IsLine [] = ⊥
IsLine (source ∷ rest) = IsChain (some source.checkpoint_id) rest

abbrev pub Belongs : InMemoryRecordState → ThreadId → CheckpointRecord → Type 0
Belongs s thread_id r = (get r.checkpoint_id s.by_id ≡ some r) × (r.thread_id ≡ thread_id)

pub record IsValid (s : InMemoryRecordState) : Type 0 where
  pub keyed :
      (k : CheckpointId) (r : CheckpointRecord) → get k s.by_id ≡ some r → r.checkpoint_id ≡ k
  pub chains :
      (t : ThreadId) (h : List CheckpointRecord)
      → get t s.histories ≡ some h
      → IsChain none h × All (Belongs s t) h
  pub lines :
      (b : BranchId) (branch : InMemoryBranch)
      → get b s.branches ≡ some branch
      → IsLine branch.history × All (Belongs s branch.thread_id) branch.history

-- Stored records stay.
abbrev pub Extends : InMemoryRecordState → InMemoryRecordState → Type 0
Extends s s' =
    (k : CheckpointId) (r : CheckpointRecord) → get k s.by_id ≡ some r → get k s'.by_id ≡ some r

abbrev last_of_chain : Option CheckpointId → List CheckpointRecord → Option CheckpointId
last_of_chain parent [] = parent
last_of_chain parent (r ∷ rest) = last_of_chain (some r.checkpoint_id) rest

last_of_chain-cons :
    (p : Option CheckpointId) (r : CheckpointRecord) (h : List CheckpointRecord)
    → last_of_chain p (r ∷ h) ≡ last_id (some (r ∷ h))
last_of_chain-cons p r [] = refl
last_of_chain-cons p r (x ∷ h) = last_of_chain-cons (some r.checkpoint_id) x h

pub IsChain-concat :
    (p : Option CheckpointId) (h : List CheckpointRecord) (r : CheckpointRecord)
    → IsChain p h
    → last_of_chain p h ≡ r.parent_id
    → IsChain p (h ++ r ∷ [])
IsChain-concat p [] r c e = (sym e, tt)
IsChain-concat p (x ∷ h) r c e = (c.0, IsChain-concat (some x.checkpoint_id) h r c.1 e)

pub IsChain-push :
    (h : List CheckpointRecord) (r : CheckpointRecord)
    → IsChain none h
    → last_id (some h) ≡ r.parent_id
    → IsChain none (h ++ r ∷ [])
IsChain-push [] r c e = IsChain-concat none [] r c e
IsChain-push (x ∷ h) r c e = IsChain-concat none (x ∷ h) r c (last_of_chain-cons none x h ∙ e)

pub IsLine-push :
    (h : List CheckpointRecord) (r : CheckpointRecord)
    → IsLine h
    → last_id (some h) ≡ r.parent_id
    → IsLine (h ++ r ∷ [])
IsLine-push [] r c e = absurd c
IsLine-push (x ∷ h) r c e =
    IsChain-concat (some x.checkpoint_id) h r c (last_of_chain-cons none x h ∙ e)

-- A new identifier takes no record away.
pub Extends-insert :
    (s s' : InMemoryRecordState) (r : CheckpointRecord)
    → get r.checkpoint_id s.by_id ≡ none
    → s'.by_id ≡ insert r.checkpoint_id r s.by_id
    → Extends s s'
Extends-insert s s' r fresh e k x h =
    ground (arith, get-insert r.checkpoint_id k r s.by_id, ==_iff r.checkpoint_id k)

pub All-Belongs :
    (s s' : InMemoryRecordState) (t : ThreadId) (h : List CheckpointRecord)
    → Extends s s'
    → All (Belongs s t) h
    → All (Belongs s' t) h
All-Belongs s s' t h ext =
    All-map (Belongs s t) (Belongs s' t) (λ r (found, own). (ext r.checkpoint_id r found, own)) h

pub keyed-insert :
    (s : InMemoryRecordState) (r x : CheckpointRecord) (k : CheckpointId)
    → IsValid s
    → get k (insert r.checkpoint_id r s.by_id) ≡ some x
    → x.checkpoint_id ≡ k
keyed-insert s r x k v h =
    ground (arith, get-insert r.checkpoint_id k r s.by_id, ==_iff r.checkpoint_id k, v.keyed k x)
