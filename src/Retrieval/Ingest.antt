-- ===== src/Retrieval/Ingest.antt =====
-- The incremental ingest of app/rag/vectorstore.py for one tenant. FAISS is a parameter: its documents
-- are the objects of its docstore, so that a change of their metadata is a change of the store.
pub mod Hashes
pub mod Planned
pub mod Fresh
pub mod Whole
use customer_service.Prelude.{
  ℕ, suc, ◌+◌, ◌≡◌, Bool, true, false, not, ◌&&◌, ◌||◌, Option, none, some, List, [], ◌∷◌, ◌++◌,
  map, length, if◌then◌else◌,
}
use customer_service.Prelude.Text.{Text, Text-discrete, same, has_text, text_of}
use customer_service.Prelude.Dict.{Dict, get, put, among}
use customer_service.Retrieval.{Document}
use customer_service.Retrieval.Search.{is_some}

pub record DocumentStores : Type 1 where
  pub Store : Type 0
  pub documents : Store → List Document
  pub from_documents : List Document → Store
  pub add_documents : Store → List Document → Store
  pub change_documents : (Document → Document) → Store → Store
  pub documents-from : (ds : List Document) → documents (from_documents ds) ≡ ds
  pub documents-add :
      (store : Store) (ds : List Document)
      → documents (add_documents store ds) ≡ documents store ++ ds
  pub documents-change :
      (f : Document → Document) (store : Store)
      → documents (change_documents f store) ≡ map f (documents store)

abbrev pub source_of : Document → Text
source_of d = text_of d.source

abbrev pub hash_of : Document → Text
hash_of d = text_of d.content_hash

-- `_live_source_hashes`, behind the hashes so far
unfoldable pub live_source_hashes : List Document → Dict Text Text → Dict Text Text
live_source_hashes [] hashes = hashes
live_source_hashes (d ∷ ds) hashes = live_source_hashes ds (
    if not d.deleted && has_text (source_of d)
    then put Text-discrete (source_of d) (hash_of d) hashes
    else hashes)

-- `wanted_hash`
unfoldable pub wanted_hashes : List Document → Dict Text Text → Dict Text Text
wanted_hashes [] hashes = hashes
wanted_hashes (d ∷ ds) hashes =
    wanted_hashes ds (put Text-discrete (source_of d) (hash_of d) hashes)

abbrev pub or_empty : Option (List Document) → List Document
or_empty none = []
or_empty (some ds) = ds

-- `wanted_by_source`
unfoldable pub wanted_by_source :
    List Document → Dict Text (List Document) → Dict Text (List Document)
wanted_by_source [] grouped = grouped
wanted_by_source (d ∷ ds) grouped = wanted_by_source ds (
    put Text-discrete (source_of d) (or_empty (get Text-discrete (source_of d) grouped) ++ d ∷ [])
      grouped)

abbrev pub matches : Option Text → Text → Bool
matches none digest = false
matches (some live) digest = same live digest

pub record Changes : Type 0 where
  pub new_docs : List Document
  pub retire_sources : List Text
  pub unchanged_files : ℕ

-- one file that is wanted
abbrev pub change : Dict Text (List Document) → Dict Text Text → Text → Text → Changes → Changes
change grouped live_hash source digest changes =
    if has_text digest && matches (get Text-discrete source live_hash) digest
    then record changes { unchanged_files = suc changes.unchanged_files }
    else record changes {
      new_docs = changes.new_docs ++ or_empty (get Text-discrete source grouped);
      retire_sources =
          if is_some (get Text-discrete source live_hash)
          then source ∷ changes.retire_sources
          else changes.retire_sources;
    }

-- the loop over `wanted_hash`
unfoldable pub plan_wanted :
    Dict Text (List Document) → Dict Text Text → Dict Text Text → Changes → Changes
plan_wanted grouped live_hash [] changes = changes
plan_wanted grouped live_hash ((source, digest) ∷ wanted) changes =
    plan_wanted grouped live_hash wanted (change grouped live_hash source digest changes)

-- the loop over `live_hash`
unfoldable pub retire_unwanted : Dict Text Text → Dict Text Text → List Text → List Text
retire_unwanted wanted_hash [] sources = sources
retire_unwanted wanted_hash ((source, digest) ∷ live) sources =
    retire_unwanted wanted_hash live
      (if is_some (get Text-discrete source wanted_hash) then sources else source ∷ sources)

abbrev pub is_kept : Option Text → Text → Bool
is_kept none digest = false
is_kept (some kept) digest = has_text kept && same digest kept

abbrev pub is_stale : List Text → Dict Text Text → Document → Bool
is_stale sources keep_hash d =
    among Text-discrete (source_of d) sources
    && (not d.deleted && not (is_kept (get Text-discrete (source_of d) keep_hash) (hash_of d)))

abbrev pub retire : List Text → Dict Text Text → Document → Document
retire sources keep_hash d = if is_stale sources keep_hash d then record d { deleted = true } else d

unfoldable pub count_stale : List Text → Dict Text Text → List Document → ℕ
count_stale sources keep_hash [] = 0
count_stale sources keep_hash (d ∷ ds) =
    if is_stale sources keep_hash d
    then suc (count_stale sources keep_hash ds)
    else count_stale sources keep_hash ds

module _ (stores : DocumentStores) where
  open stores use {Store, documents, from_documents, add_documents, change_documents}

  -- `_soft_delete_stale`
  unfoldable pub soft_delete_stale : Store → List Text → Dict Text Text → Store × ℕ
  unfolding count_stale
  soft_delete_stale store sources keep_hash = (
    change_documents (retire sources keep_hash) store,
    count_stale sources keep_hash (documents store),
  )

  pub record Ingested : Type 0 where
    pub store : Option Store
    pub added : ℕ
    pub retired : ℕ
    pub unchanged_files : ℕ

  abbrev pub live_hashes : Option Store → Dict Text Text
  live_hashes none = []
  live_hashes (some store) = live_source_hashes (documents store) []

  abbrev pub with_new : Store → List Document → Store
  with_new store [] = store
  with_new store (d ∷ ds) = add_documents store (d ∷ ds)

  abbrev pub without_stale : Store → List Text → Dict Text Text → Store × ℕ
  without_stale store [] keep_hash = (store, 0)
  without_stale store (s ∷ sources) keep_hash = soft_delete_stale store (s ∷ sources) keep_hash

  -- the writes of one tenant; nothing is made of nothing
  abbrev pub write :
      Option Store → List Document → List Text → Dict Text Text → Option Store × ℕ × ℕ
  write none [] [] keep_hash = (none, 0, 0)
  write none new_docs sources keep_hash = (some (from_documents new_docs), length new_docs, 0)
  write (some store) new_docs sources keep_hash =
      let (store', retired) = without_stale (with_new store new_docs) sources keep_hash in
      (some store', length new_docs, retired)

  abbrev pub no_changes : Changes
  no_changes = record { new_docs = []; retire_sources = []; unchanged_files = 0 }

  -- what is planned for a tenant
  abbrev pub plan_of : Option Store → List Document → Changes
  plan_of store wanted =
      let wanted_hash = wanted_hashes wanted [] in
      let changes =
        plan_wanted (wanted_by_source wanted []) (live_hashes store) wanted_hash no_changes in
      record changes {
        retire_sources = retire_unwanted wanted_hash (live_hashes store) changes.retire_sources;
      }

  -- the body of the loop over the tenants in `ingest_indexes`
  unfoldable pub ingest_tenant : Option Store → List Document → Ingested
  unfolding wanted_hashes wanted_by_source plan_wanted retire_unwanted live_source_hashes
      soft_delete_stale
  ingest_tenant store wanted =
      let changes = plan_of store wanted in
      let (store', added, retired) =
        write store changes.new_docs changes.retire_sources (wanted_hashes wanted []) in
      record {
        store = store';
        added = added;
        retired = retired;
        unchanged_files = changes.unchanged_files;
      }
