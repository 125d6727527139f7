-- ===== src/Collection.antt =====
-- internal/services/collection.go: the virtual folders and the files in them. No UNIQUE constrains the
-- names, so Create never answers that a name is taken. The tags of a collection are not modelled.
pub mod Tree
pub mod Delete
pub mod Consistent
pub mod Insert
pub mod Rows
mod Tests
use indelible.Common.{
  ℕ, zero, suc, ◌+◌, Bool, true, false, ◌&&◌, not, List, [], ◌∷◌, ◌++◌, Option, none, some, map,
  ◌==◌, if◌then◌else◌, find, any, keep, length, Bytes, Result, ok, err,
}
use indelible.Common.Sql.{update, delete, affected}

pub record Collection : Type 0 where
  pub id : ℕ
  pub name : Bytes
  pub description : Bytes
  pub parent_id : Option ℕ
  pub created_by : ℕ
  pub updated_at : ℕ

pub record CollectionFile : Type 0 where
  pub collection_id : ℕ
  pub upload_id : ℕ
  pub added_at : ℕ

-- `users` and `uploads` are the ids that the foreign keys refer to.
pub record Store : Type 0 where
  pub collections : List Collection
  pub collection_seq : ℕ
  pub collection_files : List CollectionFile
  pub users : List ℕ
  pub uploads : List ℕ

-- `constraint_error` is a violation of a foreign key that the code passes on as it is.
pub data CollectionError : Type 0 where
  collection_not_found file_already_in_collection file_not_in_collection constraint_error :
      CollectionError

abbrev pub has_id : ℕ → Collection → Bool
has_id id c = c.id == id

abbrev pub in_collection : ℕ → CollectionFile → Bool
in_collection id f = f.collection_id == id

-- The row with its file count.
unfoldable pub get_collection : Store → ℕ → Result CollectionError (Collection × ℕ)
get_collection s id = elim (find (has_id id) s.collections) [
  | none ↦ err collection_not_found
  | some c ↦ ok (c, affected (in_collection id) s.collection_files)
]

-- Whether a parent that is given is missing.
unfoldable pub is_missing : Store → Option ℕ → Bool
is_missing s none = false
is_missing s (some q) = not (any (has_id q) s.collections)

abbrev pub insert_collection : Store → Bytes → Bytes → Option ℕ → ℕ → ℕ → Store
insert_collection s name description parent_id created_by now = record s {
  collections =
      s.collections
      ++ record {
        id = suc s.collection_seq;
        name = name;
        description = description;
        parent_id = parent_id;
        created_by = created_by;
        updated_at = now;
      }
        ∷ [];
  collection_seq = suc s.collection_seq;
}

unfoldable pub create_collection :
    Store → Bytes → Bytes → Option ℕ → ℕ → ℕ → Store × Result CollectionError (Collection × ℕ)
unfolding is_missing get_collection
create_collection s name description parent_id created_by now =
    let s' = insert_collection s name description parent_id created_by now in
    if is_missing s parent_id
    then (s, err collection_not_found)
    else if any (λ u. u == created_by) s.users
    then (s', get_collection s' (suc s.collection_seq))
    else (s, err constraint_error)

unfoldable pub update_collection :
    Store → ℕ → Bytes → Bytes → ℕ → Store × Result CollectionError (Collection × ℕ)
unfolding get_collection
update_collection s id name description now =
    let s' = record s {
      collections =
          update (has_id id)
            (λ c. record c { name = name; description = description; updated_at = now })
            s.collections;
    } in
    (s', get_collection s' id)

abbrev pub has_parent : ℕ → Collection → Bool
has_parent id c = elim c.parent_id [ none ↦ false | some q ↦ q == id ]

unfoldable pub child_ids : Store → ℕ → List ℕ
child_ids s id = map (λ c. c.id) (keep (has_parent id) s.collections)

-- The two statements after the children are gone.
unfoldable pub remove_one : ℕ → Store → Store
remove_one id s = record s {
  collection_files = delete (in_collection id) s.collection_files;
  collections = delete (has_id id) s.collections;
}

-- A loop that stops where a step has no result.
unfoldable pub each : (ℕ → Store → Option Store) → List ℕ → Store → Option Store
each f [] s = some s
each f (i ∷ is) s = elim (f i s) [ none ↦ none | some s' ↦ each f is s' ]

-- None where the fuel runs out.
unfoldable pub delete_recursive : ℕ → ℕ → Store → Option Store
unfolding each child_ids remove_one
delete_recursive zero id s = none
delete_recursive (suc fuel) id s = elim (each (delete_recursive fuel) (child_ids s id) s) [
  | none ↦ none
  | some s' ↦ some (remove_one id s')
]

-- A child has a greater id than its parent, so a path down is no longer than the last id.
unfoldable pub delete_collection : Store → ℕ → Option Store
unfolding delete_recursive
delete_collection s id = delete_recursive (suc s.collection_seq) id s

abbrev pub is_file : ℕ → ℕ → CollectionFile → Bool
is_file collection_id upload_id f = f.collection_id == collection_id && f.upload_id == upload_id

unfoldable pub add_file : Store → ℕ → ℕ → ℕ → Store × Option CollectionError
add_file s collection_id upload_id now =
    if any (is_file collection_id upload_id) s.collection_files
    then (s, some file_already_in_collection)
    else if any (has_id collection_id) s.collections && any (λ u. u == upload_id) s.uploads
    then (
      record s {
        collection_files =
            s.collection_files
            ++ record { collection_id = collection_id; upload_id = upload_id; added_at = now } ∷ [];
      },
      none,
    )
    else (s, some constraint_error)

unfoldable pub remove_file : Store → ℕ → ℕ → Store × Option CollectionError
remove_file s collection_id upload_id = (
  record s { collection_files = delete (is_file collection_id upload_id) s.collection_files },
  if affected (is_file collection_id upload_id) s.collection_files == 0
      then some file_not_in_collection
      else none,
)

unfoldable pub collection_ids_for_upload : Store → ℕ → List ℕ
collection_ids_for_upload s upload_id =
    map (λ f. f.collection_id) (keep (λ f. f.upload_id == upload_id) s.collection_files)

unfoldable pub added_times : Store → ℕ → List (ℕ × ℕ)
added_times s id = map (λ f. (f.upload_id, f.added_at)) (keep (in_collection id) s.collection_files)
