-- ===== src/Collection/Consistent.antt =====
-- What the calls of internal/services/collection.go keep of its tables.
use indelible.Common.{ℕ, ◌≡◌, true, false, List, [], ◌∷◌, any, All}
use indelible.Collection.{Collection, CollectionFile, Store, has_parent, has_id, is_file}
use indelible.Collection.Tree.{Ordered}

abbrev pub HasParent : List Collection → Collection → Type 0
HasParent rows c = (q : ℕ) → has_parent q c ≡ true → any (has_id q) rows ≡ true

abbrev pub InRow : List Collection → CollectionFile → Type 0
InRow rows f = any (has_id f.collection_id) rows ≡ true

-- No file stands twice in a collection.
abbrev pub UniqueFiles : List CollectionFile → Type 0
UniqueFiles [] = Unit {0}
UniqueFiles (f ∷ fs) = (any (is_file f.collection_id f.upload_id) fs ≡ false) × UniqueFiles fs

pub record Consistent (s : Store) : Type 0 where
  pub ordered : Ordered s
  pub parents : All (HasParent s.collections) s.collections
  pub files_in : All (InRow s.collections) s.collection_files
  pub unique : UniqueFiles s.collection_files
