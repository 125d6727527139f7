-- ===== src/Collection/Tests.antt =====
-- Three collections, the second in the first, with a file in the second and one in the third.
use indelible.Common.{◌≡◌, refl, List, [], ◌∷◌, none, some, ==_iff, arith, text}
use indelible.Collection.{
  Collection, Store, delete_collection, delete_recursive, each, child_ids, remove_one,
}
use indelible.Collection.Tree.{Ordered, Deletes}
use indelible.Collection.Delete.{delete_collection-Deletes}
use indelible.Collection.Consistent.{Consistent}
use indelible.Collection.Rows.{Call, creates, deletes, adds, run, run-Consistent}

abbrev third : Collection
third = record {
  id = 3;
  name = text "c";
  description = [];
  parent_id = none;
  created_by = 1;
  updated_at = 0;
}

abbrev store : Store
store = record {
  collections =
      record {
        id = 1;
        name = text "a";
        description = [];
        parent_id = none;
        created_by = 1;
        updated_at = 0;
      }
      ∷ record {
        id = 2;
        name = text "b";
        description = [];
        parent_id = some 1;
        created_by = 1;
        updated_at = 0;
      }
      ∷ third
      ∷ [];
  collection_seq = 3;
  collection_files =
      record { collection_id = 2; upload_id = 5; added_at = 0 }
      ∷ record { collection_id = 3; upload_id = 5; added_at = 0 }
      ∷ [];
  users = 1 ∷ [];
  uploads = 5 ∷ [];
}

store-Ordered : Ordered store
store-Ordered = (
  (omega arith, λ q e. absurd (cc)),
  (
    (omega arith, λ q e. let i = (==_iff 1 q).0 e in omega (arith, i)),
    ((omega arith, λ q e. absurd (cc)), tt),
  ),
)

store-Consistent : Consistent store
store-Consistent = record {
  ordered = store-Ordered;
  parents = (
    (λ q e. absurd (cc)),
    ((λ q e. let i = (==_iff 1 q).0 e in rw (← i) refl), ((λ q e. absurd (cc)), tt)),
  );
  files_in = (refl, (refl, tt));
  unique = (refl, (refl, tt));
}

delete_collection-Deletes_example : Deletes (delete_collection store 1) store (1 ∷ [])
delete_collection-Deletes_example = delete_collection-Deletes store 1 store-Ordered

-- The third collection and its file stay.
third_stays :
    delete_collection store 1
    ≡ some (record store {
      collections = third ∷ [];
      collection_files = record { collection_id = 3; upload_id = 5; added_at = 0 } ∷ [];
    })
unfolding delete_collection delete_recursive each child_ids remove_one
third_stays = refl

abbrev calls : List Call
calls = creates (text "d") [] (some 2) 1 9 ∷ adds 4 5 9 ∷ deletes 2 ∷ []

run-Consistent_example : Consistent (run store calls)
run-Consistent_example = run-Consistent store calls store-Consistent
