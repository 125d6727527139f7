-- ===== src/Upload/Marks.antt =====
-- The statements that record the outcome of an upload.
use indelible.Common.{
  ℕ, Bool, true, false, not, ◌&&◌, List, [], ◌∷◌, ◌++◌, length, Option, none, some, if◌then◌else◌,
  Bytes, text,
}
use indelible.Upload.Row.{completed, failed, already_stored, public, Detail, Upload, Store, set_row}

abbrev pub is_null {ℓ} : {A : Type ℓ} → Option A → Bool
is_null none = true
is_null (some _) = false

abbrev pub is_empty : Bytes → Bool
is_empty [] = true
is_empty _ = false

module _ (sha256_hex : Bytes → Bytes) where
  -- downloadcache.KeyForIdentifier.
  unfoldable pub key_for_identifier : Bytes → Bytes
  key_for_identifier id =
      if is_empty id then [] else sha256_hex (text "indelible-download-v1:" ++ id)

  unfoldable pub mark_completed : Store → ℕ → Bytes → Bytes → ℕ → Store
  mark_completed s id data_map actual_cost now =
      set_row id
        (λ u. record u {
          status = completed;
          data_map = some data_map;
          actual_cost = some actual_cost;
          cache_key = some (key_for_identifier data_map);
          completed_at = some now;
          temp_path = none;
        })
        s

  unfoldable pub mark_completed_public : Store → ℕ → Bytes → Bytes → ℕ → Store
  mark_completed_public s id datamap_address actual_cost now =
      set_row id
        (λ u. record u {
          status = completed;
          datamap_address = some datamap_address;
          actual_cost = some actual_cost;
          cache_key = some (key_for_identifier datamap_address);
          completed_at = some now;
          temp_path = none;
        })
        s

  unfoldable pub mark_already_stored : Store → ℕ → Bytes → Bytes → ℕ → Store
  mark_already_stored s id data_map actual_cost now =
      set_row id
        (λ u. record u {
          status = already_stored;
          data_map = some data_map;
          actual_cost = some actual_cost;
          cache_key = some (key_for_identifier data_map);
          completed_at = some now;
          temp_path = none;
        })
        s

  unfoldable pub mark_already_stored_public : Store → ℕ → Bytes → Bytes → ℕ → Store
  mark_already_stored_public s id datamap_address actual_cost now =
      set_row id
        (λ u. record u {
          status = already_stored;
          datamap_address = some datamap_address;
          actual_cost = some actual_cost;
          cache_key = some (key_for_identifier datamap_address);
          completed_at = some now;
          temp_path = none;
        })
        s

-- A null string is scanned as the empty one.
abbrev pub or_empty : Option Bytes → Bytes
or_empty none = []
or_empty (some b) = b

-- The DataMap, or the network address where there is none.
unfoldable pub identifier_of : Upload → Bytes
identifier_of u =
    if is_empty (or_empty u.data_map) then or_empty u.datamap_address else or_empty u.data_map

module _ (sha256_hex : Bytes → Bytes) where
  -- The rows of the SELECT of BackfillCacheKeys, each with the key that its row gets.
  unfoldable pub unstamped : List Upload → List (ℕ × Bytes)
  unfolding identifier_of key_for_identifier
  unstamped [] = []
  unstamped (u ∷ us) =
      let rest = unstamped us in
      if is_null u.cache_key && not (is_empty (identifier_of u))
      then (u.id, key_for_identifier sha256_hex (identifier_of u)) ∷ rest
      else rest

-- The loop of the UPDATEs.
unfoldable pub stamp : List (ℕ × Bytes) → Store → Store
stamp [] s = s
stamp ((id, key) ∷ todo) s = stamp todo (set_row id (λ u. record u { cache_key = some key }) s)

unfoldable pub backfill_cache_keys : (Bytes → Bytes) → Store → Store × ℕ
unfolding unstamped stamp
backfill_cache_keys sha256_hex s =
    let todo = unstamped sha256_hex s.uploads in (stamp todo s, length todo)

unfoldable pub mark_published : Store → ℕ → Bytes → Store
mark_published s id datamap_address =
    set_row id (λ u. record u { visibility = public; datamap_address = some datamap_address }) s

unfoldable pub mark_failed : Store → ℕ → Bytes → ℕ → Store
mark_failed s id err_msg now =
    set_row id
      (λ u. record u {
        status = failed;
        error_message = some err_msg;
        failed_at = some now;
        temp_path = none;
      })
      s

unfoldable pub mark_failed_preserve_temp : Store → ℕ → Bytes → Detail → ℕ → Store
mark_failed_preserve_temp s id err_msg detail now =
    set_row id
      (λ u. record u {
        status = failed;
        error_message = some err_msg;
        status_detail = some detail;
        failed_at = some now;
      })
      s
