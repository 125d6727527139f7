-- ===== src/Upload/Keys/Backfill.antt =====
-- BackfillCacheKeys of internal/services/upload.go, and the stored cache keys.
use indelible.Common.{
  ℕ, ◌≡◌, ◌≤◌, ◌∙◌, refl, sym, not, false, map, elem, Distinct, Option, All-mono, if◌then◌else◌,
  true, List, [], ◌∷◌, none, some, ◌==◌, arith, any, All, Bool-cases, inl, inr, ◌&&◌, ◌||◌, Bytes,
  bytes_eq, subst, some-injective,
}
use indelible.Common.Sql.{update, All-update}
use indelible.Upload.Row.{Upload, Store, set_row}
use indelible.Upload.Marks.{
  is_empty, key_for_identifier, or_empty, is_null, identifier_of, unstamped, stamp,
  backfill_cache_keys,
}
use indelible.Upload.Removal.{add_key, cache_keys}
use indelible.Upload.Keys.{Covered, from_data_map, from_address}
use indelible.Upload.Keys.Ids.{ids-update}
use indelible.Upload.Keys.Rows.{AllCovered}

module _ (sha256_hex : Bytes → Bytes) where
  -- A key is among those of the rows of an id.
  abbrev Justified : List Upload → ℕ × Bytes → Type 0
  Justified us (id, key) =
      All
        (λ u.
          (u.id == id) ≡ true
          → (is_empty key || any (bytes_eq key) (cache_keys sha256_hex u)) ≡ true)
        us

  identified-of :
      (o a : Option Bytes)
      → let key =
          key_for_identifier sha256_hex
            (if is_empty (or_empty o) then or_empty a else or_empty o) in
        (is_empty key || any (bytes_eq key) (add_key sha256_hex (add_key sha256_hex [] o) a)) ≡ true
  identified-of none none = unfold key_for_identifier in refl
  identified-of none (some x) = from_address sha256_hex x (add_key sha256_hex [] none)
  identified-of (some d) none = elim (Bool-cases (is_empty d)) [
    | inl e ↦ rw e (unfold key_for_identifier in refl)
    | inr e ↦ rw e (from_data_map sha256_hex d none)
  ]
  identified-of (some d) (some x) = elim (Bool-cases (is_empty d)) [
    | inl e ↦ rw e (from_address sha256_hex x (add_key sha256_hex [] (some d)))
    | inr e ↦ rw e (from_data_map sha256_hex d (some x))
  ]

  identified :
      (u : Upload)
      → (is_empty (key_for_identifier sha256_hex (identifier_of u))
          || any
              (bytes_eq (key_for_identifier sha256_hex (identifier_of u)))
              (cache_keys sha256_hex u))
        ≡ true
  unfolding identifier_of cache_keys
  identified u = identified-of u.data_map u.datamap_address

  absent-Justified :
      (id : ℕ) (key : Bytes) (us : List Upload)
      → elem id (map (λ u. u.id) us) ≡ false
      → Justified us (id, key)
  absent-Justified id key [] h = tt
  absent-Justified id key (u ∷ us) h =
      ((λ e. absurd (ground arith)), absent-Justified id key us (ground arith))

  unstamped-Justified :
      (us : List Upload)
      → Distinct (map (λ u. u.id) us)
      → All (λ p. Justified us p × (elem p.0 (map (λ u. u.id) us) ≡ true)) (unstamped sha256_hex us)
  unfolding unstamped
  unstamped-Justified [] d = tt
  unstamped-Justified (u ∷ us) d =
      let rest =
        All-mono (unstamped sha256_hex us) (λ p h. later p h.0 h.1) (unstamped-Justified us d.1) in
      elim (Bool-cases (is_null u.cache_key && not (is_empty (identifier_of u)))) [
        | inr e ↦ rw e rest
        | inl e ↦ rw e ((((λ _. identified u), absent-Justified u.id _ us d.0), ground arith), rest)
      ]
    where
      later :
          (p : ℕ × Bytes)
          → Justified us p
          → elem p.0 (map (λ v. v.id) us) ≡ true
          → Justified (u ∷ us) p × (elem p.0 (map (λ v. v.id) (u ∷ us)) ≡ true)
      later (i, key) h m = (
        (
          (λ e.
              let same : u.id ≡ i = ground arith in
              let y : false ≡ true =
                sym (subst (λ x. elem x (map (λ v. v.id) us) ≡ false) same d.0) ∙ m in
              absurd (cc)),
          h,
        ),
        ground arith,
      )

  stamp-AllCovered :
      (todo : List (ℕ × Bytes)) (s : Store)
      → All (Justified s.uploads) todo
      → AllCovered sha256_hex s
      → AllCovered sha256_hex (stamp todo s)
  unfolding stamp cache_keys update
  stamp-AllCovered [] s j a = a
  stamp-AllCovered ((id, key) ∷ todo) s j a =
      let f : Upload → Upload = λ u. record u { cache_key = some key } in
      let held : Upload → ℕ × Bytes → Type 0 = λ u p.
        (u.id == p.0) ≡ true
        → (is_empty p.1 || any (bytes_eq p.1) (cache_keys sha256_hex u)) ≡ true in
      stamp-AllCovered todo (set_row id f s)
        (All-mono todo
          (λ p h. All-update (λ u. held u p) (λ u. u.id == id) f s.uploads h (λ u e x. x)) j.1)
        (record {
          rows = stamped s.uploads a.rows j.0;
          distinct =
              subst Distinct (sym (ids-update (λ u. u.id == id) f s.uploads (λ u. refl)))
                a.distinct;
          bounded =
              All-update (λ u. u.id ≤ s.upload_seq) (λ u. u.id == id) f s.uploads a.bounded
                (λ u e l. l);
        })
    where
      stamped :
          (us : List Upload)
          → All (Covered sha256_hex) us
          → Justified us (id, key)
          → All
              (Covered sha256_hex)
              (update (λ u. u.id == id) (λ u. record u { cache_key = some key }) us)
      stamped [] c h = tt
      stamped (u ∷ us) c h = elim (Bool-cases (u.id == id)) [
        | inr e ↦ rw e (c.0, stamped us c.1 h.1)
        | inl e ↦ rw e (
          (λ k q.
              subst (λ x. (is_empty x || any (bytes_eq x) (cache_keys sha256_hex u)) ≡ true)
                (some-injective _ _ q) (h.0 e)),
          stamped us c.1 h.1,
        )
      ]

  pub backfill-AllCovered :
      (s : Store)
      → AllCovered sha256_hex s
      → AllCovered sha256_hex (backfill_cache_keys sha256_hex s).0
  unfolding backfill_cache_keys
  backfill-AllCovered s a =
      stamp-AllCovered (unstamped sha256_hex s.uploads) s
        (All-mono (unstamped sha256_hex s.uploads) (λ p h. h.0)
          (unstamped-Justified s.uploads a.distinct))
        a
