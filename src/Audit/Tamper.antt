-- ===== src/Audit/Tamper.antt =====
-- VerifyAuditChain, internal/services/log.go, on a log that was changed after it was anchored.
use indelible.Common.{
  ℕ, zero, suc, ◌+◌, ◌≤◌, ◌<◌, ◌≡◌, ◌≢◌, ◌⊎◌, refl, sym, ap, ap₂, subst, ◌∙◌, Bool, true, false,
  not, ◌&&◌, List, [], ◌∷◌, ◌++◌, map, Option, some, arith, ◌==◌, leb, length, take, all, Bytes,
  bytes_eq, bytes_eq_iff, Bool-cases, inl, inr,
}
use indelible.Common.Joins.{is_empty}
use indelible.DownloadCache.{is_hex}
use indelible.Audit.{
  AuditRow, AuditAnchor, Logs, chained, last_hash, links, content, preimage, audit_row_hash,
  verify_rows, note_head, conclude, latest_audit_anchor, audit_chain_head, verify_audit_chain,
}
use indelible.Audit.Chain.{
  linked, linked-verify_rows, verify_rows-linked, head_from, head_from-take, head_from-past,
}
use indelible.Audit.Worker.{HexDigest}

-- Two texts of one digest.
abbrev pub Collision : (Bytes → Bytes) → Type 0
Collision sha256_hex = (x : Bytes) × (y : Bytes) × (x ≢ y) × (sha256_hex x ≡ sha256_hex y)

abbrev pub no_nul : Bytes → Bool
no_nul b = all (λ c. not (c == 0)) b

-- The fields that are hashed hold no NUL byte.
abbrev pub clean : List AuditRow → Bool
clean rs = all (λ r. all no_nul (content r)) rs

abbrev rest_of : Bytes → Bytes
rest_of [] = []
rest_of (x ∷ xs) = xs

abbrev first_of : Bytes → ℕ
first_of [] = 0
first_of (x ∷ xs) = x

abbrev head_of : List Bytes → Bytes
head_of [] = []
head_of (x ∷ xs) = x

abbrev tail_of : List Bytes → List Bytes
tail_of [] = []
tail_of (x ∷ xs) = xs

field-injective :
    (f g xs ys : Bytes)
    → no_nul f ≡ true
    → no_nul g ≡ true
    → (f ++ 0 ∷ []) ++ xs ≡ (g ++ 0 ∷ []) ++ ys
    → (f ≡ g) × (xs ≡ ys)
field-injective [] [] xs ys nf ng e = (refl, ap rest_of e)
field-injective [] (d ∷ g) xs ys nf ng e = let h = ap first_of e in absurd (ground arith)
field-injective (c ∷ f) [] xs ys nf ng e = let h = ap first_of e in absurd (ground arith)
field-injective (c ∷ f) (d ∷ g) xs ys nf ng e =
    let (p, q) = field-injective f g xs ys (ground arith) (ground arith) (ap rest_of e) in
    (ap₂ (λ x l. x ∷ l) (ap first_of e) p, q)

preimage-injective :
    (fs gs : List Bytes)
    → length fs ≡ length gs
    → all no_nul fs ≡ true
    → all no_nul gs ≡ true
    → preimage fs ≡ preimage gs
    → fs ≡ gs
unfolding preimage
preimage-injective [] [] l nf ng e = refl
preimage-injective [] (g ∷ gs) l nf ng e = absurd (omega arith)
preimage-injective (f ∷ fs) [] l nf ng e = absurd (omega arith)
preimage-injective (f ∷ fs) (g ∷ gs) l nf ng e =
    let (p, q) = field-injective f g (preimage fs) (preimage gs) (ground arith) (ground arith) e in
    ap₂ (λ x l. x ∷ l) p (preimage-injective fs gs (omega arith) (ground arith) (ground arith) q)

hex-no_nul : (b : Bytes) → all is_hex b ≡ true → no_nul b ≡ true
hex-no_nul [] h = refl
hex-no_nul (c ∷ b) h = let i = hex-no_nul b in ground arith

module _ (sha256_hex : Bytes → Bytes) (hex : HexDigest sha256_hex) where
  hash-no_nul : (a : Bytes) (fs : List Bytes) → no_nul (audit_row_hash sha256_hex a fs) ≡ true
  unfolding audit_row_hash
  hash-no_nul a fs = hex-no_nul (sha256_hex (preimage (a ∷ fs))) (hex (preimage (a ∷ fs))).1

  hash-injective :
      (a b : Bytes) (r q : AuditRow)
      → no_nul a ≡ true
      → no_nul b ≡ true
      → all no_nul (content r) ≡ true
      → all no_nul (content q) ≡ true
      → audit_row_hash sha256_hex a (content r) ≡ audit_row_hash sha256_hex b (content q)
      → ((a ≡ b) × (content r ≡ content q)) ⊎ Collision sha256_hex
  unfolding audit_row_hash
  hash-injective a b r q na nb nr nq e =
      let x = preimage (a ∷ content r) in
      let y = preimage (b ∷ content q) in
      elim (Bool-cases (bytes_eq x y)) [
        | inl s ↦
            let p =
              preimage-injective (a ∷ content r) (b ∷ content q) (unfold content in refl)
                (ground arith) (ground arith) ((bytes_eq_iff x y).0 s) in
            inl (ap (λ l. head_of l) p, ap (λ l. tail_of l) p)
        | inr s ↦ inr (x, y, (λ p. let t = (bytes_eq_iff x y).1 p in absurd (ground arith)), e)
      ]

  -- Two linked runs of rows of one length that end in one hash started from one hash and have the
  -- same contents, or the digest collides.
  same_or_Collision :
      (a b : Bytes) (rs qs : List AuditRow)
      → no_nul a ≡ true
      → no_nul b ≡ true
      → length rs ≡ length qs
      → clean rs ≡ true
      → clean qs ≡ true
      → linked sha256_hex a rs ≡ true
      → linked sha256_hex b qs ≡ true
      → last_hash a rs ≡ last_hash b qs
      → ((a ≡ b) × (map content rs ≡ map content qs)) ⊎ Collision sha256_hex
  unfolding linked links
  same_or_Collision a b [] [] na nb l cr cq lr lq e = inl (e, refl)
  same_or_Collision a b [] (q ∷ qs) na nb l cr cq lr lq e = absurd (omega arith)
  same_or_Collision a b (r ∷ rs) [] na nb l cr cq lr lq e = absurd (omega arith)
  same_or_Collision a b (r ∷ rs) (q ∷ qs) na nb l cr cq lr lq e =
      let hr =
        (bytes_eq_iff r.row_hash (audit_row_hash sha256_hex a (content r))).0 (ground arith) in
      let hq =
        (bytes_eq_iff q.row_hash (audit_row_hash sha256_hex b (content q))).0 (ground arith) in
      let nr : no_nul r.row_hash ≡ true = rw hr (hash-no_nul a (content r)) in
      let nq : no_nul q.row_hash ≡ true = rw hq (hash-no_nul b (content q)) in
      elim (same_or_Collision r.row_hash q.row_hash rs qs nr nq (omega arith) (ground arith)
        (ground arith) (ground arith) (ground arith) e) [
          | inr c ↦ inr c
          | inl (h, m) ↦
              elim (hash-injective a b r q na nb (ground arith) (ground arith) (sym hr ∙ h ∙ hq)) [
                | inr c ↦ inr c
                | inl (p, k) ↦ inl (p, ap₂ (λ x y. x ∷ y) k m)
              ]
        ]

linked-take :
    (sha256_hex : Bytes → Bytes) (a : Bytes) (n : ℕ) (rs : List AuditRow)
    → linked sha256_hex a rs ≡ true
    → linked sha256_hex a (take n rs) ≡ true
unfolding linked
linked-take sha256_hex a zero rs h = refl
linked-take sha256_hex a (suc n) [] h = refl
linked-take sha256_hex a (suc n) (r ∷ rs) h =
    let i = linked-take sha256_hex r.row_hash n rs (ground arith) in ground arith

clean-take : (n : ℕ) (rs : List AuditRow) → clean rs ≡ true → clean (take n rs) ≡ true
clean-take zero rs h = refl
clean-take (suc n) [] h = refl
clean-take (suc n) (r ∷ rs) h = let i = clean-take n rs (ground arith) in ground arith

length-take : (n : ℕ) (rs : List AuditRow) → n ≤ length rs → length (take n rs) ≡ n
length-take zero rs h = refl
length-take (suc n) [] h = absurd (omega arith)
length-take (suc n) (r ∷ rs) h = let i = length-take n rs (omega arith) in omega (arith, i)

head_from-short :
    (a : AuditAnchor) (count : ℕ) (head_at : Bytes) (rs : List AuditRow)
    → count + length rs < a.row_count
    → head_from (some a) count head_at rs ≡ head_at
unfolding head_from note_head
head_from-short a count head_at [] h = refl
head_from-short a count head_at (r ∷ rs) h =
    let n : (count + 1 == a.row_count) ≡ false = ground arith in
    rw n (head_from-short a (count + 1) head_at rs (omega arith))

matches_at :
    (a : AuditAnchor) (rows : List AuditRow) (n : ℕ)
    → a.row_count ≡ n
    → (not (is_empty (head_from (some a) 0 [] rows))
        && bytes_eq (head_from (some a) 0 [] rows) a.head_hash)
      ≡ true
    → (n ≤ length rows) × (last_hash [] (take n rows) ≡ a.head_hash)
matches_at a rows zero e h =
    let p = head_from-past a 0 [] rows (omega arith) in absurd (ground arith)
matches_at a rows (suc n) e h = elim (Bool-cases (leb (suc n) (length rows))) [
  | inl l ↦
      let r : suc n ≤ length rows = ground arith in
      let t = head_from-take a n 0 [] [] rows (omega arith) r in
      (r, sym t ∙ (bytes_eq_iff (head_from (some a) 0 [] rows) a.head_hash).0 (ground arith))
  | inr l ↦ let p = head_from-short a 0 [] rows (ground arith) in absurd (ground arith)
]

linked-matched :
    (sha256_hex : Bytes → Bytes) (anchor : Option AuditAnchor) (prev : Bytes) (count : ℕ)
    (head_at : Bytes) (rs : List AuditRow)
    → (verify_rows sha256_hex anchor prev count head_at rs).anchor_matches ≡ true
    → linked sha256_hex prev rs ≡ true
unfolding linked verify_rows
linked-matched sha256_hex anchor prev count head_at [] h = refl
linked-matched sha256_hex anchor prev count head_at (r ∷ rs) h =
    elim (Bool-cases (links sha256_hex prev r)) [
      | inl e ↦ rw e (
          linked-matched sha256_hex anchor r.row_hash (count + 1)
            (note_head anchor (count + 1) r.row_hash head_at) rs (rw (← h) (rw e refl)))
      | inr e ↦ let y : false ≡ true = rw (← h) (rw e refl) in absurd (ground arith)
    ]

-- The logs `was`, intact, had the head and the count of the anchor `a`. If later logs `now` have `a`
-- as their latest anchor and verification reports that it matches, then the first rows of `now`, as
-- many as `was` had, have the contents of those of `was`, or two texts of one digest are known:
-- provided the digest is in hexadecimal and no hashed field holds a NUL byte.
pub verify_audit_chain-anchored :
    (sha256_hex : Bytes → Bytes) (was now : Logs) (a : AuditAnchor)
    → HexDigest sha256_hex
    → clean (chained was.audit_log) ≡ true
    → clean (chained now.audit_log) ≡ true
    → (verify_audit_chain sha256_hex was).intact ≡ true
    → audit_chain_head was ≡ (a.head_hash, a.row_count)
    → latest_audit_anchor now ≡ some a
    → (verify_audit_chain sha256_hex now).anchor_matches ≡ true
    → (map content (take a.row_count (chained now.audit_log)) ≡ map content (chained was.audit_log))
      ⊎ Collision sha256_hex
unfolding verify_audit_chain audit_chain_head
verify_audit_chain-anchored sha256_hex was now a hex cw cn iw head latest m =
    let old = chained was.audit_log in
    let rows = chained now.audit_log in
    let lw = linked-verify_rows sha256_hex (latest_audit_anchor was) [] 0 [] old iw in
    let ln = linked-matched sha256_hex (latest_audit_anchor now) [] 0 [] rows m in
    let v = verify_rows-linked sha256_hex (latest_audit_anchor now) [] 0 [] rows ln in
    let c : (conclude (some a) (0 + length rows) (head_from (some a) 0 [] rows)).anchor_matches
        ≡ true =
      subst (λ o. (conclude o (0 + length rows) (head_from o 0 [] rows)).anchor_matches ≡ true)
        latest (ap (λ r. r.anchor_matches) (sym v) ∙ m) in
    let (reached, same) = matches_at a rows a.row_count refl (unfold conclude in c) in
    let hash = ap (λ p. p.0) head in
    let count = ap (λ p. p.1) head in
    let n = length-take a.row_count rows reached in
    elim (same_or_Collision sha256_hex hex [] [] (take a.row_count rows) old refl refl
      (n ∙ sym count) (clean-take a.row_count rows cn) cw
      (linked-take sha256_hex [] a.row_count rows ln) lw (same ∙ sym hash)) [
        | inl (p, k) ↦ inl k
        | inr x ↦ inr x
      ]
