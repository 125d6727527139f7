-- ===== src/Token/Validity.antt =====
-- Which tokens a secret opens, and that a revoked one opens nothing.
use indelible.Common.{
  ℕ, ◌≤◌, ◌≡◌, ◌⊎◌, refl, sym, ap, subst, ◌∙◌, Bool, true, false, not, ◌&&◌, List, [], ◌∷◌, Option,
  none, some, arith, ◌==◌, if◌then◌else◌, keep, elem, Bytes, Result, ok, err, Bool-cases, In,
  KeepsRows, inl, inr,
}
use indelible.Common.Sql.{update, affected}
use indelible.Token.{
  Token, Tokens, TokenError, token_not_found, constraint_error, is_null, is_expired, is_dangling,
  first_match, validate_secret, revoke_where, revoke, revoke_all_by_user, bulk_revoke,
  nullable_revoked_by, not_found_at_zero,
}

-- A token without an expiry is valid for ever, another one up to its expiry.
abbrev pub Unexpired : ℕ → Option ℕ → Type 0
Unexpired now none = Unit
Unexpired now (some e) = now ≤ e

-- What a lookup among some rows returns: one of them of a kind, or an error where none is.
pub data Picks (P : Token → Type 0) (rows : List Token) : Result TokenError Token → Type 0 where
  picked : (t : Token) → In t rows → P t → Picks P rows (ok t)
  none_left : ((t : Token) → In t rows → ¬ P t) → Picks P rows (err token_not_found)

-- What a revocation comes to: the foreign key refuses it, for a revoking user who does not exist, and
-- nothing changes, or a secret opens afterwards what it opened before among the other tokens.
pub data Revokes (Fails Takes : Type 0) (s s' : Tokens) (by : ℕ) : Type 0 where
  refused :
      Fails → (by == 0) ≡ false → elem by s.users ≡ false → s' ≡ s → Revokes Fails Takes s s' by
  taken : ¬ Fails → Takes → Revokes Fails Takes s s' by

skip :
    (P : Token → Type 0) (t : Token) (ts : List Token) (r : Result TokenError Token)
    → ¬ P t
    → Picks P ts r
    → Picks P (t ∷ ts) r
skip P t ts _ n (picked u i o) = picked u (inr i) o
skip P t ts _ n (none_left h) =
    none_left (λ u i o. elim i [ inl e ↦ n (subst P (sym e) o) | inr j ↦ h u j o ])

carry :
    (P Q : Token → Type 0) (ts us : List Token) (r : Result TokenError Token)
    → ((t : Token) → In t ts → P t → In t us × Q t)
    → ((t : Token) → In t us → Q t → In t ts × P t)
    → Picks P ts r
    → Picks Q us r
carry P Q ts us _ f g (picked t i o) = picked t (f t i o).0 (f t i o).1
carry P Q ts us _ f g (none_left h) = none_left (λ t i o. h t (g t i o).0 (g t i o).1)

module _ (matches : Bytes → Bytes → Bool) where
  -- A token that a secret opens at a time.
  abbrev pub Valid : ℕ → Bytes → Token → Type 0
  Valid now secret t =
      (t.revoked_at ≡ none) × Unexpired now t.expires_at × (matches t.token_hash secret ≡ true)

  abbrev Opens : ℕ → Bytes → Token → Type 0
  Opens now secret t = Unexpired now t.expires_at × (matches t.token_hash secret ≡ true)

  expired : (now : ℕ) (o : Option ℕ) → is_expired now o ≡ true → ¬ Unexpired now o
  expired now none h u = absurd (cc)
  expired now (some e) h u = absurd (ground arith)

  unexpired : (now : ℕ) (o : Option ℕ) → is_expired now o ≡ false → Unexpired now o
  unexpired now none h = tt
  unexpired now (some e) h = ground arith

  first_match-Picks :
      (now : ℕ) (secret : Bytes) (ts : List Token)
      → Picks (Opens now secret) ts (first_match matches now secret ts)
  unfolding first_match
  first_match-Picks now secret [] = none_left (λ t i o. absurd i)
  first_match-Picks now secret (t ∷ ts) =
      let ih = first_match-Picks now secret ts in
      elim (Bool-cases (is_expired now t.expires_at)) [
        | inl x ↦ rw x (skip (Opens now secret) t ts _ (λ o. expired now t.expires_at x o.0) ih)
        | inr x ↦ elim (Bool-cases (matches t.token_hash secret)) [
          | inl m ↦ rw (x, m) (picked t (inl refl) (unexpired now t.expires_at x, m))
          | inr m ↦ rw (x, m) (skip (Opens now secret) t ts _ (λ o. absurd (cc)) ih)
        ]
      ]

  of_null : (o : Option ℕ) → is_null o ≡ true → o ≡ none
  of_null none h = refl
  of_null (some x) h = absurd (cc)

  In-live :
      (t : Token) (ts : List Token)
      → In t (keep (λ x. is_null x.revoked_at) ts)
      → In t ts × (t.revoked_at ≡ none)
  In-live t [] i = absurd i
  In-live t (x ∷ ts) i = live (is_null x.revoked_at) refl (In-live t ts) i
    where
      live :
          (b : Bool)
          → is_null x.revoked_at ≡ b
          → (In t (keep (λ y. is_null y.revoked_at) ts) → In t ts × (t.revoked_at ≡ none))
          → In t (
              if b
              then x ∷ keep (λ y. is_null y.revoked_at) ts
              else keep (λ y. is_null y.revoked_at) ts)
          → In t (x ∷ ts) × (t.revoked_at ≡ none)
      live true e f (inl q) = (inl q, ap (λ y. y.revoked_at) (sym q) ∙ of_null x.revoked_at e)
      live true e f (inr j) = (inr (f j).0, (f j).1)
      live false e f j = (inr (f j).0, (f j).1)

  live-In :
      (t : Token) (ts : List Token)
      → In t ts
      → t.revoked_at ≡ none
      → In t (keep (λ x. is_null x.revoked_at) ts)
  live-In t [] i n = absurd i
  live-In t (x ∷ ts) (inl q) n =
      let e : is_null x.revoked_at ≡ true = rw (q, n) refl in rw e (inl q)
  live-In t (x ∷ ts) (inr j) n = elim (Bool-cases (is_null x.revoked_at)) [
    | inl e ↦ rw e (inr (live-In t ts j n))
    | inr e ↦ rw e (live-In t ts j n)
  ]

  module _ (arrange : List Token → List Token) (keeps : KeepsRows arrange) where
    -- Whatever order the rows come in, ValidateSecret returns a token of the table that is not
    -- revoked, whose expiry, if it has one, is not past, and whose hash matches the secret, and fails
    -- exactly where there is none.
    pub validate_secret-Picks :
        (s : Tokens) (secret : Bytes) (now : ℕ)
        → Picks (Valid now secret) s.rows (validate_secret matches arrange s secret now)
    unfolding validate_secret
    validate_secret-Picks s secret now =
        let live = keep (λ t. is_null t.revoked_at) s.rows in
        carry (Opens now secret) (Valid now secret) (arrange live) s.rows _
          (λ t i o. let l = In-live t s.rows ((keeps t live).0 i) in (l.0, (l.1, o.0, o.1)))
          (λ t i v. ((keeps t live).1 (live-In t s.rows i v.0), (v.1, v.2)))
          (first_match-Picks now secret (arrange live))

  revoked : ℕ → Bytes → ℕ → Token → Token
  revoked revoked_by reason now t = record t {
    revoked_at = some now;
    revoked_by = nullable_revoked_by revoked_by;
    revoke_reason = some reason;
  }

  In-revoked :
      (p : Token → Bool) (by : ℕ) (reason : Bytes) (at : ℕ) (t : Token) (ts : List Token)
      → In t (update (λ x. p x && is_null x.revoked_at) (revoked by reason at) ts)
      → t.revoked_at ≡ none
      → In t ts × (p t ≡ false)
  unfolding update revoked
  In-revoked p by reason at t [] i n = absurd i
  In-revoked p by reason at t (x ∷ ts) (inr j) n =
      let r = In-revoked p by reason at t ts j n in (inr r.0, r.1)
  In-revoked p by reason at t (x ∷ ts) (inl q) n = first (p x && is_null x.revoked_at) refl q
    where
      first :
          (b : Bool)
          → (p x && is_null x.revoked_at) ≡ b
          → (if b then revoked by reason at x else x) ≡ t
          → In t (x ∷ ts) × (p t ≡ false)
      first true e q' = let y : some at ≡ none = ap (λ u. u.revoked_at) q' ∙ n in absurd (cc)
      first false e q' =
          let m : is_null x.revoked_at ≡ true = rw (q', n) refl in
          (inl q', subst (λ u. p u ≡ false) q' (ground arith))

  revoked-In :
      (p : Token → Bool) (by : ℕ) (reason : Bytes) (at : ℕ) (t : Token) (ts : List Token)
      → In t ts
      → p t ≡ false
      → In t (update (λ x. p x && is_null x.revoked_at) (revoked by reason at) ts)
  unfolding update
  revoked-In p by reason at t [] i n = absurd i
  revoked-In p by reason at t (x ∷ ts) (inl q) n =
      let e : p x ≡ false = rw (q, n) refl in rw e (inl q)
  revoked-In p by reason at t (x ∷ ts) (inr j) n = inr (revoked-In p by reason at t ts j n)

  -- A token outside a revocation.
  abbrev pub Others : (Token → Bool) → ℕ → Bytes → Token → Type 0
  Others p now secret t = (p t ≡ false) × Valid now secret t

  -- What a secret opens after a revocation of some tokens.
  abbrev pub OpensOthers :
      (List Token → List Token) → (Token → Bool) → Tokens → Tokens → Bytes → ℕ → Type 0
  OpensOthers arrange p s s' secret now =
      Picks (Others p now secret) s.rows (validate_secret matches arrange s' secret now)

  module _ (arrange : List Token → List Token) (keeps : KeepsRows arrange) where
    OpensOthers-revoke :
        (p : Token → Bool) (s : Tokens) (by : ℕ) (reason secret : Bytes) (at now : ℕ)
        → OpensOthers arrange p s
            (record s {
              rows = update (λ t. p t && is_null t.revoked_at) (revoked by reason at) s.rows;
            })
            secret
            now
    OpensOthers-revoke p s by reason secret at now =
        let s' = record s {
          rows = update (λ t. p t && is_null t.revoked_at) (revoked by reason at) s.rows;
        } in
        carry (Valid now secret) (Others p now secret) s'.rows s.rows _
          (λ t i v. let l = In-revoked p by reason at t s.rows i v.0 in (l.0, (l.1, v)))
          (λ t i o. (revoked-In p by reason at t s.rows i o.0, o.1))
          (validate_secret-Picks arrange keeps s' secret now)

    dangling :
        (users : List ℕ) (by : ℕ)
        → is_dangling users (nullable_revoked_by by) ≡ true
        → ((by == 0) ≡ false) × (elem by users ≡ false)
    unfolding nullable_revoked_by
    dangling users by d = elim (Bool-cases (by == 0)) [
      | inl z ↦ let y : false ≡ true = rw (← d) (rw z refl) in absurd (cc)
      | inr z ↦ (z, let y : not (elem by users) ≡ true = rw (← d) (rw z refl) in ground arith)
    ]

    -- The two ways in which the UPDATE ends.
    abbrev Ends : (Token → Bool) → Tokens → ℕ → Bytes → ℕ → Tokens × Result TokenError ℕ → Type 0
    Ends p s by secret now r =
        ((r ≡ (s, err constraint_error)) × ((by == 0) ≡ false) × (elem by s.users ≡ false))
        ⊎ ((n : ℕ) × (r.1 ≡ ok n) × OpensOthers arrange p s r.0 secret now)

    revoke_where-Ends :
        (p : Token → Bool) (s : Tokens) (by : ℕ) (reason secret : Bytes) (at now : ℕ)
        → Ends p s by secret now (revoke_where p s by reason at)
    unfolding revoke_where revoked
    revoke_where-Ends p s by reason secret at now =
        let n = affected (λ t. p t && is_null t.revoked_at) s.rows in
        elim (Bool-cases (is_dangling s.users (nullable_revoked_by by) && not (n == 0))) [
          | inl d ↦ let k = dangling s.users by (ground arith) in rw d (inl (refl, k.0, k.1))
          | inr d ↦ rw d (inr (n, refl, OpensOthers-revoke p s by reason secret at now))
        ]

    no_constraint : (n : ℕ) → ¬ (not_found_at_zero (ok n) ≡ some constraint_error)
    no_constraint n e = elim (Bool-cases (n == 0)) [
      | inl z ↦
          let y : some token_not_found ≡ some constraint_error = rw (← e) (rw z refl) in absurd (cc)
      | inr z ↦ let y : none ≡ some constraint_error = rw (← e) (rw z refl) in absurd (cc)
    ]

    of_Ends :
        (p : Token → Bool) (s : Tokens) (by : ℕ) (secret : Bytes) (now : ℕ)
        (r : Tokens × Result TokenError ℕ)
        → Ends p s by secret now r
        → Revokes (r.1 ≡ err constraint_error) (OpensOthers arrange p s r.0 secret now) s r.0 by
    of_Ends p s by secret now r (inl (e, z, u)) = refused (ap (λ x. x.1) e) z u (ap (λ x. x.0) e)
    of_Ends p s by secret now r (inr (n, e, o)) = taken (λ c. absurd (cc)) o

    of_Ends_one :
        (p : Token → Bool) (s : Tokens) (by : ℕ) (secret : Bytes) (now : ℕ)
        (r : Tokens × Result TokenError ℕ)
        → Ends p s by secret now r
        → Revokes
            (not_found_at_zero r.1 ≡ some constraint_error)
            (OpensOthers arrange p s r.0 secret now)
            s
            r.0
            by
    of_Ends_one p s by secret now r (inl (e, z, u)) =
        refused (ap (λ x. not_found_at_zero x.1) e) z u (ap (λ x. x.0) e)
    of_Ends_one p s by secret now r (inr (n, e, o)) =
        taken (λ c. no_constraint n (ap not_found_at_zero (sym e) ∙ c)) o

    -- A revocation, of one token, of all tokens of a user, or of a list of ids, either fails on the
    -- foreign key, which only a nonzero revoking user who does not exist brings about, and changes
    -- nothing, or takes exactly those tokens away: every secret then validates, at any later or earlier
    -- time and in whatever order the rows come, to one of the other tokens that is valid for it, and
    -- fails exactly where there is none.
    pub validate_secret-revoke :
        (s : Tokens) (id user_id by : ℕ) (ids : List ℕ) (reason secret : Bytes) (at now : ℕ)
        → Revokes
            ((revoke s id by reason at).1 ≡ some constraint_error)
            (OpensOthers arrange (λ t. t.id == id) s (revoke s id by reason at).0 secret now)
            s
            (revoke s id by reason at).0
            by
          × Revokes
              ((revoke_all_by_user s user_id by reason at).1 ≡ err constraint_error)
              (OpensOthers arrange
                (λ t. t.user_id == user_id)
                s
                (revoke_all_by_user s user_id by reason at).0
                secret
                now)
              s
              (revoke_all_by_user s user_id by reason at).0
              by
          × Revokes
              ((bulk_revoke s ids by reason at).1 ≡ err constraint_error)
              (OpensOthers arrange
                (λ t. elem t.id ids)
                s
                (bulk_revoke s ids by reason at).0
                secret
                now)
              s
              (bulk_revoke s ids by reason at).0
              by
    unfolding revoke revoke_all_by_user bulk_revoke
    validate_secret-revoke s id user_id by ids reason secret at now = (
      of_Ends_one (λ t. t.id == id) s by secret now _
          (revoke_where-Ends (λ t. t.id == id) s by reason secret at now),
      of_Ends (λ t. t.user_id == user_id) s by secret now _
          (revoke_where-Ends (λ t. t.user_id == user_id) s by reason secret at now),
      bulk ids,
    )
      where
        bulk :
            (l : List ℕ)
            → Revokes
                ((bulk_revoke s l by reason at).1 ≡ err constraint_error)
                (OpensOthers arrange
                  (λ t. elem t.id l)
                  s
                  (bulk_revoke s l by reason at).0
                  secret
                  now)
                s
                (bulk_revoke s l by reason at).0
                by
        bulk [] =
            taken (λ c. absurd (cc))
              (carry (Valid now secret) (Others (λ t. false) now secret) s.rows s.rows _
                (λ t i v. (i, (refl, v))) (λ t i o. (i, o.1))
                (validate_secret-Picks arrange keeps s secret now))
        bulk (i ∷ l) =
            of_Ends (λ t. elem t.id (i ∷ l)) s by secret now _
              (revoke_where-Ends (λ t. elem t.id (i ∷ l)) s by reason secret at now)
