-- ===== src/Wallet/Default.antt =====
-- The calls of internal/services/wallet.go in any sequence, one after the other.
use indelible.Common.{
  ℕ, suc, ◌≡◌, ◌≤◌, refl, sym, ap, subst, ◌∙◌, Bool, true, false, List, [], ◌∷◌, ◌++◌, some, map,
  ◌==◌, if◌then◌else◌, find, any, elem, keep, keep-append, length, length-append, Distinct, All,
  All-mono, All-append, arith, Bool-cases, Option-cases, inl, inr, Bytes,
}
use indelible.Common.Sql.{update, delete, affected, All-update}
use indelible.Common.Joins.{is_empty}
use indelible.Crypto.{Primitives, Keyring, encrypt_envelope}
use indelible.Wallet.{
  Wallet, Wallets, has_id, insert_wallet, create_wallet, set_default, delete_wallet, update_balance,
}
use indelible.Wallet.Found.{found-Single, affected-kept, single-kept, All-kept}
use indelible.Wallet.Ids.{elem-above, Distinct-append, ids-update, Distinct-delete, affected-one}

pub data Call : Type 0 where
  creates : Bytes → Bytes → Bytes → Bytes → ℕ → Call
  sets_default : ℕ → ℕ → Call
  deletes : ℕ → Call
  updates_balance : ℕ → Bytes → Bytes → ℕ → Call
  -- Another service records a transaction that a wallet paid.
  pays : ℕ → Call

unfoldable pub step : Primitives → Keyring → Wallets → Call → Wallets
step p kr db (creates nonce name address private_key now) =
    (create_wallet p kr nonce db name address private_key now).0
step p kr db (sets_default id now) = (set_default db id now).0
step p kr db (deletes id) = (delete_wallet db id).0
step p kr db (updates_balance id payment gas now) = update_balance db id payment gas now
step p kr db (pays id) = record db { paid = id ∷ db.paid }

unfoldable pub run : Primitives → Keyring → Wallets → List Call → Wallets
run p kr db [] = db
run p kr db (c ∷ cs) = run p kr (step p kr db c) cs

-- No id stands twice or above the last one given out, and one wallet is the default, if there is one.
pub record OneDefault (db : Wallets) : Type 0 where
  pub distinct : Distinct (map (λ w. w.id) db.wallets)
  pub given : All (λ w. w.id ≤ db.wallet_seq) db.wallets
  pub single : affected (λ w. w.is_default) db.wallets ≡ (if is_empty db.wallets then 0 else 1)

-- The default rows after SetDefault are those of its id.
set-affected :
    (id now : ℕ) (ws : List Wallet)
    → affected
        (λ w. w.is_default)
        (update
          (has_id id)
          (λ w. record w { is_default = true; updated_at = now })
          (update (λ _. true) (λ w. record w { is_default = false }) ws))
      ≡ affected (has_id id) ws
unfolding update
set-affected id now [] = refl
set-affected id now (w ∷ ws) = elim (Bool-cases (w.id == id)) [
  | inl e ↦ rw e (ap suc (set-affected id now ws))
  | inr e ↦ rw e (set-affected id now ws)
]

is_empty-update :
    (q : Wallet → Bool) (f : Wallet → Wallet) (ws : List Wallet)
    → is_empty (update q f ws) ≡ is_empty ws
unfolding update
is_empty-update q f [] = refl
is_empty-update q f (w ∷ ws) = refl

filled : (id : ℕ) (ws : List Wallet) → any (has_id id) ws ≡ true → is_empty ws ≡ false
filled id [] h = absurd (cc)
filled id (w ∷ ws) h = refl

set-OneDefault : (db : Wallets) (id now : ℕ) → OneDefault db → OneDefault (set_default db id now).0
unfolding set_default
set-OneDefault db id now o = elim (Bool-cases (any (has_id id) db.wallets)) [
  | inr x ↦ rw x o
  | inl x ↦
      let cleared = update (λ _. true) (λ w. record w { is_default = false }) db.wallets in
      let f : Wallet → Wallet = λ w. record w { is_default = true; updated_at = now } in
      rw x (record {
        distinct =
            subst Distinct
              (sym (
                ids-update (has_id id) f cleared (λ w. refl)
                ∙ ids-update (λ _. true) (λ w. record w { is_default = false }) db.wallets
                    (λ w. refl)))
              o.distinct;
        given =
            All-update (λ w. w.id ≤ db.wallet_seq) (has_id id) f cleared
              (All-update (λ w. w.id ≤ db.wallet_seq) (λ _. true)
                (λ w. record w { is_default = false }) db.wallets o.given (λ w e h. h))
              (λ w e h. h);
        single =
            set-affected id now db.wallets
            ∙ affected-one id db.wallets o.distinct x
            ∙ (rw
                (
                  is_empty-update (has_id id) f cleared,
                  is_empty-update (λ _. true) (λ w. record w { is_default = false }) db.wallets,
                  filled id db.wallets x,
                )
                refl);
      })
]

-- A new row is the default just where it is the first.
affected-insert :
    (ws : List Wallet) (v : Wallet)
    → v.is_default ≡ (length ws == 0)
    → affected (λ w. w.is_default) ws ≡ (if is_empty ws then 0 else 1)
    → affected (λ w. w.is_default) (ws ++ v ∷ []) ≡ (if is_empty (ws ++ v ∷ []) then 0 else 1)
affected-insert [] v e h = rw e refl
affected-insert (w ∷ ws) v e h =
    let n : v.is_default ≡ false = e ∙ (ground arith) in
    let last : affected (λ x. x.is_default) (v ∷ []) ≡ 0 = rw n refl in
    ap length (keep-append (λ x. x.is_default) (w ∷ ws) (v ∷ []))
    ∙ length-append (keep (λ x. x.is_default) (w ∷ ws)) (keep (λ x. x.is_default) (v ∷ []))
    ∙ (omega (arith, h, last))

insert-OneDefault :
    (db : Wallets) (name address key : Bytes) (now : ℕ)
    → OneDefault db
    → OneDefault (insert_wallet db name address key now)
insert-OneDefault db name address key now o =
    let new : Wallet = record {
      id = suc db.wallet_seq;
      name = name;
      address = address;
      encrypted_key = key;
      is_default = length db.wallets == 0;
      payment_balance = 48 ∷ [];
      gas_balance = 48 ∷ [];
      updated_at = now;
    } in
    record {
      distinct =
          Distinct-append db.wallets new (elem-above db.wallet_seq db.wallets o.given) o.distinct;
      given =
          All-append (λ w. w.id ≤ suc db.wallet_seq) db.wallets (new ∷ [])
            (All-mono db.wallets (λ w h. omega (arith, h)) o.given) (omega arith, tt);
      single = affected-insert db.wallets new refl o.single;
    }

create-OneDefault :
    (p : Primitives) (kr : Keyring) (nonce : Bytes) (db : Wallets) (name address key : Bytes)
    (now : ℕ)
    → OneDefault db
    → OneDefault (create_wallet p kr nonce db name address key now).0
unfolding create_wallet
create-OneDefault p kr nonce db name address key now o =
    elim (Option-cases (encrypt_envelope p kr nonce key)) [
      | inl x ↦ rw (x, create_wallet) o
      | inr (e, x) ↦ rw (x, create_wallet) (insert-OneDefault db name address e now o)
    ]

affected-update :
    (id : ℕ) (payment gas : Bytes) (now : ℕ) (ws : List Wallet)
    → affected
        (λ w. w.is_default)
        (update
          (has_id id)
          (λ w. record w { payment_balance = payment; gas_balance = gas; updated_at = now })
          ws)
      ≡ affected (λ w. w.is_default) ws
unfolding update
affected-update id payment gas now [] = refl
affected-update id payment gas now (w ∷ ws) =
    let i = affected-update id payment gas now ws in
    elim (Bool-cases (w.id == id)) [
      | inl e ↦ elim (Bool-cases w.is_default) [
        | inl x ↦ rw (e, x) (ap suc i)
        | inr x ↦ rw (e, x) i
      ]
      | inr e ↦ elim (Bool-cases w.is_default) [
        | inl x ↦ rw (e, x) (ap suc i)
        | inr x ↦ rw (e, x) i
      ]
    ]

update-OneDefault :
    (db : Wallets) (id : ℕ) (payment gas : Bytes) (now : ℕ)
    → OneDefault db
    → OneDefault (update_balance db id payment gas now)
unfolding update_balance
update-OneDefault db id payment gas now o =
    let f : Wallet → Wallet =
      λ w. record w { payment_balance = payment; gas_balance = gas; updated_at = now } in
    record {
      distinct = subst Distinct (sym (ids-update (has_id id) f db.wallets (λ w. refl))) o.distinct;
      given = All-update (λ w. w.id ≤ db.wallet_seq) (has_id id) f db.wallets o.given (λ w e h. h);
      single =
          affected-update id payment gas now db.wallets
          ∙ o.single
          ∙ (rw (is_empty-update (has_id id) f db.wallets) refl);
    }

delete-OneDefault : (db : Wallets) (id : ℕ) → OneDefault db → OneDefault (delete_wallet db id).0
unfolding delete_wallet
delete-OneDefault db id o = elim (Option-cases (find (has_id id) db.wallets)) [
  | inl x ↦ rw (x, delete_wallet) o
  | inr (v, x) ↦ elim (Bool-cases v.is_default) [
    | inl y ↦ rw (x, y, delete_wallet) o
    | inr y ↦ elim (Bool-cases (elem id db.paid)) [
      | inl z ↦ rw (x, y, z, delete_wallet) o
      | inr z ↦
          let f = found-Single id db.wallets v o.distinct x in
          let k = affected-kept id db.wallets (All-mono db.wallets (λ w g e. g e ∙ y) f) in
          rw (x, y, z, delete_wallet)
            (record {
              distinct = Distinct-delete (has_id id) db.wallets o.distinct;
              given = All-kept (λ w. w.id ≤ db.wallet_seq) (has_id id) db.wallets o.given;
              single =
                  single-kept db.wallets (delete (has_id id) db.wallets) (some_row db.wallets x)
                    o.single k;
            })
    ]
  ]
]
  where
    some_row : {v : Wallet} (ws : List Wallet) → find (has_id id) ws ≡ some v → is_empty ws ≡ false
    some_row [] h = absurd (cc)
    some_row (w ∷ ws) h = refl

step-OneDefault :
    (p : Primitives) (kr : Keyring) (db : Wallets) (c : Call)
    → OneDefault db
    → OneDefault (step p kr db c)
unfolding step
step-OneDefault p kr db (creates nonce name address private_key now) o =
    create-OneDefault p kr nonce db name address private_key now o
step-OneDefault p kr db (sets_default id now) o = set-OneDefault db id now o
step-OneDefault p kr db (deletes id) o = delete-OneDefault db id o
step-OneDefault p kr db (updates_balance id payment gas now) o =
    update-OneDefault db id payment gas now o
step-OneDefault p kr db (pays id) o = record {
  distinct = o.distinct;
  given = o.given;
  single = o.single;
}

-- Any calls of Create, SetDefault, Delete and UpdateBalance, one after the other, with any payments in
-- between, keep the wallets such
-- that no id stands twice or above the last one given out, and that exactly one wallet is the default,
-- if there is any wallet.
pub run-OneDefault :
    (p : Primitives) (kr : Keyring) (db : Wallets) (cs : List Call)
    → OneDefault db
    → OneDefault (run p kr db cs)
unfolding run
run-OneDefault p kr db [] o = o
run-OneDefault p kr db (c ∷ cs) o =
    run-OneDefault p kr (step p kr db c) cs (step-OneDefault p kr db c o)
