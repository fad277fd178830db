-- ===== src/DbLease.antt =====
-- src/common/services/db-lease.service.ts: leases of background jobs, as rows of `system_settings` by the
-- lease's name. A token is a random number that its caller draws.
use Prim.Native.String.{String}
use text.Mathlib.Text.{◌==◌ as str_eq}
use stock_pilot_be.Prelude.{
  ℕ, ◌+◌, ◌≡◌, ◌≢◌, ◌≤◌, refl, ◌&&◌, not, Bool, true, false, Option, none, some, List, ◌∷◌, ◌==◌,
  ltb, filter_by, if◌then◌else◌, Bool-cases, inl, inr, arith, ◌∙◌, ap, sym,
}
use stock_pilot_be.Prelude.Rows.{
  find_first, update_first, holds, find_first-update_self, find_first-filter,
}

pub record Lease : Type 0 where
  pub name : String
  pub token : ℕ
  pub expires_at : ℕ

abbrev pub is_named : String → Lease → Bool
is_named name l = str_eq l.name name

-- `INSERT ... ON DUPLICATE KEY UPDATE valueJson = IF(expiresAt < now, incoming, old)`
abbrev taken_over : Lease → ℕ → Lease → Lease
taken_over incoming now old =
    if ltb old.expires_at now
    then record old { token = incoming.token; expires_at = incoming.expires_at }
    else old

unfoldable pub upsert_lease : Lease → ℕ → List Lease → List Lease
upsert_lease incoming now rows = elim (find_first (is_named incoming.name) rows) [
  | none ↦ incoming ∷ rows
  | some _ ↦ update_first (is_named incoming.name) (taken_over incoming now) rows
]

-- Whether the row that is read back holds the token.
unfoldable pub is_held : String → ℕ → List Lease → Bool
is_held name token rows = holds (λ l. l.token == token) (find_first (is_named name) rows)

unfoldable pub try_acquire : String → ℕ → ℕ → ℕ → List Lease → Option ℕ × List Lease
unfolding upsert_lease is_held
try_acquire name token ttl now rows =
    let rows' =
      upsert_lease (record { name = name; token = token; expires_at = now + ttl }) now rows in
    (if is_held name token rows' then some token else none, rows')

unfoldable pub release : String → ℕ → List Lease → List Lease
release name token rows = filter_by (λ l. not (is_named name l && l.token == token)) rows

-- `runExclusive`: the work takes the table on to where it ends, and the lease is released then.
unfoldable pub run_exclusive {ℓ} :
    {A : Type ℓ}
    → String
    → ℕ
    → ℕ
    → ℕ
    → (List Lease → A × List Lease)
    → List Lease
    → Option A × List Lease
unfolding try_acquire release
run_exclusive name token ttl now work rows =
    let (taken, rows') = try_acquire name token ttl now rows in
    elim taken [
      | none ↦ (none, rows')
      | some t ↦ (some (work rows').0, release name t (work rows').1)
    ]

-- The lease is the holder's until it expires.
pub record IsHolder (name : String) (holder until : ℕ) (rows : List Lease) : Type 0 where
  pub lease : Lease
  pub found : find_first (is_named name) rows ≡ some lease
  pub token : lease.token ≡ holder
  pub expires : lease.expires_at ≡ until

taken_over-name :
    (incoming : Lease) (now : ℕ) (name : String) (l : Lease)
    → is_named name (taken_over incoming now l) ≡ is_named name l
taken_over-name incoming now name l = elim (Bool-cases (ltb l.expires_at now)) [
  | inl e ↦ rw e refl
  | inr e ↦ rw e refl
]

read_back :
    (incoming : Lease) (now : ℕ) (rows : List Lease) (l : Lease)
    → find_first (is_named incoming.name) rows ≡ some l
    → find_first (is_named incoming.name) (upsert_lease incoming now rows)
      ≡ some (taken_over incoming now l)
unfolding upsert_lease
read_back incoming now rows l found =
    rw (found, upsert_lease)
      (find_first-update_self (is_named incoming.name) (taken_over incoming now)
          (taken_over-name incoming now incoming.name) rows
        ∙ rw found refl)

other_token : (a b c : ℕ) → a ≡ b → c ≢ b → (a == c) ≡ false
other_token a b c e h = ground arith

module _ (name : String) (holder until : ℕ) (rows : List Lease)
    (held : IsHolder name holder until rows) where
  -- While a lease has not expired, whoever asks with another token does not get it, and it stays the
  -- holder's.
  pub try_acquire_held :
      (token ttl now : ℕ)
      → token ≢ holder
      → now ≤ until
      → ((try_acquire name token ttl now rows).0 ≡ none)
        × IsHolder name holder until (try_acquire name token ttl now rows).1
  unfolding try_acquire is_held
  try_acquire_held token ttl now other early =
      let incoming : Lease = record { name = name; token = token; expires_at = now + ttl } in
      let back : find_first (is_named name) (upsert_lease incoming now rows) ≡ some held.lease =
        read_back incoming now rows held.lease held.found ∙ ap some (not_late incoming) in
      (
        rw back (rw (other_token held.lease.token holder token held.token other) refl),
        record { lease = held.lease; found = back; token = held.token; expires = held.expires },
      )
    where
      in_time : (n : ℕ) → n ≡ until → ltb n now ≡ false
      in_time n e = ground arith

      not_late : (incoming : Lease) → taken_over incoming now held.lease ≡ held.lease
      not_late incoming = rw (in_time held.lease.expires_at held.expires) refl

  -- A release with another token leaves the lease the holder's.
  pub release_other :
      (token : ℕ) → token ≢ holder → IsHolder name holder until (release name token rows)
  unfolding release
  release_other token other = record {
    lease = held.lease;
    found = find_first-filter (is_named name) _ rows held.lease held.found stays;
    token = held.token;
    expires = held.expires;
  }
    where
      stays : not (is_named name held.lease && held.lease.token == token) ≡ true
      stays =
          rw (other_token held.lease.token holder token held.token other)
            (no_two (is_named name held.lease))
        where
          no_two : (b : Bool) → not (b && false) ≡ true
          no_two true = refl
          no_two false = refl

-- Whoever gets a lease that another token had held holds it until the time that was asked for.
pub try_acquire-IsHolder :
    (name : String) (token ttl now : ℕ) (rows : List Lease) (l : Lease)
    → find_first (is_named name) rows ≡ some l
    → l.token ≢ token
    → (try_acquire name token ttl now rows).0 ≡ some token
    → IsHolder name token (now + ttl) (try_acquire name token ttl now rows).1
unfolding try_acquire is_held
try_acquire-IsHolder name token ttl now rows l found stranger h =
    elim (Bool-cases (ltb l.expires_at now)) [
      | inl late ↦ record {
        lease = taken_over incoming now l;
        found = back;
        token = rw late refl;
        expires = rw late refl;
      }
      | inr early ↦ absurd (refused early)
    ]
  where
    incoming : Lease
    incoming = record { name = name; token = token; expires_at = now + ttl }

    back :
        find_first (is_named name) (upsert_lease incoming now rows)
        ≡ some (taken_over incoming now l)
    back = read_back incoming now rows l found

    refused : ltb l.expires_at now ≡ false → ⊥
    refused early = both answer h
      where
        answer : (try_acquire name token ttl now rows).0 ≡ none
        answer =
            rw back
              (rw early (rw (other_token l.token l.token token refl (λ e. stranger (sym e))) refl))

        both : {o : Option ℕ} → o ≡ none → o ≡ some token → ⊥
        both e f = cc
