-- ===== src/Ownership/Exclusion.antt =====
-- A lease excludes the other replicas until it expires, in any interleaving of what they do.
use prospero.Prelude.{
  ℕ, ◌+◌, ◌≤◌, ◌≡◌, ◌≢◌, refl, Bool, true, Option, none, some, List, [], ◌∷◌, String, eq_iff, arith,
  get, All, String-cases, sym, subst, ◌∙◌, inl, inr,
}
use prospero.Error.{ok}
use prospero.Ownership.{
  Lease, Row, Database, LeasedOwnership, claimed, granted, try_acquire, matches, extended, renew,
  deleted, release,
}
use prospero.Ownership.Steps.{
  Action, acquiring, renewing, releasing, passing, act, act_all, Foreign, acquire-other,
  renew-other, release-other, at, act_forward, act_all_forward, acquired,
}

acquire_kept :
    (up : Bool) (r : LeasedOwnership) (db : Database) (key : String) (row : Row)
    → r.replica_id ≢ row.owner_replica_id
    → db.now ≤ row.expires_at
    → get key db.leases ≡ some row
    → try_acquire up r db key ≡ (r, db, none)
unfolding try_acquire granted claimed
acquire_kept up r db key row d live h =
    rw (h) ground (arith, eq_iff row.owner_replica_id r.replica_id)

renew_kept :
    (up : Bool) (r : LeasedOwnership) (db : Database) (lease : Lease) (row : Row)
    → r.replica_id ≢ row.owner_replica_id
    → get lease.stream_key db.leases ≡ some row
    → (renew up r db lease).0 ≡ db
unfolding renew extended matches
renew_kept up r db lease row d h = rw (h) ground (arith, eq_iff row.owner_replica_id r.replica_id)

release_kept :
    (up : Bool) (r : LeasedOwnership) (db : Database) (key : String) (row : Row)
    → r.replica_id ≢ row.owner_replica_id
    → get key db.leases ≡ some row
    → (release up r db key).1 ≡ db
unfolding release deleted
release_kept up r db key row d h = rw (h) ground (arith, eq_iff row.owner_replica_id r.replica_id)

-- A live row of another replica is left alone by whatever that one's peers do.
act_kept :
    (a : Action) (db : Database) (key : String) (row : Row)
    → Foreign row.owner_replica_id a
    → db.now ≤ row.expires_at
    → get key db.leases ≡ some row
    → get key (act a db).leases ≡ some row
unfolding act
act_kept (acquiring up r k) db key row d live h = elim (String-cases k key) [
  | inl e ↦ rw (acquire_kept up r db k row d live (at db k key row e h), act) h
  | inr e ↦ acquire-other up r db k key e ∙ h
]
act_kept (renewing up r lease) db key row d live h = elim (String-cases lease.stream_key key) [
  | inl e ↦ rw (renew_kept up r db lease row d (at db lease.stream_key key row e h), act) h
  | inr e ↦ renew-other up r db lease key e ∙ h
]
act_kept (releasing up r k) db key row d live h = elim (String-cases k key) [
  | inl e ↦ rw (release_kept up r db k row d (at db k key row e h), act) h
  | inr e ↦ release-other up r db k key e ∙ h
]
act_kept (passing d) db key row f live h = h

act_all_kept :
    (l : List Action) (db : Database) (key : String) (row : Row)
    → All (Foreign row.owner_replica_id) l
    → (act_all l db).now ≤ row.expires_at
    → get key db.leases ≡ some row
    → get key (act_all l db).leases ≡ some row
unfolding act_all
act_all_kept [] db key row f live h = h
act_all_kept (a ∷ rest) db key row f live h = act_all_kept rest (act a db) key row f.1 live (
    act_kept a db key row f.0 (ground (arith, act_forward a db, act_all_forward rest (act a db))) h)

claimed-owner :
    (me : String) (now expires : ℕ) (o : Option Row) (row : Row)
    → claimed me now expires o ≡ some row
    → (row.owner_replica_id ≡ me) × (row.expires_at ≡ expires)
unfolding claimed
claimed-owner me now expires none row e = ground arith
claimed-owner me now expires (some old) row e = ground arith

renew_match :
    (r : LeasedOwnership) (db : Database) (lease : Lease) (row : Row)
    → get lease.stream_key db.leases ≡ some row
    → row.owner_replica_id ≡ r.replica_id
    → row.epoch ≡ lease.epoch
    → (renew true r db lease).1 ≡ ok tt
unfolding renew matches
renew_match r db lease row h o e = rw (h) ground (arith, eq_iff row.owner_replica_id r.replica_id)

-- While a lease that a replica was granted has not expired, whatever its peers do meanwhile, and with the
-- database in reach: each peer's attempt on the stream gets nothing and changes nothing, and the
-- replica can renew its lease.
pub held_exclusively :
    (r s : LeasedOwnership) (db : Database) (key : String) (lease : Lease) (l : List Action)
    → (try_acquire true r db key).2 ≡ some lease
    → All (Foreign r.replica_id) l
    → s.replica_id ≢ r.replica_id
    → let later = act_all l (try_acquire true r db key).1 in
      later.now ≤ db.now + r.ttl
      → (try_acquire true s later key ≡ (s, later, none)) × ((renew true r later lease).1 ≡ ok tt)
held_exclusively r s db key lease l g f d live =
    let (row, c, e, h) = acquired r db key lease g in
    let (owner, expires) =
      claimed-owner r.replica_id db.now (db.now + r.ttl) (get key db.leases) row c in
    let later = act_all l (try_acquire true r db key).1 in
    let kept : get key later.leases ≡ some row =
      act_all_kept l (try_acquire true r db key).1 key row
        (subst (λ m. All (Foreign m) l) (sym owner) f) (ground (arith, expires, live)) h in
    (
      acquire_kept true s later key row (λ q. d (q ∙ owner)) (ground (arith, expires, live)) kept,
      subst (λ x. (renew true r later x).1 ≡ ok tt) (sym e)
          (renew_match r later (record { stream_key = key; epoch = row.epoch }) row kept owner
            refl),
    )
