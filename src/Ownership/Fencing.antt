-- ===== src/Ownership/Fencing.antt =====
-- A lease that a peer took over is never renewed again, unless the stream is released.
use Prim.Native.String.{◌++◌ as str_append}
use prospero.Prelude.{
  if◌then◌else◌, ℕ, ◌+◌, ◌≤◌, ◌<◌, ◌≡◌, ◌≢◌, refl, Bool, true, false, Option, none, some, List, [],
  ◌∷◌, String, eq_iff, arith, get, get-insert, get-remove, All, String-cases, subst, ◌∙◌, inl, inr,
}
use prospero.Error.{err, store}
use prospero.Ownership.{
  Lease, Row, Database, LeasedOwnership, claimed, granted, try_acquire, matches, extended, renew,
  deleted, release,
}
use prospero.Ownership.Steps.{
  Action, acquiring, renewing, releasing, passing, act, act_all, Keeps, acquire-other, renew-other,
  release-other, acquired,
}

abbrev Past : ℕ → String → Database → Type 0
Past e key db = (row : Row) × (get key db.leases ≡ some row) × (e < row.epoch)

Past-unmoved :
    (e : ℕ) (key : String) (db db' : Database)
    → get key db'.leases ≡ get key db.leases
    → Past e key db
    → Past e key db'
Past-unmoved e key db db' same (row, h, lt) = (row, same ∙ h, lt)

Past-if :
    (e : ℕ) (key : String) (b : Bool) (db db' : Database)
    → Past e key db
    → Past e key db'
    → Past e key (if b then db else db')
Past-if e key true db db' p q = p
Past-if e key false db db' p q = q

granted-Past :
    (e : ℕ) (r : LeasedOwnership) (db : Database) (key : String) (o : Option Row)
    → Past e key db
    → ((row : Row) → o ≡ some row → e < row.epoch)
    → Past e key (granted r db key o).1
unfolding granted
granted-Past e r db key none p q = p
granted-Past e r db key (some row) p q = (row, get-insert key row db.leases, q row refl)

claimed-rises :
    (me : String) (now expires : ℕ) (old row : Row)
    → claimed me now expires (some old) ≡ some row
    → old.epoch ≤ row.epoch
unfolding claimed
claimed-rises me now expires old row e = ground arith

taken_over :
    (me : String) (now expires : ℕ) (old row : Row)
    → me ≢ old.owner_replica_id
    → claimed me now expires (some old) ≡ some row
    → old.epoch < row.epoch
unfolding claimed
taken_over me now expires old row d e = ground (arith, eq_iff old.owner_replica_id me)

acquire-Past :
    (e : ℕ) (up : Bool) (r : LeasedOwnership) (db : Database) (key : String)
    → Past e key db
    → Past e key (try_acquire up r db key).1
unfolding try_acquire
acquire-Past e true r db key (row, h, lt) =
    granted-Past e r db key (claimed r.replica_id db.now (db.now + r.ttl) (get key db.leases))
      (row, h, lt)
      (λ new c. ground (
        arith,
        claimed-rises r.replica_id db.now (db.now + r.ttl) row new
            (subst (λ o. claimed r.replica_id db.now (db.now + r.ttl) o ≡ some new) h c),
      ))
acquire-Past e false r db key p = p

renew-Past :
    (e : ℕ) (up : Bool) (r : LeasedOwnership) (db : Database) (lease : Lease)
    → Past e lease.stream_key db
    → Past e lease.stream_key (renew up r db lease).0
unfolding renew extended
renew-Past e true r db lease (row, h, lt) =
    rw (h, extended)
      (Past-if e lease.stream_key (matches r.replica_id lease.epoch (some row)) _ db
        (
          record row { expires_at = db.now + r.ttl },
          get-insert lease.stream_key (record row { expires_at = db.now + r.ttl }) db.leases,
          lt,
        )
        (row, h, lt))
renew-Past e false r db lease p = p

act-Past :
    (e : ℕ) (key : String) (a : Action) (db : Database)
    → Keeps key a
    → Past e key db
    → Past e key (act a db)
unfolding act
act-Past e key (acquiring up r k) db keeps p = elim (String-cases k key) [
  | inl q ↦
      subst (λ x. Past e x db → Past e x (try_acquire up r db k).1) q (acquire-Past e up r db k) p
  | inr d ↦ Past-unmoved e key db (try_acquire up r db k).1 (acquire-other up r db k key d) p
]
act-Past e key (renewing up r lease) db keeps p = elim (String-cases lease.stream_key key) [
  | inl q ↦
      subst (λ x. Past e x db → Past e x (renew up r db lease).0) q (renew-Past e up r db lease) p
  | inr d ↦ Past-unmoved e key db (renew up r db lease).0 (renew-other up r db lease key d) p
]
act-Past e key (releasing up r k) db keeps p =
    Past-unmoved e key db (release up r db k).1 (release-other up r db k key keeps) p
act-Past e key (passing d) db keeps p = p

act_all-Past :
    (e : ℕ) (key : String) (l : List Action) (db : Database)
    → All (Keeps key) l
    → Past e key db
    → Past e key (act_all l db)
unfolding act_all
act_all-Past e key [] db keeps p = p
act_all-Past e key (a ∷ rest) db keeps p =
    act_all-Past e key rest (act a db) keeps.1 (act-Past e key a db keeps.0 p)

renew-Past_fails :
    (r : LeasedOwnership) (db : Database) (lease : Lease)
    → Past lease.epoch lease.stream_key db
    → renew true r db lease ≡ (
      db,
      err (
          store
            (str_append "lease for " (str_append lease.stream_key " lost (stolen or expired)"))),
    )
unfolding renew extended matches
renew-Past_fails r db lease (row, h, lt) = rw (h) ground arith

-- Once a peer has taken over a stream that a replica held, the replica's old lease is refused, with the
-- table unchanged, however the replicas go on, as long as none of them releases the stream.
pub fenced :
    (r s : LeasedOwnership) (db : Database) (key : String) (row : Row) (lease : Lease)
    (l : List Action)
    → get key db.leases ≡ some row
    → row.owner_replica_id ≡ r.replica_id
    → s.replica_id ≢ r.replica_id
    → (try_acquire true s db key).2 ≡ some lease
    → All (Keeps key) l
    → let later = act_all l (try_acquire true s db key).1 in
      renew true r later (record { stream_key = key; epoch = row.epoch })
      ≡ (later, err (store (str_append "lease for " (str_append key " lost (stolen or expired)"))))
fenced r s db key row lease l h owner d g keeps =
    let (new, c, e, h') = acquired s db key lease g in
    renew-Past_fails r (act_all l (try_acquire true s db key).1)
      (record { stream_key = key; epoch = row.epoch })
      (act_all-Past row.epoch key l (try_acquire true s db key).1 keeps (
        new,
        h',
        taken_over s.replica_id db.now (db.now + s.ttl) row new (λ q. d (q ∙ owner))
            (subst (λ o. claimed s.replica_id db.now (db.now + s.ttl) o ≡ some new) h c),
      ))

-- A release by the owner forgets the epoch: the next replica to acquire the stream, the same or another,
-- is granted epoch 1, whatever epoch the released lease had.
pub epoch_restarts :
    (r s : LeasedOwnership) (db : Database) (key : String) (row : Row)
    → get key db.leases ≡ some row
    → row.owner_replica_id ≡ r.replica_id
    → (try_acquire true s (release true r db key).1 key).2
      ≡ some (record { stream_key = key; epoch = 1 })
unfolding release deleted try_acquire granted claimed
epoch_restarts r s db key row h owner =
    rw (h) ground (arith, eq_iff row.owner_replica_id r.replica_id, get-remove key db.leases)
