-- ===== src/Ownership/Steps.antt =====
-- What the replicas may do to the table `leases`, and what each statement leaves alone.
use prospero.Prelude.{
  ℕ, ◌+◌, ◌≤◌, ◌≡◌, ◌≢◌, refl, Bool, true, false, Option, none, some, List, [], ◌∷◌, String, arith,
  get, get-insert, get-insert_other, get-remove_other, sym, subst,
}
use prospero.Ownership.{
  Lease, Row, Database, LeasedOwnership, claimed, granted, try_acquire, extended, renew, deleted,
  release,
}

-- What may happen to the table: a statement of some replica, or the passing of time.
pub data Action : Type 0 where
  acquiring : Bool → LeasedOwnership → String → Action
  renewing : Bool → LeasedOwnership → Lease → Action
  releasing : Bool → LeasedOwnership → String → Action
  passing : ℕ → Action

unfoldable pub act : Action → Database → Database
act (acquiring up r key) db = (try_acquire up r db key).1
act (renewing up r lease) db = (renew up r db lease).0
act (releasing up r key) db = (release up r db key).1
act (passing d) db = record db { now = db.now + d }

unfoldable pub act_all : List Action → Database → Database
act_all [] db = db
act_all (a ∷ rest) db = act_all rest (act a db)

-- The action is not one that the replica `me` makes.
abbrev pub Foreign : String → Action → Type 0
Foreign me (acquiring up r key) = r.replica_id ≢ me
Foreign me (renewing up r lease) = r.replica_id ≢ me
Foreign me (releasing up r key) = r.replica_id ≢ me
Foreign me (passing d) = Unit

-- The action does not release the stream.
abbrev pub Keeps : String → Action → Type 0
Keeps key (releasing up r k) = k ≢ key
Keeps key _ = Unit

granted-other :
    (r : LeasedOwnership) (db : Database) (k key : String) (o : Option Row)
    → k ≢ key
    → get key (granted r db k o).1.leases ≡ get key db.leases
unfolding granted
granted-other r db k key none d = refl
granted-other r db k key (some row) d = get-insert_other key k row db.leases d

extended-other :
    (expires : ℕ) (me : String) (epoch : ℕ) (o : Option Row) (db : Database) (k key : String)
    → k ≢ key
    → get key (extended expires me epoch o db k).leases ≡ get key db.leases
unfolding extended
extended-other expires me epoch none db k key d = refl
extended-other expires me epoch (some row) db k key d =
    ground (arith, get-insert_other key k (record row { expires_at = expires }) db.leases d)

deleted-other :
    (me : String) (o : Option Row) (db : Database) (k key : String)
    → k ≢ key
    → get key (deleted me o db k).leases ≡ get key db.leases
unfolding deleted
deleted-other me none db k key d = refl
deleted-other me (some row) db k key d = ground (arith, get-remove_other key k db.leases d)

pub acquire-other :
    (up : Bool) (r : LeasedOwnership) (db : Database) (k key : String)
    → k ≢ key
    → get key (try_acquire up r db k).1.leases ≡ get key db.leases
unfolding try_acquire
acquire-other true r db k key d =
    granted-other r db k key (claimed r.replica_id db.now (db.now + r.ttl) (get k db.leases)) d
acquire-other false r db k key d = refl

pub renew-other :
    (up : Bool) (r : LeasedOwnership) (db : Database) (lease : Lease) (key : String)
    → lease.stream_key ≢ key
    → get key (renew up r db lease).0.leases ≡ get key db.leases
unfolding renew
renew-other true r db lease key d =
    extended-other (db.now + r.ttl) r.replica_id lease.epoch (get lease.stream_key db.leases) db
      lease.stream_key key d
renew-other false r db lease key d = refl

pub release-other :
    (up : Bool) (r : LeasedOwnership) (db : Database) (k key : String)
    → k ≢ key
    → get key (release up r db k).1.leases ≡ get key db.leases
unfolding release
release-other true r db k key d = deleted-other r.replica_id (get k db.leases) db k key d
release-other false r db k key d = refl

-- The row of an equal key.
pub at :
    (db : Database) (k key : String) (row : Row)
    → k ≡ key
    → get key db.leases ≡ some row
    → get k db.leases ≡ some row
at db k key row e h = subst (λ x. get x db.leases ≡ some row) (sym e) h

granted-now :
    (r : LeasedOwnership) (db : Database) (k : String) (o : Option Row)
    → (granted r db k o).1.now ≡ db.now
unfolding granted
granted-now r db k none = refl
granted-now r db k (some row) = refl

extended-now :
    (expires : ℕ) (me : String) (epoch : ℕ) (o : Option Row) (db : Database) (k : String)
    → (extended expires me epoch o db k).now ≡ db.now
unfolding extended
extended-now expires me epoch none db k = refl
extended-now expires me epoch (some row) db k = ground arith

deleted-now :
    (me : String) (o : Option Row) (db : Database) (k : String) → (deleted me o db k).now ≡ db.now
unfolding deleted
deleted-now me none db k = refl
deleted-now me (some row) db k = ground arith

-- No statement sets the clock back.
pub act_forward : (a : Action) (db : Database) → db.now ≤ (act a db).now
unfolding act try_acquire renew release
act_forward (acquiring true r k) db =
    ground
      (arith, granted-now r db k (claimed r.replica_id db.now (db.now + r.ttl) (get k db.leases)))
act_forward (acquiring false r k) db = omega arith
act_forward (renewing true r lease) db = ground (
  arith,
  extended-now (db.now + r.ttl) r.replica_id lease.epoch (get lease.stream_key db.leases) db
      lease.stream_key,
)
act_forward (renewing false r lease) db = omega arith
act_forward (releasing true r k) db =
    ground (arith, deleted-now r.replica_id (get k db.leases) db k)
act_forward (releasing false r k) db = omega arith
act_forward (passing d) db = omega arith

pub act_all_forward : (l : List Action) (db : Database) → db.now ≤ (act_all l db).now
unfolding act_all
act_all_forward [] db = ground arith
act_all_forward (a ∷ rest) db = ground (arith, act_forward a db, act_all_forward rest (act a db))

-- The row behind a lease just granted.
granted-row :
    (r : LeasedOwnership) (db : Database) (key : String) (o : Option Row) (lease : Lease)
    → (granted r db key o).2 ≡ some lease
    → (row : Row) × (o ≡ some row)
      × (lease ≡ record { stream_key = key; epoch = row.epoch })
      × (get key (granted r db key o).1.leases ≡ some row)
unfolding granted
granted-row r db key none lease g = ground arith
granted-row r db key (some row) lease g = (row, refl, ground arith, get-insert key row db.leases)

pub acquired :
    (r : LeasedOwnership) (db : Database) (key : String) (lease : Lease)
    → (try_acquire true r db key).2 ≡ some lease
    → (row : Row) × (claimed r.replica_id db.now (db.now + r.ttl) (get key db.leases) ≡ some row)
      × (lease ≡ record { stream_key = key; epoch = row.epoch })
      × (get key (try_acquire true r db key).1.leases ≡ some row)
unfolding try_acquire
acquired r db key lease g =
    granted-row r db key (claimed r.replica_id db.now (db.now + r.ttl) (get key db.leases)) lease g
