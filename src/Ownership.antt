-- ===== src/Ownership.antt =====
-- crates/core/src/ownership.rs and leased_ownership.rs: which replica is the single writer of a
-- stream. The table `leases` and its clock are the database's, shared by the replicas; each SQL
-- statement is one atomic action on it. `up` says whether a statement reaches the database: one
-- that does not has no effect on it. Times and lifetimes are numbers of microseconds.
pub mod Exclusion
pub mod Fencing
pub mod Steps
use prospero.Prelude.{
  ℕ, ◌+◌, Bool, true, false, ◌&&◌, ◌||◌, Option, none, some, List, [], ◌∷◌, String, str_eq, ltb,
  ◌==◌, if◌then◌else◌, get, insert, remove,
}
use Prim.Native.String.{◌++◌ as str_append}
use prospero.Error.{Result, ok, err, store}

pub record Lease : Type 0 where
  pub stream_key : String
  pub epoch : ℕ

-- A row of the table `leases`, whose primary key is the stream's.
pub record Row : Type 0 where
  pub owner_replica_id : String
  pub epoch : ℕ
  pub expires_at : ℕ

pub record Database : Type 0 where
  pub now : ℕ
  pub leases : List (String × Row)

pub record LeasedOwnership : Type 0 where
  pub replica_id : String
  pub ttl : ℕ
  pub held : List (String × ℕ)

-- The row that `INSERT … ON CONFLICT (stream_key) DO UPDATE … WHERE …` writes, if it writes one.
unfoldable pub claimed : String → ℕ → ℕ → Option Row → Option Row
claimed me now expires none =
    some (record { owner_replica_id = me; epoch = 1; expires_at = expires })
claimed me now expires (some row) =
    let ours = str_eq row.owner_replica_id me in
    if ltb row.expires_at now || ours
    then some (record {
      owner_replica_id = me;
      epoch = if ours then row.epoch else row.epoch + 1;
      expires_at = expires;
    })
    else none

unfoldable pub granted :
    LeasedOwnership → Database → String → Option Row → LeasedOwnership × Database × Option Lease
granted r db key none = (r, db, none)
granted r db key (some row) = (
  record r { held = insert key row.epoch r.held },
  record db { leases = insert key row db.leases },
  some (record { stream_key = key; epoch = row.epoch }),
)

unfoldable pub try_acquire :
    Bool → LeasedOwnership → Database → String → LeasedOwnership × Database × Option Lease
unfolding granted
try_acquire up r db key =
    if up
    then granted r db key (claimed r.replica_id db.now (db.now + r.ttl) (get key db.leases))
    else (r, db, none)

-- Whether `UPDATE … WHERE stream_key = … AND owner_replica_id = … AND epoch = …` meets a row.
unfoldable pub matches : String → ℕ → Option Row → Bool
matches me epoch none = false
matches me epoch (some row) = str_eq row.owner_replica_id me && row.epoch == epoch

unfoldable pub extended : ℕ → String → ℕ → Option Row → Database → String → Database
extended expires me epoch none db key = db
extended expires me epoch (some row) db key =
    if matches me epoch (some row)
    then record db { leases = insert key (record row { expires_at = expires }) db.leases }
    else db

unfoldable pub renew : Bool → LeasedOwnership → Database → Lease → Database × Result (Unit {0})
unfolding extended
renew up r db lease =
    let row = get lease.stream_key db.leases in
    if up
    then (
      extended (db.now + r.ttl) r.replica_id lease.epoch row db lease.stream_key,
      if matches r.replica_id lease.epoch row
          then ok tt
          else err (
              store (
                str_append "lease for " (str_append lease.stream_key " lost (stolen or expired)"))),
    )
    else (db, err (store "renewing lease"))

-- `DELETE FROM leases WHERE stream_key = … AND owner_replica_id = …`
unfoldable pub deleted : String → Option Row → Database → String → Database
deleted me none db key = db
deleted me (some row) db key =
    if str_eq row.owner_replica_id me then record db { leases = remove key db.leases } else db

unfoldable pub release : Bool → LeasedOwnership → Database → String → LeasedOwnership × Database
unfolding deleted
release up r db key = (
  record r { held = remove key r.held },
  if up then deleted r.replica_id (get key db.leases) db key else db,
)

is_held : Option ℕ → Bool
is_held none = false
is_held (some epoch) = true

-- Answered from memory.
unfoldable pub owns : LeasedOwnership → String → Bool
unfolding is_held
owns r key = is_held (get key r.held)

lost : Result (Unit {0}) → Bool
lost (ok done) = false
lost (err e) = true

-- The loop of `heartbeat`, over the leases held when it began. `up` is by stream.
unfoldable pub renew_all :
    (String → Bool) → List (String × ℕ) → LeasedOwnership → Database → LeasedOwnership × Database
unfolding lost
renew_all up [] r db = (r, db)
renew_all up ((key, epoch) ∷ rest) r db =
    let (db', result) = renew (up key) r db (record { stream_key = key; epoch = epoch }) in
    renew_all up rest (if lost result then record r { held = remove key r.held } else r) db'

unfoldable pub heartbeat : (String → Bool) → LeasedOwnership → Database → LeasedOwnership × Database
heartbeat up r db = renew_all up r.held r db
