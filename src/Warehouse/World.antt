-- ===== src/Warehouse/World.antt =====
-- What the services act on: the four tables, and the broker's record of committed offsets. What the
-- code does not decide is asked of an environment, once at each step: whether the server refuses an
-- operation, what the clock shows, in what form a column comes back, how texts are ordered.
use cryptopulse.Prelude.{ℕ, suc, String, Bool, true, false, List, if◌then◌else◌, Option, none, some}
use cryptopulse.Prelude.Int.{ℤ}
use cryptopulse.Python.Datetime.{Datetime, from_instant}
use cryptopulse.Python.Value.{Value}
use cryptopulse.Python.Call.{Call, returned, raised}
use cryptopulse.Warehouse.Rows.{Row}

pub record Environment : Type 0 where
  -- the operation at this tick raises: a PostgresError, or a broker's refusal of a commit
  pub refuses : ℕ → Bool
  -- `datetime.now(UTC)` at this tick, in microseconds since the epoch
  pub clock : ℕ → ℤ
  -- what a SELECT returns for a value that an INSERT stored
  pub column : Value → Value
  -- `a <= b` in the collation of the database
  pub collate : String → String → Bool

-- A message's place in the stream: `OffsetAndMetadata` under its `TopicPartition`.
pub record Position : Type 0 where
  pub topic : String
  pub partition : ℕ
  pub next_offset : ℕ

pub record World : Type 0 where
  pub bronze : List Row
  pub silver : List Row
  pub quarantine : List Row
  pub gold : List Row
  pub commits : List Position
  pub ticks : ℕ

pub data Error : Type 0 where
  value_error : String → Error
  type_error : String → Error
  invalid_operation : Error
  storage_error : String → Error
  consume_error : String → Error
  publish_error : String → Error
  serialization_error : String → Error
  migration_error : String → String → Error
  runtime_error : String → Error
  exchange_error : String → Error
  os_error : Error
  preparation_error : String → Error
  validation_error : String → Error
  overflow_error : Error
  -- another exception: the name of its type, and its text
  raised_error : String → String → Error

pub data Result {ℓ} (A : Type ℓ) : Type ℓ where
  ok : A → Result A
  err : Error → Result A

-- What was written before an exception stays written, so the world comes back beside it.
abbrev pub Action {ℓ} : Type ℓ → Type ℓ
Action A = World → Result A × World

abbrev pub pure {ℓ} : {A : Type ℓ} → A → Action A
pure a w = (ok a, w)

abbrev pub raise {ℓ} : {A : Type ℓ} → Error → Action A
raise e w = (err e, w)

abbrev pub continue {ℓ κ} : {A : Type ℓ} {B : Type κ} → Result A → (A → Action B) → Action B
continue (ok a) f w = f a w
continue (err e) f w = (err e, w)

infixl 5 ◌>>=◌ ◌>>◌
abbrev pub ◌>>=◌ {ℓ κ} : {A : Type ℓ} {B : Type κ} → Action A → (A → Action B) → Action B
◌>>=◌ m f w = let (r, w') = m w in continue r f w'

abbrev pub ◌>>◌ {ℓ} : {B : Type ℓ} → Action (Unit {0}) → Action B → Action B
m >> k = m >>= λ _. k

abbrev pub check : Bool → Error → Action (Unit {0})
check true e = raise e
check false e = pure tt

-- A row that cannot be mapped raises a subclass of StorageError.
abbrev pub or_storage_error {ℓ} : {A : Type ℓ} → Call A → Action A
or_storage_error (returned a) = pure a
or_storage_error (raised x) = raise (storage_error x.message)

abbrev pub tick : World → World
tick w = record w { ticks = suc w.ticks }

abbrev settle : String → Option World → World → Result (Unit {0}) × World
settle message none w = (err (storage_error message), w)
settle message (some w') w = (ok tt, w')

module _ (env : Environment) where
  -- `datetime.now(UTC)`
  unfoldable pub now : Action Datetime
  now w = (ok (from_instant (env.clock w.ticks)), tick w)

  -- One statement in its transaction. It takes effect as a whole, or raises and changes nothing;
  -- `none` is the violation of a constraint.
  unfoldable pub execute : String → (World → Option World) → Action (Unit {0})
  execute message effect w =
      if env.refuses w.ticks
      then (err (storage_error message), tick w)
      else settle message (effect (tick w)) (tick w)

  -- One query.
  unfoldable pub fetch : String → (World → List Row) → Action (List Row)
  fetch message query w =
      if env.refuses w.ticks then (err (storage_error message), tick w) else (ok (query w), tick w)
