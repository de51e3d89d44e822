-- ===== src/Inventory/Tx.antt =====
-- A transaction on the stock tables: the rows, the clock readings it takes, and its errors.
-- stock.schema.ts and transaction-deadlines.ts of .../inventory/infrastructure. Transactions are
-- serial here: each sees what those before it committed. A table with a unique key is a function.
use jcool_ecommerce_backend.Base.{ℕ, suc, Bool, true, false, Option, List, leb, if◌then◌else◌}
use jcool_ecommerce_backend.Inventory.Fence.{ReservationOrderStatus}

pub data ReservationStatus : Type 0 where
  held released committed restocked : ReservationStatus

unfoldable pub line_status_eq : ReservationStatus → ReservationStatus → Bool
line_status_eq ReservationStatus.held ReservationStatus.held = true
line_status_eq ReservationStatus.released ReservationStatus.released = true
line_status_eq ReservationStatus.committed ReservationStatus.committed = true
line_status_eq ReservationStatus.restocked ReservationStatus.restocked = true
line_status_eq _ _ = false

pub record StockLevel : Type 0 where
  pub on_hand : ℕ
  pub reserved : ℕ
  pub version : ℕ

pub record Reservation : Type 0 where
  pub id : ℕ
  pub order_id : ℕ
  pub variant_id : ℕ
  pub quantity : ℕ
  pub status : ReservationStatus
  pub expires_at : ℕ

pub record Header : Type 0 where
  pub status : ReservationOrderStatus
  pub hold_until : Option ℕ

-- `levels` by variant, `headers` by order.
pub record Db : Type 0 where
  pub levels : ℕ → Option StockLevel
  pub reservations : List Reservation
  pub headers : ℕ → Option Header

-- `check_violation` is the database's refusal of a row that breaks a CHECK of the schema.
pub data StockError : Type 0 where
  insufficient_stock : ℕ → ℕ → ℕ → StockError
  reservation_conflict : ℕ → StockError
  reservation_deadline reservation_timeout id_mint_unavailable missing_id check_violation
        header_unreadable out_of_fuel :
      StockError

pub data Answer (A : Type 0) : Type 0 where
  ok : A → Answer A
  err : StockError → Answer A

-- `reads` counts the readings of the clock.
pub record World : Type 0 where
  pub db : Db
  pub reads : ℕ

abbrev pub Tx : Type 0 → Type 0
Tx A = World → Answer A × World

abbrev pub pure : {A : Type 0} → A → Tx A
pure a w = (ok a, w)

abbrev pub throw : {A : Type 0} → StockError → Tx A
throw e w = (err e, w)

abbrev pub then_do : {A B : Type 0} → Answer A → (A → Tx B) → Tx B
then_do (ok a) f w = f a w
then_do (err e) f w = (err e, w)

infixl 5 ◌>>=◌ ◌>>◌
abbrev pub ◌>>=◌ : {A B : Type 0} → Tx A → (A → Tx B) → Tx B
◌>>=◌ m f w = let (r, w') = m w in then_do r f w'

abbrev pub ◌>>◌ : {A B : Type 0} → Tx A → Tx B → Tx B
m >> k = m >>= λ _. k

abbrev pub gets : {A : Type 0} → (Db → A) → Tx A
gets f w = (ok (f w.db), w)

abbrev pub modify : (Db → Db) → Tx (Unit {0})
modify f w = (ok tt, record w { db = f w.db })

-- `Date.now()`, from the readings that the clock will give.
abbrev pub now : (ℕ → ℕ) → Tx ℕ
now clock w = (ok (clock w.reads), record w { reads = suc w.reads })

-- `TransactionDeadlines.limit`: no statement that can wait on a lock is begun past the deadline.
unfoldable pub limit : (ℕ → ℕ) → ℕ → Tx (Unit {0})
limit clock deadline w = (
  if leb deadline (clock w.reads) then err StockError.reservation_timeout else ok tt,
  record w { reads = suc w.reads },
)

abbrev pub settled : {A : Type 0} → Answer A → Db → World → World
settled (ok a) before w = w
settled (err e) before w = record w { db = before }

-- `db.transaction`: an error rolls back every write.
unfoldable pub transaction : {A : Type 0} → Tx A → Tx A
transaction work w = let (r, w') = work w in (r, settled r w.db w')
