-- ===== src/Warehouse/Schemas/Raising.antt =====
-- What reading the columns of a row raises: only the error class of its schema.
use cryptopulse.Prelude.{◌≡◌, refl, String, arith}
use cryptopulse.Python.Value.{Raised}
use cryptopulse.Python.Decimal.{Number}
use cryptopulse.Python.Call.{Call, returned, raised, ◌>>=◌}
use cryptopulse.Warehouse.Rows.{
  Row, RowErrors, get_column, as_str, as_datetime, as_decimal, as_payload, as_finite,
  parse_event_type, parse_side,
}

-- If the call raises, then an error of this kind.
abbrev pub RaisesKind {ℓ} : {A : Type ℓ} → String → Call A → Type ℓ
RaisesKind kind c = (x : Raised) → c ≡ raised x → x.kind ≡ kind

-- If the call raises, then an error of this class.
abbrev pub RaisesOnly {ℓ} : {A : Type ℓ} → RowErrors → Call A → Type ℓ
RaisesOnly errors c = RaisesKind errors.kind c

pub returned-RaisesOnly : {kind : String} {A : Type 0} {a : A} → RaisesKind kind (returned a)
returned-RaisesOnly x e = cc

pub >>=-RaisesOnly :
    {kind : String} {A B : Type 0} {m : Call A} {f : A → Call B}
    → RaisesKind kind m
    → ((a : A) → RaisesKind kind (f a))
    → RaisesKind kind (m >>= f)
>>=-RaisesOnly {m = returned a} h k = k a
>>=-RaisesOnly {m = raised y} h k = λ x e. h x (let same : y ≡ x = cc in rw same refl)

module _ (errors : RowErrors) where
  pub get_column-RaisesOnly :
      (key : String) (row : Row) → RaisesOnly errors (get_column errors key row)
  get_column-RaisesOnly key row x e = ground arith

  pub as_str-RaisesOnly : (key : String) (row : Row) → RaisesOnly errors (as_str errors key row)
  unfolding as_str
  as_str-RaisesOnly key row = >>=-RaisesOnly (get_column-RaisesOnly key row) λ v x e. ground arith

  pub as_datetime-RaisesOnly :
      (key : String) (row : Row) → RaisesOnly errors (as_datetime errors key row)
  unfolding as_datetime
  as_datetime-RaisesOnly key row =
      >>=-RaisesOnly (get_column-RaisesOnly key row) λ v x e. ground arith

  pub as_decimal-RaisesOnly :
      (key : String) (row : Row) → RaisesOnly errors (as_decimal errors key row)
  unfolding as_decimal
  as_decimal-RaisesOnly key row =
      >>=-RaisesOnly (get_column-RaisesOnly key row) λ v x e. ground arith

  pub as_payload-RaisesOnly :
      (key : String) (row : Row) → RaisesOnly errors (as_payload errors key row)
  unfolding as_payload
  as_payload-RaisesOnly key row =
      >>=-RaisesOnly (get_column-RaisesOnly key row) λ v x e. ground arith

  pub as_finite-RaisesOnly : (n : Number) → RaisesOnly errors (as_finite errors n)
  as_finite-RaisesOnly n x e = ground arith

  pub parse_event_type-RaisesOnly : (s : String) → RaisesOnly errors (parse_event_type errors s)
  unfolding parse_event_type
  parse_event_type-RaisesOnly s x e = ground arith

  pub parse_side-RaisesOnly : (s : String) → RaisesOnly errors (parse_side errors s)
  unfolding parse_side
  parse_side-RaisesOnly s x e = ground arith
