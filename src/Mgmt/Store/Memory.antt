-- ===== src/Mgmt/Store/Memory.antt =====
-- A table in memory and unary addresses, which meet all that mgmt/store assumes of SQLite, `netip`
-- and `time`.
use Prim.Native.String.{String}
use Prim.Native.Char.{code}
use text.Mathlib.TextEquality.{eq_iff}
use text.Mathlib.Text.{◌==◌ as str_eq}
use wgservermgr.Prelude.{
  ℕ, zero, suc, ◌+◌, ◌≡◌, sym, ◌∙◌, subst, Bool, true, ◌&&◌, not, ltb, ◌==◌, if◌then◌else◌, List,
  [], ◌∷◌, ◌++◌, Option, none, some, arith, ◌↔◌,
}
use wgservermgr.Prelude.Int.{pos}
use wgservermgr.Prelude.Maps.{string_key}
use wgservermgr.Mgmt.Result.{Result, ok, err, no_rows, sql_error}
use wgservermgr.Mgmt.Store.Addresses.{Addr4, IsAddr4}
use wgservermgr.Mgmt.Store.Sqlite.{
  Sqlite, Formats, Row, Differs, Fresh, In, addresses, find_row, remove_row, change_rows,
}

-- A byte is as many letters `a`, with a full stop behind.
abbrev pub unary : ℕ → String → String
unary zero t = String.◌∷◌ "." t
unary (suc n) t = String.◌∷◌ "a" (unary n t)

abbrev pub count : ℕ → String → ℕ × String
count n String.[] = (n, "")
count n (String.◌∷◌ c t) = let rest = count (suc n) t in if code c == b'a' then rest else (n, t)

pub count-unary : (n k : ℕ) (t : String) → count n (unary k t) ≡ (n + k, t)
count-unary n zero t = ground arith
count-unary n (suc k) t = count-unary (suc n) k t ∙ ground arith

abbrev pub show_addr : Addr4 → String
show_addr a = unary a.b0 (unary a.b1 (unary a.b2 (unary a.b3 "")))

abbrev pub checked : ℕ → ℕ → ℕ → ℕ → Option Addr4
checked a b c d =
    if ltb a 256 && ltb b 256 && ltb c 256 && ltb d 256
    then some (record { b0 = a; b1 = b; b2 = c; b3 = d })
    else none

abbrev pub parse_addr : String → Option Addr4
parse_addr t =
    let (a, t1) = count 0 t in
    let (b, t2) = count 0 t1 in
    let (c, t3) = count 0 t2 in let (d, t4) = count 0 t3 in checked a b c d

pub parse_addr-show_addr : (a : Addr4) → IsAddr4 a → parse_addr (show_addr a) ≡ some a
parse_addr-show_addr a v =
    rw (count-unary 0 a.b0, count-unary 0 a.b1, count-unary 0 a.b2, count-unary 0 a.b3)
      (ground arith)

pub checked-IsAddr4 : (a b c d : ℕ) (x : Addr4) → checked a b c d ≡ some x → IsAddr4 x
checked-IsAddr4 a b c d x h = ground arith

pub parse_addr_bytes : (t : String) (a : Addr4) → parse_addr t ≡ some a → IsAddr4 a
parse_addr_bytes t a h =
    checked-IsAddr4 (count 0 t).0 (count 0 (count 0 t).1).0 (count 0 (count 0 (count 0 t).1).1).0
      (count 0 (count 0 (count 0 (count 0 t).1).1).1).0 a h

abbrev pub formats : Formats
formats = record {
  show_addr = show_addr;
  parse_addr = parse_addr;
  show_time = λ t. "";
  parse_time = λ t. some (pos 7);
  parse_addr-show_addr = parse_addr-show_addr;
  parse_addr_bytes = λ t a h. parse_addr_bytes t a h;
}

abbrev pub differs : Row → Row → Bool
differs r s =
    not (str_eq r.id s.id)
    && not (str_eq r.name s.name)
    && not (str_eq r.public_key s.public_key)
    && not (str_eq r.assigned_ip s.assigned_ip)

differs_sound : (r s : Row) → differs r s ≡ true → Differs r s
differs_sound r s h = (
  λ e. ground (arith, eq_iff r.id s.id),
  λ e. ground (arith, eq_iff r.name s.name),
  λ e. ground (arith, eq_iff r.public_key s.public_key),
  λ e. ground (arith, eq_iff r.assigned_ip s.assigned_ip),
)

abbrev pub fresh : Row → List Row → Bool
fresh r [] = true
fresh r (s ∷ rows) = differs r s && fresh r rows

fresh_sound : (r : Row) (rows : List Row) → fresh r rows ≡ true → Fresh r rows
fresh_sound r [] h = tt
fresh_sound r (s ∷ rows) h = (differs_sound r s (ground arith), fresh_sound r rows (ground arith))

abbrev pub select_id : String → List Row → Result Row
select_id id rows = elim (find_row id rows) [ none ↦ err no_rows | some r ↦ ok r ]

pub select_id_row :
    (id : String) (rows : List Row) (r : Row) → select_id id rows ≡ ok r → find_row id rows ≡ some r
select_id_row id rows r h = ground arith

pub select_id_missing :
    (id : String) (rows : List Row) → select_id id rows ≡ err no_rows → find_row id rows ≡ none
select_id_missing id rows h = ground arith

abbrev pub insert : Row → List Row → Result (List Row)
insert r rows = if fresh r rows then ok (rows ++ (r ∷ [])) else err sql_error

pub insert_rows :
    (r : Row) (rows rows' : List Row) → insert r rows ≡ ok rows' → rows' ≡ rows ++ (r ∷ [])
insert_rows r rows rows' h = ground arith

pub insert-Fresh : (r : Row) (rows rows' : List Row) → insert r rows ≡ ok rows' → Fresh r rows
insert-Fresh r rows rows' h = fresh_sound r rows (ground arith)

pub ok_eq : (x y : List Row) → ok x ≡ ok y → y ≡ x
ok_eq x y h = cc

pub same_addresses : (xs ys : List String) (ip : String) → ok xs ≡ ok ys → In ip ys ↔ In ip xs
same_addresses xs ys ip h = (λ i. subst (In ip) (sym same) i, λ i. subst (In ip) same i)
  where
    same : xs ≡ ys
    same = cc

abbrev pub memory : Sqlite
memory = record {
  Db = List Row;
  rows = λ db. db;
  select_all = λ db. ok db;
  select_ips = λ db. ok (addresses db);
  select_id = select_id;
  insert = insert;
  update = λ id c db. ok (change_rows id c db);
  delete = λ id db. ok (remove_row id db);
  select_ips_rows = λ db ips h ip. same_addresses (addresses db) ips ip h;
  select_id_row = select_id_row;
  select_id_missing = select_id_missing;
  insert_rows = insert_rows;
  insert_fresh = insert-Fresh;
  update_rows = λ id c db db' h. ok_eq _ db' h;
  delete_rows = λ id db db' h. ok_eq _ db' h;
}
