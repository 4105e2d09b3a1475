-- ===== src/Ingestion/Stored.antt =====
-- The rows of events in Bronze.
use cryptopulse.Prelude.{◌≡◌, ◌∙◌, sym, ap, String, List, [], ◌∷◌, ◌++◌, map}
use mathlib.Core.List.{append_assoc, append-nil}
use cryptopulse.Contracts.Events.{InternalEvent}
use cryptopulse.Warehouse.Schemas.Bronze.{internal_event_to_record}
use cryptopulse.Warehouse.World.{Environment}
use cryptopulse.Warehouse.Rows.{Row}
use cryptopulse.Warehouse.Table.{stored, find_key, insert_new}
use cryptopulse.Warehouse.Table.Keys.{find_key-insert_new, find_key-append_same}
use cryptopulse.Ingestion.{ConsumedEvent}

abbrev pub bronze_row : Environment → InternalEvent → Row
bronze_row env e = stored env.column (internal_event_to_record e)

-- The rows of events, in order.
abbrev pub rows_of : Environment → List ConsumedEvent → List Row
rows_of env cs = map (λ (c : ConsumedEvent). bronze_row env c.event) cs

unfoldable pub insert_all : Environment → List ConsumedEvent → List Row → List Row
insert_all env [] rows = rows
insert_all env (c ∷ cs) rows =
    insert_all env cs (insert_new "event_id" (bronze_row env c.event) rows)

pub find_key-insert_all :
    (env : Environment) (k : String) (cs : List ConsumedEvent) (rows : List Row)
    → find_key "event_id" k (insert_all env cs rows)
      ≡ find_key "event_id" k (rows ++ rows_of env cs)
unfolding insert_all
find_key-insert_all env k [] rows =
    ap (λ (l : List Row). find_key "event_id" k l) (sym (append-nil rows))
find_key-insert_all env k (c ∷ cs) rows =
    let row = bronze_row env c.event in
    find_key-insert_all env k cs (insert_new "event_id" row rows)
    ∙ find_key-append_same "event_id" k (insert_new "event_id" row rows) (rows ++ row ∷ [])
        (rows_of env cs) (find_key-insert_new "event_id" k row rows)
    ∙ ap (λ (l : List Row). find_key "event_id" k l) (append_assoc rows (row ∷ []) (rows_of env cs))
