-- ===== src/Migrations/Shipped.antt =====
-- The scripts of warehouse/migrations/sql, as far as they touch the history: the first creates the
-- table and records itself; the others create the tables of a layer each, and record nothing.
use cryptopulse.Prelude.{String, true, str_eq, List, [], ◌∷◌, ◌++◌, some, if◌then◌else◌}
use cryptopulse.Migrations.{Directory, Scripts, is_in, fetch_applied}

abbrev pub first_name : String
first_name = "001_create_bronze_events"

abbrev pub shipped_directory : Directory
shipped_directory = record {
  exists = true;
  path = "warehouse/migrations/sql";
  stems =
      "004_create_gold_market_windows" ∷ "002_create_silver_events" ∷ first_name
      ∷ "003_create_quarantine_events" ∷ [];
}

-- INSERT … ON CONFLICT (migration) DO NOTHING
abbrev recorded : String → List String → List String
recorded name names = if is_in name names then names else names ++ name ∷ []

unfoldable pub shipped : Scripts
unfolding is_in fetch_applied
shipped name db =
    if str_eq name first_name
    then some (record {
      history = some (recorded name (fetch_applied db));
      committed = db.committed ++ name ∷ [];
    })
    else some (record db { committed = db.committed ++ name ∷ [] })
