-- ===== src/Tests/Views.antt =====
-- The views of the dashboard: a timeline with a call whose finish carries another id.
use prospero.Prelude.{ℕ, ◌≡◌, true, false, Option, some, List, [], ◌∷◌, String}
use prospero.Model.Event.{EventKind, stdout, thinking, output, tool_started, tool_finished}
use prospero.Dashboard.Session.{Entry, event, gap}
use prospero.Dashboard.Timeline.{group}
use prospero.Dashboard.Timeline.Text.{said, chunks, said-group}
use prospero.Dashboard.Timeline.Rows.{rows, rows_of, group_rows}
use prospero.Tests.Data.{ev}

abbrev lasted : String → String → Option ℕ
lasted start end = some 5

abbrev label : EventKind (Unit {0}) → String
label k = "event"

abbrev told : EventKind (Unit {0}) → Entry (Unit {0})
told k = event (record (ev 1) { kind = k })

abbrev entries : List (Entry (Unit {0}))
entries =
    told (output stdout "a")
    ∷ told (output thinking "x")
    ∷ told (tool_started "c1" "Read" tt)
    ∷ told (output stdout "b")
    ∷ gap 2
    ∷ told (tool_finished "c9" "Read" true (some "r") false)
    ∷ []

said-group_example : said stdout (group lasted label entries) ≡ chunks stdout entries
said-group_example = said-group lasted label stdout entries

group_rows_example : rows (group lasted label entries) ≡ rows_of lasted label entries
group_rows_example = group_rows lasted label entries
