-- ===== src/Kitchen/Tests.antt =====
-- The properties of Kitchen at one input each.
use restiq_backend.Base.{◌≡◌, refl, some, arith}
use restiq_backend.Store.Rows.{Db}
use restiq_backend.Store.Transaction.{ok, err, conflicting, conflict, returned}
use restiq_backend.Store.Samples.{sample, ticket}
use restiq_backend.Kitchen.{bump, recall, load_ticket}
use restiq_backend.Kitchen.Tickets.{ticket_in, bump_twice, recall-bump}

abbrev after_bump : Db
after_bump = (returned tt sample (bump 1 80 6 sample)).1

bumps : bump 1 80 6 sample ≡ ok (tt, after_bump)
unfolding bump load_ticket
bumps = refl

bump_twice_example : bump 1 80 9 after_bump ≡ err (conflicting conflict)
bump_twice_example = bump_twice 1 80 6 9 sample after_bump bumps

recall-bump_example :
    (db' : Db) × (db'' : Db) × (bump 1 80 6 sample ≡ ok (tt, db'))
    × (recall 1 80 9 db' ≡ ok (tt, db''))
    × (ticket_in 80 db''
        ≡ some (record ticket { recall_count = 1; bumped_at = some 6; recalled_at = some 9 }))
recall-bump_example = recall-bump 1 80 6 9 sample ticket refl refl refl (omega arith)
